-- ===== src/Matching/Apply/Serve.antt =====
-- Price and time priority of `ApplyOrder` in matching/order_book.go.
use cheetah_exchange.Prelude.{ℕ, ◌≡◌, some, List, [], ◌∷◌, All}
use cheetah_exchange.Prelude.Ids.{lookup}
use cheetah_exchange.Extern.Decimal.{Decimal, IsExact}
use cheetah_exchange.Extern.TreeMap.{TreeMap, IsTreeMap}
use cheetah_exchange.Models.{Order, Side, buy, sell, other_side}
use cheetah_exchange.Matching.Log.{Log, BookOrder}
use cheetah_exchange.Matching.Depth.{Key, Depth}
use cheetah_exchange.Matching.Book.{Book, makers_of}
use cheetah_exchange.Matching.Book.Invariant.{IsBook}
use cheetah_exchange.Matching.Walk.{Listed}
use cheetah_exchange.Matching.Walk.Queue.{InOrder}
use cheetah_exchange.Matching.Walk.Priority.{Sized}
use cheetah_exchange.Matching.Apply.Execute.{makers_order, makers_order-IsOrder}
use cheetah_exchange.Matching.Apply.Submit.{IsValidOrder, taker_of}

module _ {D Q : Type 0} ⦃d : Decimal D⦄ ⦃t : TreeMap (Key D) ℕ Q⦄ (x : IsExact D) (m : IsTreeMap t)
    (b : Book D Q) (v : IsBook m b) where
  pub makers_have_sizes :
      (s : Side) (os : List (BookOrder D))
      → All (λ a. lookup a.order_id (makers_of s b).orders ≡ some a) os
      → Sized os
  makers_have_sizes s [] h = tt
  makers_have_sizes buy (a ∷ os) h =
      ((v.asks_ok).is_depth.sized a.order_id a h.0, makers_have_sizes buy os h.1)
  makers_have_sizes sell (a ∷ os) h =
      ((v.bids_ok).is_depth.sized a.order_id a h.0, makers_have_sizes sell os h.1)
  makers_have_sizes other_side (a ∷ os) h =
      ((v.bids_ok).is_depth.sized a.order_id a h.0, makers_have_sizes other_side os h.1)

  module _ (o : Order D) (ok : IsValidOrder o) where
    -- The makers of an order: the orders of the other side, as its queue lists them, best price
    -- first and then oldest id.
    pub record Makers (os : List (BookOrder D)) : Type 0 where
      pub listed :
          Listed
            (makers_of (taker_of o).side b)
            (t.entries (makers_of (taker_of o).side b).queue)
            os
      pub in_order :
          InOrder m (makers_order (taker_of o).side) (makers_order-IsOrder x m (taker_of o).side) os
