-- ===== src/Matching/Apply/Submit.antt =====
-- `ApplyOrder` of matching/order_book.go: what it returns, and the book that it leaves.
use cheetah_exchange.Prelude.{
  ℕ, ◌+◌, ◌<◌, ◌≡◌, ◌≢◌, false, none, some, List, [], ◌∷◌, ◌++◌, arith, ◌⊎◌, inl, inr, Option-cases,
  Ordering,
}
use cheetah_exchange.Prelude.Ids.{lookup}
use cheetah_exchange.Extern.Decimal.{Decimal, IsExact, is_zero}
use cheetah_exchange.Extern.TreeMap.{TreeMap, IsTreeMap}
use cheetah_exchange.Models.{Order, Side, buy, sell, limit, market}
use cheetah_exchange.Matching.Window.{Window, u64}
use cheetah_exchange.Matching.Log.{BookOrder, new_book_order}
use cheetah_exchange.Matching.Depth.{Key, Depth}
use cheetah_exchange.Matching.Book.{Book, by_nothing, prepare}
use cheetah_exchange.Matching.Book.Invariant.{IsSide, IsBook}
use cheetah_exchange.Matching.Walk.{logs_of}
use cheetah_exchange.Matching.Walk.Trades.{measure_of}
use cheetah_exchange.Matching.Apply.{apply_order}
use cheetah_exchange.Matching.Apply.Admit.{SeenIn, AreWindows, Admits, admit_lem}
use cheetah_exchange.Matching.Apply.Settle.{MayRest}
use cheetah_exchange.Matching.Apply.Execute.{Executed, execute_total}

-- An order that the services let through: a known side and type, a price if it is a limit order.
pub record IsValidOrder {D : Type 0} ⦃d : Decimal D⦄ (o : Order D) : Type 0 where
  pub known_side : (o.side ≡ buy) ⊎ (o.side ≡ sell)
  pub known_type : (o.order_type ≡ limit) ⊎ (o.order_type ≡ market)
  pub has_price : o.order_type ≡ limit → is_zero o.price ≡ false
  pub small_id : o.id + 1 < u64

-- The taker on which `ApplyOrder` runs its loop, and the book behind the window.
abbrev pub taker_of : {D : Type 0} ⦃d : Decimal D⦄ → Order D → BookOrder D
taker_of o = prepare (new_book_order o)

abbrev pub noted : {D Q : Type 0} → Book D Q → List Window → Book D Q
noted b ws = record b { order_id_windows = ws }

-- A valid order is measured by its size or its funds.
pub taker_measure :
    {D : Type 0} ⦃d : Decimal D⦄ (o : Order D)
    → IsValidOrder o
    → measure_of (taker_of o) ≢ by_nothing
unfolding prepare
taker_measure o ok e = ground (arith, ok.known_side, ok.known_type)

module _ {D Q : Type 0} ⦃d : Decimal D⦄ ⦃t : TreeMap (Key D) ℕ Q⦄ (m : IsTreeMap t) (b : Book D Q)
    (v : IsBook m b) (ws : List Window) where
  weaken_side :
      (c : Key D → Key D → Ordering) (side : Side) (e : Depth D Q)
      → ((y : ℕ) → SeenIn b.order_id_windows y → SeenIn ws y)
      → IsSide m c side b.order_id_windows e
      → IsSide m c side ws e
  weaken_side c side e keeps s = record {
    is_depth = s.is_depth;
    resting = λ id a h.
        let r = s.resting id a h in
        record {
          seen = keeps id r.seen;
          on_side = r.on_side;
          is_limit = r.is_limit;
          priced = r.priced;
        };
  }

  -- The windows may see more.
  pub noted-IsBook :
      AreWindows ws → ((y : ℕ) → SeenIn b.order_id_windows y → SeenIn ws y) → IsBook m (noted b ws)
  noted-IsBook ok keeps = record {
    bids_ok = weaken_side _ buy b.bids keeps v.bids_ok;
    asks_ok = weaken_side _ sell b.asks keeps v.asks_ok;
    are_windows = ok;
  }

module _ {D Q : Type 0} ⦃d : Decimal D⦄ ⦃t : TreeMap (Key D) ℕ Q⦄ (x : IsExact D)
    (m : IsTreeMap t) where
  module _ (b : Book D Q) (v : IsBook m b) (o : Order D) (ok : IsValidOrder o) where
    pub side_is : ((taker_of o).side ≡ buy) ⊎ ((taker_of o).side ≡ sell)
    unfolding prepare
    side_is = ok.known_side

    unseen_absent :
        (c : Key D → Key D → Ordering) (side : Side) (e : Depth D Q)
        → IsSide m c side b.order_id_windows e
        → ¬ SeenIn b.order_id_windows o.id
        → lookup o.id e.orders ≡ none
    unseen_absent c side e s fresh = elim (Option-cases (lookup o.id e.orders)) [
      | inl q ↦ q
      | inr (a, q) ↦ absurd (fresh (s.resting o.id a q).seen)
    ]

    limit_priced : o.order_type ≡ limit → is_zero (taker_of o).price ≡ false
    unfolding prepare
    limit_priced e = ground (arith, e, ok.has_price e)

    -- What `ApplyOrder` does with an order: it ignores one that was seen, and executes any other.
    abbrev pub Applied : Type 0
    Applied =
        (SeenIn b.order_id_windows o.id × (apply_order b o ≡ some ([], b)))
        ⊎ ((¬ SeenIn b.order_id_windows o.id)
            × ((ws : List Window) × SeenIn ws o.id
                × ((y : ℕ) → SeenIn b.order_id_windows y → SeenIn ws y)
                × (r : Executed x m (noted b ws) (taker_of o)) × (apply_order b o
                    ≡ some (
                      logs_of b.product.id b.log_seq b.trade_seq r.fills ++ r.last ∷ [],
                      r.book,
                    ))))

    apply_admitted :
        (ws : List Window) → Admits b.order_id_windows v.are_windows o.id ok.small_id ws → Applied
    unfolding apply_order prepare
    apply_admitted ws a =
        let noted_ok = noted-IsBook m b v ws a.are_windows a.keeps in
        let may : MayRest m (noted b ws) (taker_of o) = record {
          not_bid = unseen_absent _ buy b.bids v.bids_ok a.fresh;
          not_ask = unseen_absent _ sell b.asks v.asks_ok a.fresh;
          seen = a.noted;
          priced = λ e. limit_priced e;
        } in
        let r =
          execute_total x m (noted b ws) noted_ok (taker_of o) may side_is (taker_measure o ok) in
        inr (a.fresh, (ws, a.noted, a.keeps, r, rw (a.admits, apply_order) r.executes))

    pub apply_order_lem : Applied
    unfolding apply_order
    apply_order_lem = elim (admit_lem b.order_id_windows v.are_windows o.id ok.small_id) [
      | inl (seen, e) ↦ inl (seen, rw (e, apply_order))
      | inr (ws, a) ↦ apply_admitted ws a
    ]
