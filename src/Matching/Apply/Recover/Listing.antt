-- ===== src/Matching/Apply/Recover/Listing.antt =====
-- A list of orders read back into the sides of a book, as `Restore` of matching/order_book.go does:
-- each side gets its own orders, whatever their order in the list.
use cheetah_exchange.Prelude.{
  ℕ, ◌≡◌, refl, ap, ◌∙◌, sym, true, Option, none, some, List, [], ◌∷◌, map, if◌then◌else◌, arith,
  All, Ordering, ◌⊎◌, inl, inr,
}
use cheetah_exchange.Prelude.Ids.{IdMap, lookup, IsMap, lookup-insert}
use cheetah_exchange.Extern.Decimal.{Decimal, is_positive}
use cheetah_exchange.Extern.TreeMap.{TreeMap, IsTreeMap}
use cheetah_exchange.Extern.TreeMap.Sorted.{IsOrder}
use cheetah_exchange.Models.{Side, buy, sell, same_side}
use cheetah_exchange.Matching.Log.{BookOrder}
use cheetah_exchange.Matching.Depth.{Key, Depth, add_order}
use cheetah_exchange.Matching.Depth.Invariant.{IsDepth, add_order-IsDepth}
use cheetah_exchange.Matching.Book.{Book, with_depth, depth_of}
use cheetah_exchange.Matching.Apply.Recover.{restore_orders}

abbrev pub or_else : {A : Type 0} → Option A → Option A → Option A
or_else (some a) o = some a
or_else none o = o

module _ {D : Type 0} where
  abbrev pub of_side : Side → List (BookOrder D) → List (BookOrder D)
  of_side side [] = []
  of_side side (o ∷ os) =
      let rest = of_side side os in if same_side o.side side then o ∷ rest else rest

  abbrev pub by_id : List (BookOrder D) → IdMap (BookOrder D)
  by_id = map λ o. (o.order_id, o)

  abbrev pub HasDepth : BookOrder D → Type 0
  HasDepth o = (o.side ≡ buy) ⊎ (o.side ≡ sell)

module _ {D Q : Type 0} ⦃d : Decimal D⦄ ⦃t : TreeMap (Key D) ℕ Q⦄ where
  abbrev pub add_all : List (BookOrder D) → Depth D Q → Depth D Q
  add_all [] b = b
  add_all (o ∷ os) b = add_all os (add_order o b)

  -- One order of the list, by its side, and what the two sides become.
  abbrev added_all : BookOrder D → List (BookOrder D) → Book D Q → Side → Option (Book D Q)
  added_all o os b side = elim (depth_of side b) [
    | none ↦ none
    | some m ↦ restore_orders (with_depth side (add_order o m) b) os
  ]

  abbrev both : BookOrder D → List (BookOrder D) → Book D Q → Side → Option (Book D Q)
  both o os b side = some (record b {
    bids = add_all (if same_side side buy then o ∷ of_side buy os else of_side buy os) b.bids;
    asks = add_all (if same_side side sell then o ∷ of_side sell os else of_side sell os) b.asks;
  })

  -- Each order goes to its own side.
  pub restore_orders_lem :
      (os : List (BookOrder D)) (b : Book D Q)
      → All HasDepth os
      → restore_orders b os
        ≡ some (record b {
          bids = add_all (of_side buy os) b.bids;
          asks = add_all (of_side sell os) b.asks;
        })
  unfolding restore_orders
  restore_orders_lem [] b h = refl
  restore_orders_lem (o ∷ os) b h = elim h.0 [
    | inl e ↦
        ap (added_all o os b) e
        ∙ restore_orders_lem os (record b { bids = add_order o b.bids }) h.1
        ∙ ap (both o os b) (sym e)
    | inr e ↦
        ap (added_all o os b) e
        ∙ restore_orders_lem os (record b { asks = add_order o b.asks }) h.1
        ∙ ap (both o os b) (sym e)
  ]

  still_new :
      (o : BookOrder D) (b : Depth D Q) (os : List (BookOrder D))
      → lookup o.order_id (by_id os) ≡ none
      → All (λ a. lookup a.order_id b.orders ≡ none) os
      → All (λ a. lookup a.order_id (add_order o b).orders ≡ none) os
  unfolding lookup add_order
  still_new o b [] h f = tt
  still_new o b (a ∷ os) h f =
      ground
        (arith, lookup-insert o.order_id a.order_id o b.orders, still_new o b os (ground arith) f.1)

  module _ (m : IsTreeMap t) (c : Key D → Key D → Ordering) (r : IsOrder c) where
    -- A side that takes in orders with new ids.
    pub add_all_lem :
        (os : List (BookOrder D)) (b : Depth D Q)
        → IsDepth m c b
        → IsMap (by_id os)
        → All (λ o. lookup o.order_id b.orders ≡ none) os
        → All (λ o. is_positive o.size ≡ true) os
        → IsDepth m c (add_all os b)
          × ((id : ℕ)
              → lookup id (add_all os b).orders
                ≡ or_else (lookup id (by_id os)) (lookup id b.orders))
    unfolding lookup add_order
    add_all_lem [] b v s f p = (v, λ id. refl)
    add_all_lem (o ∷ os) b v s f p =
        let rest =
          add_all_lem os (add_order o b) (add_order-IsDepth m c r o b v f.0 p.0) s.1
            (still_new o b os s.0 f.1) p.1 in
        (rest.0, λ id. ground (arith, rest.1 id, s.0, f.0, lookup-insert o.order_id id o b.orders))
