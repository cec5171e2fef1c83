-- ===== src/Matching/Apply/Uncrossed.antt =====
-- The book of matching/order_book.go never stays crossed: what `ApplyOrder` leaves on one side is not
-- at a price at which it could trade with the other side.
use cheetah_exchange.Prelude.{
  ℕ, ◌≡◌, sym, ap, subst, ◌∙◌, some, arith, Ordering, ◌⊎◌, inl, inr, All,
}
use cheetah_exchange.Prelude.Ids.{lookup}
use cheetah_exchange.Extern.Decimal.{Decimal, IsExact}
use cheetah_exchange.Extern.TreeMap.{TreeMap, IsTreeMap}
use cheetah_exchange.Models.{Side, buy, sell}
use cheetah_exchange.Matching.Log.{BookOrder}
use cheetah_exchange.Matching.Depth.{Key, compare_asc, compare_desc}
use cheetah_exchange.Matching.Depth.Order.{compare_asc-IsOrder, compare_desc-IsOrder}
use cheetah_exchange.Matching.Book.{Book, makers_of}
use cheetah_exchange.Matching.Book.Invariant.{IsBook}
use cheetah_exchange.Matching.Walk.{Listed, found_after}
use cheetah_exchange.Matching.Walk.Queue.{InOrder}
use cheetah_exchange.Matching.Walk.Priority.{StopsAt}
use cheetah_exchange.Matching.Apply.Rest.{
  rests, same_price, left_maker, left-InOrder, below_asks, above_bids, joined_cases,
}
use cheetah_exchange.Matching.Apply.Loop.{Walks-All}
use cheetah_exchange.Matching.Apply.Execute.{Executed, makers_order, makers_order-IsOrder}

module _ {D Q : Type 0} ⦃d : Decimal D⦄ where
  -- Every bid is below every ask.
  abbrev pub IsUncrossed : Book D Q → Type 0
  IsUncrossed b =
      (i j : ℕ) (o p : BookOrder D)
      → lookup i b.bids.orders ≡ some o
      → lookup j b.asks.orders ≡ some p
      → d.cmp o.price p.price ≡ Ordering.lt

module _ {D Q : Type 0} ⦃d : Decimal D⦄ ⦃t : TreeMap (Key D) ℕ Q⦄ (x : IsExact D)
    (m : IsTreeMap t) where
  module _ (b : Book D Q) (v : IsBook m b) (a : BookOrder D) where
    execute_buy-IsUncrossed :
        (r : Executed x m b a) → a.side ≡ buy → IsUncrossed b → IsUncrossed r.book
    unfolding makers_order-IsOrder
    execute_buy-IsUncrossed r on u i j o p bid ask =
        let now : found_after r.fills j (lookup j b.asks.orders) ≡ some p =
          ground (arith, on, ask, r.asks_found j) in
        let held =
          subst
            (λ (z : Side). All (λ q. lookup q.order_id (makers_of z b).orders ≡ some q) r.orders) on
            r.held in
        let listed =
          subst (λ (z : Side). Listed (makers_of z b) (t.entries (makers_of z b).queue) r.orders) on
            r.listed in
        let in_order =
          subst (λ (z : Side). InOrder m (makers_order z) (makers_order-IsOrder x m z) r.orders) on
            r.in_order in
        elim (joined_cases x r.left i (lookup i b.bids.orders) o
          (ground (arith, on, bid, r.bids_found i))) [
            | inl (stays, same) ↦
                let k = rests x m b v a r stays in
                subst (λ (z : D). d.cmp z p.price ≡ Ordering.lt)
                  (sym k.price ∙ sym (ap (λ (z : BookOrder D). z.price) same))
                  (below_asks x m a.price k.served.left_over p
                    (subst (λ (z : Side). StopsAt z a.price k.served.left_over) on k.stopped)
                    (left-InOrder x m b v a compare_asc (compare_asc-IsOrder x) r k in_order)
                    (left_maker x m b v a compare_asc (compare_asc-IsOrder x) sell b.asks r k j p
                      v.asks_ok listed now))
            | inr old ↦
                let (p', was, price) =
                  same_price x m b v a compare_asc (compare_asc-IsOrder x) sell b.asks r.fills j p
                    (Walks-All x m compare_asc (compare_asc-IsOrder x) sell b.order_id_windows
                      (λ q. lookup q.order_id b.asks.orders ≡ some q) r.walks held)
                    now in
                subst (λ (z : D). d.cmp o.price z ≡ Ordering.lt) (sym price) (u i j o p' old was)
          ]

    execute_sell-IsUncrossed :
        (r : Executed x m b a) → a.side ≡ sell → IsUncrossed b → IsUncrossed r.book
    unfolding makers_order-IsOrder
    execute_sell-IsUncrossed r on u i j o p bid ask =
        let now : found_after r.fills i (lookup i b.bids.orders) ≡ some o =
          ground (arith, on, bid, r.bids_found i) in
        let held =
          subst
            (λ (z : Side). All (λ q. lookup q.order_id (makers_of z b).orders ≡ some q) r.orders) on
            r.held in
        let listed =
          subst (λ (z : Side). Listed (makers_of z b) (t.entries (makers_of z b).queue) r.orders) on
            r.listed in
        let in_order =
          subst (λ (z : Side). InOrder m (makers_order z) (makers_order-IsOrder x m z) r.orders) on
            r.in_order in
        elim (joined_cases x r.left j (lookup j b.asks.orders) p
          (ground (arith, on, ask, r.asks_found j))) [
            | inl (stays, same) ↦
                let k = rests x m b v a r stays in
                subst (λ (z : D). d.cmp o.price z ≡ Ordering.lt)
                  (sym k.price ∙ sym (ap (λ (z : BookOrder D). z.price) same))
                  (above_bids x m a.price k.served.left_over o
                    (subst (λ (z : Side). StopsAt z a.price k.served.left_over) on k.stopped)
                    (left-InOrder x m b v a compare_desc (compare_desc-IsOrder x) r k in_order)
                    (left_maker x m b v a compare_desc (compare_desc-IsOrder x) buy b.bids r k i o
                      v.bids_ok listed now))
            | inr old ↦
                let (o', was, price) =
                  same_price x m b v a compare_desc (compare_desc-IsOrder x) buy b.bids r.fills i o
                    (Walks-All x m compare_desc (compare_desc-IsOrder x) buy b.order_id_windows
                      (λ q. lookup q.order_id b.bids.orders ≡ some q) r.walks held)
                    now in
                subst (λ (z : D). d.cmp z p.price ≡ Ordering.lt) (sym price) (u i j o' p was old)
          ]

    -- A taker of a known side leaves a book uncrossed that was so before.
    pub execute-IsUncrossed :
        (r : Executed x m b a)
        → (a.side ≡ buy) ⊎ (a.side ≡ sell)
        → IsUncrossed b
        → IsUncrossed r.book
    execute-IsUncrossed r (inl on) u = execute_buy-IsUncrossed r on u
    execute-IsUncrossed r (inr on) u = execute_sell-IsUncrossed r on u
