-- ===== src/Matching/Apply/Rest.antt =====
-- A taker that comes to rest behind the loop of `ApplyOrder` (matching/order_book.go): which makers
-- it has left, and at which prices.
use cheetah_exchange.Prelude.{
  ℕ, ◌≡◌, ◌≢◌, refl, sym, ap, subst, ◌∙◌, true, false, ◌&&◌, Option, some, List, map, arith,
  Ordering, ◌⊎◌, inl, inr, All, ◌==◌, Bool-cases,
}
use cheetah_exchange.Prelude.Ids.{lookup}
use cheetah_exchange.Extern.Decimal.{Decimal, IsExact, is_zero, is_positive}
use cheetah_exchange.Extern.TreeMap.{TreeMap, IsTreeMap}
use cheetah_exchange.Extern.TreeMap.Sorted.{IsOrder}
use cheetah_exchange.Models.{Product, Side, buy, sell, limit}
use cheetah_exchange.Matching.Log.{BookOrder}
use cheetah_exchange.Matching.Depth.{Key, Depth, compare_asc, compare_desc}
use cheetah_exchange.Matching.Depth.Order.{compare_asc-IsOrder, compare_desc-IsOrder}
use cheetah_exchange.Matching.Book.{Book, Trading, by_size, calc_trade_size}
use cheetah_exchange.Matching.Book.Invariant.{IsBook, IsSide}
use cheetah_exchange.Matching.Walk.{Fill, Listed, maker_left, found_after}
use cheetah_exchange.Matching.Walk.Queue.{InOrder}
use cheetah_exchange.Matching.Walk.Trades.{
  measure_of, Walks, Walks-SameOrder, ended, uncrossed, dry, used_up, goes_on,
}
use cheetah_exchange.Matching.Walk.Priority.{Served, Walks-Served, StopsAt}
use cheetah_exchange.Matching.Walk.Cover.{
  Among, Among-rest, found_after_filled, InOrder-suffix, head_first, Listed-all,
}
use cheetah_exchange.Matching.Apply.{is_limit}
use cheetah_exchange.Matching.Apply.Loop.{found_after-Origin}
use cheetah_exchange.Matching.Apply.Settle.{joined}
use cheetah_exchange.Matching.Apply.Execute.{Executed}
use cheetah_exchange.Matching.Apply.Serve.{makers_have_sizes}

module _ {D : Type 0} ⦃d : Decimal D⦄ (x : IsExact D) where
  nothing_traded :
      (a o : BookOrder D) (p : Product D) (g : Trading D)
      → measure_of a ≡ by_size
      → is_zero a.size ≡ true
      → calc_trade_size a o p ≡ some g
      → (is_zero g.size ≡ true) × (is_zero (g.taker).size ≡ true)
  unfolding calc_trade_size
  nothing_traded a o p g by z e = ground (arith, x.cmp_self d.nought)

  -- A taker without a size is left without one.
  Walks-zero :
      {p : Product D} {a b : BookOrder D} {os : List (BookOrder D)} {fs : List (Fill D)}
      → Walks p a os b fs
      → measure_of a ≡ by_size
      → is_zero a.size ≡ true
      → is_zero b.size ≡ true
  Walks-zero (ended a) by z = z
  Walks-zero (uncrossed n) by z = z
  Walks-zero {p} (dry {a = a} {o = o} {trading = g} cross e q) by z =
      (nothing_traded a o p g by z e).1
  Walks-zero {p} (used_up {a = a} {o = o} {trading = g} cross e q u) by z =
      (nothing_traded a o p g by z e).1
  Walks-zero {p} (goes_on {a = a} {o = o} {trading = g} cross e q u w) by z =
      absurd (cc (q, (nothing_traded a o p g by z e).0))

  positive_nonzero : (s : D) → is_positive s ≡ true → is_zero s ≡ false
  positive_nonzero s h = ground arith

  limit_by_size : (a : BookOrder D) → a.order_type ≡ limit → measure_of a ≡ by_size
  limit_by_size a e = ground arith

  named_limit : (a : BookOrder D) → is_limit a.order_type ≡ true → a.order_type ≡ limit
  named_limit a h = ground arith

  pub joined_cases :
      (a : BookOrder D) (j : ℕ) (old : Option (BookOrder D)) (o : BookOrder D)
      → joined true a j old ≡ some o
      → ((is_limit a.order_type && is_positive a.size ≡ true) × (o ≡ a)) ⊎ (old ≡ some o)
  joined_cases a j old o e =
      elim (Bool-cases ((is_limit a.order_type && is_positive a.size) && (a.order_id == j))) [
        | inl enters ↦ inl (ground (arith, enters), ground (arith, enters, e))
        | inr stays ↦ inr (ground (arith, stays, e))
      ]

  module _ {Q : Type 0} ⦃t : TreeMap (Key D) ℕ Q⦄ (m : IsTreeMap t) where
    -- What is left of a buyer is below the first ask that it does not cross, and so below each.
    pub below_asks :
        (price : D) (left_over : List (BookOrder D)) (p : BookOrder D)
        → StopsAt buy price left_over
        → InOrder m compare_asc (compare_asc-IsOrder x) left_over
        → Among p left_over
        → d.cmp price p.price ≡ Ordering.lt
    unfolding compare_asc
    below_asks price left_over p (inl e) h k = absurd (subst (Among p) e k)
    below_asks price left_over p (inr (o, rest, e, n)) h k =
        elim (head_first m compare_asc (compare_asc-IsOrder x) o p rest
          (subst (InOrder m compare_asc (compare_asc-IsOrder x)) e h) (subst (Among p) e k)) [
            | inl q ↦
                subst (λ (z : BookOrder D). d.cmp price z.price ≡ Ordering.lt) (sym q)
                  (ground (arith, n))
            | inr behind ↦
                ground
                  (arith, n, behind, x.cmp_eq o.price p.price, x.cmp_trans price o.price p.price)
          ]

    pub above_bids :
        (price : D) (left_over : List (BookOrder D)) (p : BookOrder D)
        → StopsAt sell price left_over
        → InOrder m compare_desc (compare_desc-IsOrder x) left_over
        → Among p left_over
        → d.cmp p.price price ≡ Ordering.lt
    unfolding compare_desc
    above_bids price left_over p (inl e) h k = absurd (subst (Among p) e k)
    above_bids price left_over p (inr (o, rest, e, n)) h k =
        elim (head_first m compare_desc (compare_desc-IsOrder x) o p rest
          (subst (InOrder m compare_desc (compare_desc-IsOrder x)) e h) (subst (Among p) e k)) [
            | inl q ↦
                subst (λ (z : BookOrder D). d.cmp z.price price ≡ Ordering.lt) (sym q)
                  (ground (arith, n, x.cmp_flip price o.price))
            | inr behind ↦ ground (
              arith,
              n,
              behind,
              x.cmp_flip price o.price,
              x.cmp_flip o.price p.price,
              x.cmp_eq o.price p.price,
              x.cmp_trans p.price o.price price,
            )
          ]

    module _ (b : Book D Q) (v : IsBook m b) (a : BookOrder D) where
      -- The taker has come to rest.
      pub record Rests (r : Executed x m b a) : Type 0 where
        pub by : measure_of a ≡ by_size
        pub served : Served a r.left r.orders r.fills
        pub filled : All (λ f. is_zero (maker_left f).size ≡ true) r.fills
        pub stopped : StopsAt a.side a.price served.left_over
        pub price : r.left.price ≡ a.price

      pub rests :
          (r : Executed x m b a)
          → is_limit r.left.order_type && is_positive r.left.size ≡ true
          → Rests r
      rests r stays =
          let s = Walks-SameOrder r.walks in
          let lim : a.order_type ≡ limit =
            sym s.order_type ∙ named_limit r.left (ground (arith, stays)) in
          let by = limit_by_size a lim in
          let some_left = positive_nonzero r.left.size (ground (arith, stays)) in
          let some_size : is_zero a.size ≡ false = elim (Bool-cases (is_zero a.size)) [
            | inl z ↦ absurd (cc (Walks-zero r.walks by z, some_left))
            | inr n ↦ n
          ] in
          let served =
            Walks-Served x r.walks by some_size
              (makers_have_sizes x m b v a.side r.orders r.held) in
          record {
            by = by;
            served = served;
            filled = served.filled some_left;
            stopped = served.stopped some_left;
            price = s.price;
          }

      -- Behind the trades the makers' side has nothing but orders of before, at their prices.
      pub same_price :
          (c : Key D → Key D → Ordering) (o : IsOrder c) (side : Side) (e : Depth D Q)
          (fs : List (Fill D)) (j : ℕ) (p : BookOrder D)
          → All (λ f. lookup (f.maker).order_id e.orders ≡ some f.maker) fs
          → found_after fs j (lookup j e.orders) ≡ some p
          → (p' : BookOrder D) × (lookup j e.orders ≡ some p') × (p.price ≡ p'.price)
      same_price c o side e fs j p held found =
          let (p', old, size, same) =
            found_after-Origin x m c o side b.order_id_windows e fs j (lookup j e.orders) held
              (λ z q. (z, q, z.size, refl)) p found in
          (p', old, ap (λ (z : BookOrder D). z.price) same)

      -- A maker that a resting taker has left is an order of its queue that it did not reach.
      pub left_maker :
          (c : Key D → Key D → Ordering) (o : IsOrder c) (side : Side) (e : Depth D Q)
          (r : Executed x m b a) (k : Rests r) (j : ℕ) (p : BookOrder D)
          → IsSide m c side b.order_id_windows e
          → Listed e (t.entries e.queue) r.orders
          → found_after r.fills j (lookup j e.orders) ≡ some p
          → Among p k.served.left_over
      left_maker c o side e r k j p s l found =
          let (old, apart) = found_after_filled r.fills j (lookup j e.orders) p k.filled found in
          Among-rest p r.fills k.served.left_over
            (subst (Among p) k.served.makers (Listed-all m c o e r.orders j p s.is_depth l old))
            (subst (λ (i : ℕ). All (λ f. (f.maker).order_id ≢ i) r.fills)
              (sym (s.is_depth.keyed j p old)) apart)

      pub left-InOrder :
          (c : Key D → Key D → Ordering) (o : IsOrder c) (r : Executed x m b a) (k : Rests r)
          → InOrder m c o r.orders
          → InOrder m c o k.served.left_over
      left-InOrder c o r k h =
          InOrder-suffix m c o (map (λ f. f.maker) r.fills) k.served.left_over
            (subst (InOrder m c o) k.served.makers h)
