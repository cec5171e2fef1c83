-- ===== src/Pushing/PriceBook/Sums.antt =====
-- The price levels of pushing/order_book.go: each is the number and the sum of the orders that are
-- shown on its side at its price.
use cheetah_exchange.Prelude.{
  ℕ, ◌+◌, ◌-◌, ◌<◌, ◌≡◌, ◌≢◌, refl, sym, ap, subst, ◌∙◌, true, false, none, some, arith, inl, inr,
  Ordering, ◌==◌, All, Bool-cases, some_inj,
}
use cheetah_exchange.Prelude.Ids.{
  IdMap, lookup, insert, erase, IsMap, lookup-insert, lookup-erase, insert-IsMap, erase-IsMap,
  All-entries,
}
use cheetah_exchange.Extern.Decimal.{Decimal, IsExact, is_positive, is_zero}
use cheetah_exchange.Extern.TreeMap.{TreeMap, IsTreeMap}
use cheetah_exchange.Extern.TreeMap.Sorted.{IsOrder}
use cheetah_exchange.Models.{Side}
use cheetah_exchange.Matching.Log.{BookOrder}
use cheetah_exchange.Pushing.PriceBook.{PriceLevel, grow_level, shrink_level}
use cheetah_exchange.Pushing.PriceBook.Totals.{
  is_at, part, sum_at, count_at, sum_sign, count_at-insert_new, count_at-insert, count_at-erase,
  sum_at-insert_new, sum_at-insert, sum_at-erase,
}
use cheetah_exchange.Pushing.PriceBook.Sides.{
  level_at, AllPositive, Every, AreLevels, put-AreLevels, remove-AreLevels,
}
use cheetah_exchange.Pushing.PriceBook.Moves.{
  away-insert_new, away-insert, away-erase, is_at-other, sum_moved, sum_dropped, part_here,
}

module _ {D : Type 0} ⦃d : Decimal D⦄ where
  a_level :
      (side : Side) (price s : D) (n : ℕ) (os : IdMap (BookOrder D))
      → 0 < n
      → count_at side price os ≡ n
      → sum_at side price os ≡ s
      → level_at side price os ≡ some (record { price = price; size = s; order_count = n })
  a_level side price s n os pos en es = rw (level_at, en, es) (ground (arith, pos))

  no_level :
      (side : Side) (price : D) (os : IdMap (BookOrder D))
      → count_at side price os ≡ 0
      → level_at side price os ≡ none
  no_level side price os e = rw (level_at, e) refl

  module _ (P : BookOrder D → Type 0) where
    pub insert-Every :
        (id : ℕ) (o : BookOrder D) (os : IdMap (BookOrder D))
        → P o
        → Every P os
        → Every P (insert id o os)
    insert-Every id o os own h j p e = elim (Bool-cases (id == j)) [
      | inl here ↦
          let found : some o ≡ some p = ground (arith, e, here, lookup-insert id j o os) in
          subst P (some_inj found) own
      | inr away ↦ h j p (ground (arith, e, away, lookup-insert id j o os))
    ]

    pub erase-Every : (id : ℕ) (os : IdMap (BookOrder D)) → Every P os → Every P (erase id os)
    erase-Every id os h j p e = elim (Bool-cases (id == j)) [
      | inl here ↦ absurd (ground (arith, e, here, lookup-erase id j os))
      | inr away ↦ h j p (ground (arith, e, away, lookup-erase id j os))
    ]

  abbrev pub HasSize : BookOrder D → Type 0
  HasSize o = is_positive o.size ≡ true

  pub all_positive :
      (os : IdMap (BookOrder D))
      → IsMap os
      → AllPositive os
      → All (λ e. is_positive e.1.size ≡ true) os
  all_positive os single h = All-entries (λ _ o. is_positive o.size ≡ true) os single h

module _ {D L : Type 0} ⦃d : Decimal D⦄ ⦃t : TreeMap D (PriceLevel D) L⦄ (x : IsExact D)
    (m : IsTreeMap t) (c : D → D → Ordering) (r : IsOrder c)
    (same : (a b : D) → d.cmp a b ≡ Ordering.eq → c a b ≡ Ordering.eq) (side : Side)
    (os : IdMap (BookOrder D)) (levels : L) (single : IsMap os) (positive : AllPositive os)
    (v : AreLevels m c side os levels) (price : D) (id : ℕ) where
  -- The level that the price has, if there is an order.
  found_level :
      0 < count_at side price os
      → t.get price levels
        ≡ some (record {
          price = price;
          size = sum_at side price os;
          order_count = count_at side price os;
        })
  found_level some_there = v.shows price ∙ a_level side price _ _ os some_there refl refl

  -- A new order: the level of its price begins or grows.
  pub grow-AreLevels :
      (o : BookOrder D)
      → lookup id os ≡ none
      → o.price ≡ price
      → is_at side price o ≡ true
      → AreLevels m c side (insert id o os) (grow_level price o.size levels).1
  unfolding grow_level
  grow-AreLevels o fresh at own =
      let n' = count_at-insert_new side price id o os fresh in
      let s' = sum_at-insert_new x side price id o os fresh in
      let others : (p : D)
          → c p price ≢ Ordering.eq
          → level_at side p (insert id o os) ≡ level_at side p os =
        λ p apart.
          away-insert_new x side p id o os (is_at-other x c side price same o p at apart) fresh in
      elim (sum_sign x side price os (all_positive os single positive)) [
        | inl (zero, nothing) ↦
            let gone : t.get price levels ≡ none = v.shows price ∙ rw (level_at, zero) refl in
            rw (grow_level, gone)
              (put-AreLevels m c r side os (insert id o os) levels v price _
                (a_level side price o.size 1 _ (omega arith) (ground (arith, n', zero, own))
                  (s' ∙ rw (part, own, nothing) (x.add_nought o.size)))
                others)
        | inr (some_there, more) ↦
            rw (grow_level, found_level some_there)
              (put-AreLevels m c r side os (insert id o os) levels v price _
                (a_level side price _ _ _ (omega arith) (ground (arith, n', own))
                  (s' ∙ rw (part, own) (x.add_comm o.size (sum_at side price os))))
                others)
      ]

  -- A known order of another size, or gone: the level of its price has become smaller, or goes.
  pub shrink-AreLevels :
      (o : BookOrder D) (size : D)
      → lookup id os ≡ some o
      → o.price ≡ price
      → is_at side price o ≡ true
      → is_zero size ≡ false
      → is_positive size ≡ true
      → let os' = insert id (record o { size = size }) os in
        (level : PriceLevel D) × (levels' : L) × (shrink_level price
            (d.sub o.size size)
            false
            levels
          ≡ some (level, levels'))
        × AreLevels m c side os' levels'
  unfolding shrink_level
  shrink-AreLevels o size found at own more above =
      let o' : BookOrder D = record o { size = size } in
      let os' = insert id o' os in
      let n' : count_at side price os' ≡ count_at side price os =
        ground (arith, count_at-insert side price id o o' os found, own) in
      let s' : d.sub (sum_at side price os) (d.sub o.size size) ≡ sum_at side price os' =
        sum_moved x o.size size (sum_at side price os) (sum_at side price os') (
          ap (λ (z : D). d.add z (sum_at side price os)) (sym (part_here x side price o' own))
          ∙ sum_at-insert x side price id o o' os found
          ∙ ap (λ (z : D). d.add z (sum_at side price os')) (part_here x side price o own)) in
      let filled : 0 < count_at side price os =
        ground (arith, count_at-erase side price id o os single found, own) in
      let others : (p : D) → c p price ≢ Ordering.eq → level_at side p os' ≡ level_at side p os =
        λ p apart.
          away-insert x side p id o os (is_at-other x c side price same o p at apart) o'
            (is_at-other x c side price same o' p at apart) found in
      elim (sum_sign x side price os' (
        all_positive os' (insert-IsMap id o' os single)
          (insert-Every HasSize id o' os above positive))) [
            | inl (zero, nothing) ↦ absurd (omega (arith, zero, n', filled))
            | inr (some_there, sum_above) ↦
                let level : PriceLevel D = record {
                  price = price;
                  size = sum_at side price os';
                  order_count = count_at side price os;
                } in
                let some_left : is_zero (sum_at side price os') ≡ false =
                  ground (arith, sum_above) in
                (
                  level,
                  t.put price level levels,
                  rw (shrink_level, found_level filled, s', some_left) refl,
                  put-AreLevels m c r side os os' levels v price level
                      (a_level side price _ _ os' filled n' refl) others,
                )
          ]

  pub erase-AreLevels :
      (o : BookOrder D) (size : D)
      → lookup id os ≡ some o
      → o.price ≡ price
      → is_at side price o ≡ true
      → is_zero size ≡ true
      → let os' = erase id os in
        (level : PriceLevel D) × (levels' : L) × (shrink_level price (d.sub o.size size) true levels
          ≡ some (level, levels'))
        × AreLevels m c side os' levels'
  unfolding shrink_level
  erase-AreLevels o size found at own none_left =
      let os' = erase id os in
      let n' : count_at side price os ≡ 1 + count_at side price os' =
        ground (arith, count_at-erase side price id o os single found, own) in
      let s' : d.sub (sum_at side price os) (d.sub o.size size) ≡ sum_at side price os' =
        sum_dropped x o.size size (sum_at side price os) (sum_at side price os')
          (x.cmp_eq size d.nought (ground (arith, none_left)))
          (sum_at-erase x side price id o os single found
            ∙ ap (λ (z : D). d.add z (sum_at side price os')) (part_here x side price o own)) in
      let filled : 0 < count_at side price os = omega (arith, n') in
      let others : (p : D) → c p price ≢ Ordering.eq → level_at side p os' ≡ level_at side p os =
        λ p apart.
          away-erase x side p id o os (is_at-other x c side price same o p at apart) single found in
      elim (sum_sign x side price os'
        (all_positive os' (erase-IsMap id os single) (erase-Every HasSize id os positive))) [
          | inl (zero, nothing) ↦
              let no_sum : is_zero (sum_at side price os') ≡ true =
                ground (arith, nothing, x.cmp_self d.nought) in
              (
                record {
                  price = price;
                  size = sum_at side price os';
                  order_count = count_at side price os;
                },
                t.remove price levels,
                rw (shrink_level, found_level filled, s', no_sum) refl,
                remove-AreLevels m c r side os os' levels v price (no_level side price os' zero)
                    others,
              )
          | inr (some_there, sum_above) ↦
              let level : PriceLevel D = record {
                price = price;
                size = sum_at side price os';
                order_count = count_at side price os - 1;
              } in
              let some_left : is_zero (sum_at side price os') ≡ false = ground (arith, sum_above) in
              (
                level,
                t.put price level levels,
                rw (shrink_level, found_level filled, s', some_left) refl,
                put-AreLevels m c r side os os' levels v price level
                    (a_level side price _ _ os' (omega (arith, n', some_there)) (omega (arith, n'))
                      refl)
                    others,
              )
        ]
