-- ===== src/Pushing/PriceBook/Moves.antt =====
-- What one order does to the levels (pushing/order_book.go): it counts for its own side and price, and
-- for no other.
use cheetah_exchange.Prelude.{
  ℕ, ◌≡◌, ◌≢◌, refl, sym, ap, subst, ◌∙◌, true, false, none, some, arith, ◌⊎◌, inl, inr, Ordering,
  Bool-cases,
}
use cheetah_exchange.Prelude.Ids.{IdMap, lookup, insert, erase, IsMap}
use cheetah_exchange.Extern.Decimal.{Decimal, IsExact, nought_add, sub_unique, sub_add}
use cheetah_exchange.Models.{Side, buy, sell, same_side}
use cheetah_exchange.Matching.Log.{BookOrder}
use cheetah_exchange.Pushing.PriceBook.Totals.{
  is_at, part, sum_at, count_at, count_at-insert_new, count_at-insert, count_at-erase,
  sum_at-insert_new, sum_at-insert, sum_at-erase,
}
use cheetah_exchange.Pushing.PriceBook.Sides.{level_at}

module _ {D : Type 0} ⦃d : Decimal D⦄ (x : IsExact D) where
  pub level_cong :
      (side : Side) (p : D) (os os' : IdMap (BookOrder D))
      → count_at side p os' ≡ count_at side p os
      → sum_at side p os' ≡ sum_at side p os
      → level_at side p os' ≡ level_at side p os
  level_cong side p os os' n s = rw (n, s) refl

  module _ (side : Side) (p : D) where
    pub part_away : (o : BookOrder D) → is_at side p o ≡ false → part side p o ≡ d.nought
    part_away o h = rw (part, h) refl

    pub part_here : (o : BookOrder D) → is_at side p o ≡ true → part side p o ≡ o.size
    part_here o h = rw (part, h) refl

  module _ (side : Side) (p : D) (id : ℕ) (o : BookOrder D) (os : IdMap (BookOrder D))
      (away : is_at side p o ≡ false) where
    pub away-insert_new :
        lookup id os ≡ none → level_at side p (insert id o os) ≡ level_at side p os
    away-insert_new h =
        level_cong side p os (insert id o os)
          (ground (arith, count_at-insert_new side p id o os h, away))
          (sum_at-insert_new x side p id o os h ∙ rw away (nought_add x _))

    pub away-insert :
        (o' : BookOrder D)
        → is_at side p o' ≡ false
        → lookup id os ≡ some o
        → level_at side p (insert id o' os) ≡ level_at side p os
    away-insert o' away' h =
        level_cong side p os (insert id o' os)
          (ground (arith, count_at-insert side p id o o' os h, away, away'))
          (sym (nought_add x _)
            ∙ ap (λ (z : D). d.add z (sum_at side p (insert id o' os)))
                (sym (part_away side p o away))
            ∙ sym (sum_at-insert x side p id o o' os h)
            ∙ ap (λ (z : D). d.add z (sum_at side p os)) (part_away side p o' away')
            ∙ nought_add x _)

    pub away-erase :
        IsMap os → lookup id os ≡ some o → level_at side p (erase id os) ≡ level_at side p os
    away-erase m h =
        level_cong side p os (erase id os) (ground (arith, count_at-erase side p id o os m h, away))
          (sym (sum_at-erase x side p id o os m h ∙ rw away (nought_add x _)))

  module _ (c : D → D → Ordering) (side : Side) (price : D)
      (same : (a b : D) → d.cmp a b ≡ Ordering.eq → c a b ≡ Ordering.eq) where
    -- An order at the price counts for no other price.
    pub is_at-other :
        (o : BookOrder D) (p : D)
        → o.price ≡ price
        → c p price ≢ Ordering.eq
        → is_at side p o ≡ false
    is_at-other o p e apart = elim (Bool-cases (is_at side p o)) [
      | inr away ↦ away
      | inl here ↦ absurd (
          apart
            (same p price (subst (λ (z : D). d.cmp p z ≡ Ordering.eq) e (ground (arith, here)))))
    ]

  pub is_at-own :
      (side : Side) (o : BookOrder D) (price : D)
      → (side ≡ buy) ⊎ (side ≡ sell)
      → o.side ≡ side
      → o.price ≡ price
      → is_at side price o ≡ true
  is_at-own side o price (inl b) on at = rw (on, b, at, x.cmp_self price) refl
  is_at-own side o price (inr b) on at = rw (on, b, at, x.cmp_self price) refl

  pub is_at-across :
      (side : Side) (o : BookOrder D) (p : D)
      → same_side o.side side ≡ false
      → is_at side p o ≡ false
  is_at-across side o p h = rw h refl

  -- The sum behind a write of another size, and behind a removal.
  pub sum_moved : (a size s s' : D) → d.add size s ≡ d.add a s' → d.sub s (d.sub a size) ≡ s'
  sum_moved a size s s' e =
      let left : d.add s' (d.sub a size) ≡ d.sub (d.add size s) size =
        sub_unique x (d.add size s) size (d.add s' (d.sub a size)) (
          x.add_assoc s' (d.sub a size) size
          ∙ ap (d.add s') (sub_add x a size)
          ∙ x.add_comm s' a
          ∙ sym e) in
      let right : s ≡ d.sub (d.add size s) size =
        sub_unique x (d.add size s) size s (x.add_comm s size) in
      sym (sub_unique x s (d.sub a size) s' (left ∙ sym right))

  pub sum_dropped :
      (a size s s' : D) → size ≡ d.nought → s ≡ d.add a s' → d.sub s (d.sub a size) ≡ s'
  sum_dropped a size s s' z e =
      sum_moved a size s s' (ap (λ (q : D). d.add q s) z ∙ nought_add x s ∙ e)
