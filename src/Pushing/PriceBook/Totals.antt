-- ===== src/Pushing/PriceBook/Totals.antt =====
-- How many orders of a Go map are on a side at a price, and the sum of their sizes: what a write and
-- a removal of an order do to both (pushing/order_book.go).
use cheetah_exchange.Prelude.{
  ℕ, ◌+◌, ◌<◌, ◌≡◌, refl, sym, ap, ◌∙◌, Bool, true, false, ◌&&◌, none, some, [], ◌∷◌, if◌then◌else◌,
  arith, ◌⊎◌, inl, inr, Ordering, ◌==◌, All, Bool-cases, some_inj, subst, ==→≡,
}
use cheetah_exchange.Prelude.Ids.{IdMap, lookup, insert, erase, IsMap}
use cheetah_exchange.Extern.Decimal.{Decimal, IsExact, is_positive, nought_add}
use cheetah_exchange.Models.{Side, same_side}
use cheetah_exchange.Matching.Log.{BookOrder}

module _ {D : Type 0} ⦃d : Decimal D⦄ (x : IsExact D) where
  pub add_positive :
      (a b : D) → is_positive a ≡ true → is_positive b ≡ true → is_positive (d.add a b) ≡ true
  add_positive a b h k =
      let above : d.cmp (d.add a b) b ≡ Ordering.gt =
        subst (λ (z : D). d.cmp (d.add a b) z ≡ Ordering.gt) (nought_add x b)
          (x.cmp_add a d.nought b ∙ ground (arith, h)) in
      ground (
        arith,
        above,
        k,
        x.cmp_flip (d.add a b) b,
        x.cmp_flip b d.nought,
        x.cmp_flip (d.add a b) d.nought,
        x.cmp_trans d.nought b (d.add a b),
      )

module _ {D : Type 0} ⦃d : Decimal D⦄ where
  abbrev pub is_at : Side → D → BookOrder D → Bool
  is_at side price o =
      same_side o.side side && elim (d.cmp price o.price) [ Ordering.eq ↦ true | _ ↦ false ]

  -- What an order counts for at a side and a price.
  abbrev pub part : Side → D → BookOrder D → D
  part side price o = if is_at side price o then o.size else d.nought

  abbrev pub one_at : Side → D → BookOrder D → ℕ
  one_at side price o = if is_at side price o then 1 else 0

  abbrev pub sum_at : Side → D → IdMap (BookOrder D) → D
  sum_at side price [] = d.nought
  sum_at side price ((id, o) ∷ os) = d.add (part side price o) (sum_at side price os)

  abbrev pub count_at : Side → D → IdMap (BookOrder D) → ℕ
  count_at side price [] = 0
  count_at side price ((id, o) ∷ os) = one_at side price o + count_at side price os

  pub erase_absent : (id : ℕ) (os : IdMap (BookOrder D)) → lookup id os ≡ none → erase id os ≡ os
  unfolding lookup erase
  erase_absent id [] h = refl
  erase_absent id ((k, o) ∷ os) h = ground (arith, erase_absent id os)

  module _ (side : Side) (price : D) where
    pub count_at-insert_new :
        (id : ℕ) (o : BookOrder D) (os : IdMap (BookOrder D))
        → lookup id os ≡ none
        → count_at side price (insert id o os) ≡ one_at side price o + count_at side price os
    unfolding lookup insert
    count_at-insert_new id o [] h = refl
    count_at-insert_new id o ((k, p) ∷ os) h = elim (Bool-cases (k == id)) [
      | inl here ↦ ground (arith, h, here)
      | inr away ↦
          rw (insert, away) (omega (arith, count_at-insert_new id o os (ground (arith, h, away))))
    ]

    pub count_at-insert :
        (id : ℕ) (o o' : BookOrder D) (os : IdMap (BookOrder D))
        → lookup id os ≡ some o
        → one_at side price o' + count_at side price os
          ≡ one_at side price o + count_at side price (insert id o' os)
    unfolding lookup insert
    count_at-insert id o o' [] h = cc
    count_at-insert id o o' ((k, p) ∷ os) h = elim (Bool-cases (k == id)) [
      | inl here ↦
          let same : p ≡ o = some_inj (ground (arith, h, here)) in
          rw (insert, here, sym same) (omega arith)
      | inr away ↦
          rw (insert, away) (omega (arith, count_at-insert id o o' os (ground (arith, h, away))))
    ]

    pub count_at-erase :
        (id : ℕ) (o : BookOrder D) (os : IdMap (BookOrder D))
        → IsMap os
        → lookup id os ≡ some o
        → count_at side price os ≡ one_at side price o + count_at side price (erase id os)
    unfolding lookup erase
    count_at-erase id o [] m h = cc
    count_at-erase id o ((k, p) ∷ os) m h = elim (Bool-cases (k == id)) [
      | inl here ↦
          let same : p ≡ o = some_inj (ground (arith, h, here)) in
          let absent : lookup id os ≡ none =
            subst (λ (z : ℕ). lookup z os ≡ none) (==→≡ k id here) m.0 in
          rw (here, sym same, erase_absent id os absent) refl
      | inr away ↦
          rw (erase, away) (omega (arith, count_at-erase id o os m.1 (ground (arith, h, away))))
    ]

  module _ (x : IsExact D) (side : Side) (price : D) where
    swap : (a b c : D) → d.add a (d.add b c) ≡ d.add b (d.add a c)
    swap a b c =
        sym (x.add_assoc a b c) ∙ ap (λ (z : D). d.add z c) (x.add_comm a b) ∙ x.add_assoc b a c

    pub sum_at-insert_new :
        (id : ℕ) (o : BookOrder D) (os : IdMap (BookOrder D))
        → lookup id os ≡ none
        → sum_at side price (insert id o os) ≡ d.add (part side price o) (sum_at side price os)
    unfolding lookup insert
    sum_at-insert_new id o [] h = refl
    sum_at-insert_new id o ((k, p) ∷ os) h = elim (Bool-cases (k == id)) [
      | inl here ↦ ground (arith, h, here)
      | inr away ↦
          rw (insert, away)
            (ap (d.add (part side price p)) (sum_at-insert_new id o os (ground (arith, h, away)))
              ∙ swap (part side price p) (part side price o) (sum_at side price os))
    ]

    pub sum_at-insert :
        (id : ℕ) (o o' : BookOrder D) (os : IdMap (BookOrder D))
        → lookup id os ≡ some o
        → d.add (part side price o') (sum_at side price os)
          ≡ d.add (part side price o) (sum_at side price (insert id o' os))
    unfolding lookup insert
    sum_at-insert id o o' [] h = cc
    sum_at-insert id o o' ((k, p) ∷ os) h = elim (Bool-cases (k == id)) [
      | inl here ↦
          let same : p ≡ o = some_inj (ground (arith, h, here)) in
          rw (insert, here, sym same)
            (swap (part side price o') (part side price p) (sum_at side price os))
      | inr away ↦
          rw (insert, away)
            (swap (part side price o') (part side price p) (sum_at side price os)
              ∙ ap (d.add (part side price p)) (sum_at-insert id o o' os (ground (arith, h, away)))
              ∙ swap (part side price p) (part side price o) _)
    ]

    pub sum_at-erase :
        (id : ℕ) (o : BookOrder D) (os : IdMap (BookOrder D))
        → IsMap os
        → lookup id os ≡ some o
        → sum_at side price os ≡ d.add (part side price o) (sum_at side price (erase id os))
    unfolding lookup erase
    sum_at-erase id o [] m h = cc
    sum_at-erase id o ((k, p) ∷ os) m h = elim (Bool-cases (k == id)) [
      | inl here ↦
          let same : p ≡ o = some_inj (ground (arith, h, here)) in
          let absent : lookup id os ≡ none =
            subst (λ (z : ℕ). lookup z os ≡ none) (==→≡ k id here) m.0 in
          rw (here, sym same, erase_absent id os absent) refl
      | inr away ↦
          rw (erase, away)
            (ap (d.add (part side price p)) (sum_at-erase id o os m.1 (ground (arith, h, away)))
              ∙ swap (part side price p) (part side price o) _)
    ]

    Signed : D → Type 0
    Signed z = is_positive z ≡ true

    -- Whether there is an order, and whether the sum is positive, go together.
    pub sum_sign :
        (os : IdMap (BookOrder D))
        → All (λ e. is_positive e.1.size ≡ true) os
        → ((count_at side price os ≡ 0) × (sum_at side price os ≡ d.nought))
          ⊎ ((0 < count_at side price os) × (is_positive (sum_at side price os) ≡ true))
    unfolding Signed
    sum_sign [] h = inl (refl, refl)
    sum_sign ((k, p) ∷ os) h = elim (Bool-cases (is_at side price p)) [
      | inr other ↦
          let same : sum_at side price ((k, p) ∷ os) ≡ sum_at side price os =
            rw (sum_at, other) (nought_add x _) in
          elim (sum_sign os h.1) [
            | inl (none_there, zero_sum) ↦ inl (rw (other, none_there) refl, same ∙ zero_sum)
            | inr (some_there, positive) ↦
                inr (rw other (omega (arith, some_there)), subst Signed (sym same) positive)
          ]
      | inl here ↦
          let sum : sum_at side price ((k, p) ∷ os) ≡ d.add p.size (sum_at side price os) =
            rw (sum_at, here) refl in
          inr (
            rw here (omega arith),
            subst Signed (sym sum) (elim (sum_sign os h.1) [
              | inl (none_there, zero_sum) ↦
                  subst Signed (sym (ap (d.add p.size) zero_sum ∙ x.add_nought p.size)) h.0
              | inr (some_there, positive) ↦ add_positive x p.size _ h.0 positive
            ]),
          )
    ]
