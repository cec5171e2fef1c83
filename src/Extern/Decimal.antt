-- ===== src/Extern/Decimal.antt =====
-- The part of github.com/shopspring/decimal that the program uses. A value of `D` is a decimal up
-- to `Equal`: 1.0 and 1.00 are one value. `cmp` is `Cmp`; the comparisons are documented by it.
use cheetah_exchange.Prelude.{
  ℕ, ◌≡◌, sym, ap, ◌∙◌, Bool, true, false, Ordering, if◌then◌else◌, arith, ◌⊎◌, inl, inr,
  Bool-cases,
}

pub record Decimal (D : Type 0) : Type 0 where
  pub nought : D
  pub one : D
  pub add : D → D → D
  pub sub : D → D → D
  pub neg : D → D
  pub mul : D → D → D
  pub div : D → D → D
  pub mod_by : D → D → D
  pub truncate : D → ℕ → D
  pub round : D → ℕ → D
  pub max_float32 : D
  pub cmp : D → D → Ordering

abbrev pub flip : Ordering → Ordering
flip Ordering.lt = Ordering.gt
flip Ordering.eq = Ordering.eq
flip Ordering.gt = Ordering.lt

module _ {D : Type 0} ⦃d : Decimal D⦄ where
  open d use {nought, add, sub, neg, mul, cmp}

  abbrev pub less_than : D → D → Bool
  less_than a b = elim (cmp a b) [ Ordering.lt ↦ true | _ ↦ false ]

  abbrev pub greater_than : D → D → Bool
  greater_than a b = elim (cmp a b) [ Ordering.gt ↦ true | _ ↦ false ]

  abbrev pub less_than_or_equal : D → D → Bool
  less_than_or_equal a b = elim (cmp a b) [ Ordering.gt ↦ false | _ ↦ true ]

  abbrev pub greater_than_or_equal : D → D → Bool
  greater_than_or_equal a b = elim (cmp a b) [ Ordering.lt ↦ false | _ ↦ true ]

  abbrev pub is_zero : D → Bool
  is_zero a = elim (cmp a nought) [ Ordering.eq ↦ true | _ ↦ false ]

  abbrev pub is_positive : D → Bool
  is_positive a = greater_than a nought

  abbrev pub min_of : D → D → D
  min_of a b = if less_than b a then b else a

  abbrev pub max_of : D → D → D
  max_of a b = if greater_than b a then b else a

-- Decimals are exact: an ordered group under `Add`, with an order that `Mul` respects.
pub record IsExact (D : Type 0) ⦃d : Decimal D⦄ : Type 0 where
  pub cmp_eq : (a b : D) → d.cmp a b ≡ Ordering.eq → a ≡ b
  pub cmp_self : (a : D) → d.cmp a a ≡ Ordering.eq
  pub cmp_flip : (a b : D) → d.cmp b a ≡ flip (d.cmp a b)
  pub cmp_trans :
      (a b c : D) → d.cmp a b ≡ Ordering.lt → d.cmp b c ≡ Ordering.lt → d.cmp a c ≡ Ordering.lt
  pub add_comm : (a b : D) → d.add a b ≡ d.add b a
  pub add_assoc : (a b c : D) → d.add (d.add a b) c ≡ d.add a (d.add b c)
  pub add_nought : (a : D) → d.add a d.nought ≡ a
  pub add_neg : (a : D) → d.add a (d.neg a) ≡ d.nought
  pub sub_as_add : (a b : D) → d.sub a b ≡ d.add a (d.neg b)
  pub cmp_add : (a b c : D) → d.cmp (d.add a c) (d.add b c) ≡ d.cmp a b
  pub mul_nought : (a : D) → d.mul a d.nought ≡ d.nought
  pub mul_pos :
      (a b : D)
      → d.cmp d.nought a ≡ Ordering.lt
      → d.cmp d.nought b ≡ Ordering.lt
      → d.cmp d.nought (d.mul a b) ≡ Ordering.lt

module _ {D : Type 0} ⦃d : Decimal D⦄ (x : IsExact D) where
  open d use {nought, add, sub, neg, mul, cmp}

  pub sub_self : (a : D) → sub a a ≡ nought
  sub_self a = x.sub_as_add a a ∙ x.add_neg a

  pub nought_add : (a : D) → add nought a ≡ a
  nought_add a = x.add_comm nought a ∙ x.add_nought a

  neg_add : (b : D) → add (neg b) b ≡ nought
  neg_add b = x.add_comm (neg b) b ∙ x.add_neg b

  pub sub_add : (a b : D) → add (sub a b) b ≡ a
  sub_add a b = rw (x.sub_as_add a b, x.add_assoc a (neg b) b, neg_add b) (x.add_nought a)

  pub add_sub : (a b : D) → add b (sub a b) ≡ a
  add_sub a b = x.add_comm b (sub a b) ∙ sub_add a b

  pub sub_nought : (a : D) → sub a nought ≡ a
  sub_nought a = sym (x.add_nought (sub a nought)) ∙ sub_add a nought

  -- `a - b` is to zero as `a` is to `b`.
  pub cmp_sub : (a b : D) → cmp (sub a b) nought ≡ cmp a b
  cmp_sub a b = sym (x.cmp_add (sub a b) nought b) ∙ rw (sub_add a b, nought_add b)

  pub cmp_trans_le :
      (a b c : D)
      → less_than_or_equal a b ≡ true
      → less_than_or_equal b c ≡ true
      → less_than_or_equal a c ≡ true
  cmp_trans_le a b c h k = ground (arith, x.cmp_eq a b, x.cmp_eq b c, x.cmp_trans a b c)

  pub cmp_sub_le :
      (a b : D) → less_than_or_equal b a ≡ true → less_than_or_equal nought (sub a b) ≡ true
  cmp_sub_le a b h = ground (arith, cmp_sub a b, x.cmp_flip a b, x.cmp_flip (sub a b) nought)

  pub nought_sub : (a : D) → sub nought a ≡ neg a
  nought_sub a = x.sub_as_add nought a ∙ nought_add (neg a)

  -- `a - b` is what added to `b` gives `a`.
  pub sub_unique : (a b c : D) → add c b ≡ a → c ≡ sub a b
  sub_unique a b c e =
      sym (x.add_nought c)
      ∙ (ap (add c) (sym (x.add_neg b))
          ∙ (sym (x.add_assoc c b (neg b))
              ∙ (ap (λ (z : D). add z (neg b)) e ∙ sym (x.sub_as_add a b))))

  -- Taking away a sum takes away its parts.
  pub sub_add_both : (a b c : D) → add (sub a b) (neg c) ≡ sub a (add b c)
  sub_add_both a b c = sub_unique a (add b c) (add (sub a b) (neg c)) (
      ap (λ (z : D). add (add (sub a b) (neg c)) z) (x.add_comm b c)
      ∙ (x.add_assoc (sub a b) (neg c) (add c b)
          ∙ (ap (add (sub a b)) (
                sym (x.add_assoc (neg c) c b)
                ∙ (ap (λ (z : D). add z b) (neg_add c) ∙ nought_add b))
              ∙ sub_add a b)))

  -- What is not positive and not negative is zero.
  pub not_positive_zero : (a : D) → is_positive a ≡ false → less_than a nought ≡ false → a ≡ nought
  not_positive_zero a h k = x.cmp_eq a nought (ground arith)

  -- A share of a positive amount is positive or zero.
  pub share_cases :
      (a r : D)
      → is_positive a ≡ true
      → less_than r nought ≡ false
      → (is_positive (mul a r) ≡ true) ⊎ (mul a r ≡ nought)
  share_cases a r pos ok = elim (Bool-cases (is_positive r)) [
    | inl some_share ↦ inl (
        ground (
          arith,
          x.mul_pos a r (ground (arith, x.cmp_flip a nought)) (ground (arith, x.cmp_flip r nought)),
          x.cmp_flip nought (mul a r),
        ))
    | inr no_share ↦ inr (rw (not_positive_zero r no_share ok) (x.mul_nought a))
  ]
