-- ===== src/Pushing/PriceBook/Alike.antt =====
-- Go maps of the orders of pushing/order_book.go that hold the same orders in another order: the
-- levels are the same.
use cheetah_exchange.Prelude.{
  ℕ, ◌≡◌, refl, sym, ap, subst, Option, none, some, [], ◌∷◌, arith, inl, inr, ◌==◌, Bool-cases,
  some_inj, ==→≡,
}
use cheetah_exchange.Prelude.Ids.{IdMap, lookup, erase, IsMap, lookup-erase, erase-IsMap}
use cheetah_exchange.Extern.Decimal.{Decimal, IsExact}
use cheetah_exchange.Models.{Side}
use cheetah_exchange.Matching.Log.{BookOrder}
use cheetah_exchange.Pushing.PriceBook.Totals.{
  part, one_at, sum_at, count_at, count_at-erase, sum_at-erase,
}

module _ {D : Type 0} where
  -- What the levels see of an order.
  abbrev pub shape : Option (BookOrder D) → Option (Side × D × D)
  shape none = none
  shape (some o) = some (o.side, o.price, o.size)

  abbrev pub Alike : IdMap (BookOrder D) → IdMap (BookOrder D) → Type 0
  Alike os os' = (id : ℕ) → shape (lookup id os) ≡ shape (lookup id os')

  pub shape_found :
      (o : BookOrder D) (r : Option (BookOrder D))
      → shape (some o) ≡ shape r
      → (o' : BookOrder D) × (r ≡ some o')
        × (o.side ≡ o'.side)
        × (o.price ≡ o'.price)
        × (o.size ≡ o'.size)
  shape_found o none e = absurd cc
  shape_found o (some o') e =
      let same = some_inj e in
      (
        o',
        refl,
        ap (λ (z : Side × D × D). z.0) same,
        ap (λ (z : Side × D × D). z.1) same,
        ap (λ (z : Side × D × D). z.2) same,
      )

  pub shape_missing : (r : Option (BookOrder D)) → none ≡ shape r → r ≡ none
  shape_missing none e = refl
  shape_missing (some o) e = absurd cc

  -- Two maps that are alike stay so without one id.
  rest-Alike :
      (id : ℕ) (o : BookOrder D) (os os' : IdMap (BookOrder D))
      → lookup id os ≡ none
      → Alike ((id, o) ∷ os) os'
      → Alike os (erase id os')
  unfolding lookup
  rest-Alike id o os os' fresh h j = elim (Bool-cases (id == j)) [
    | inl here ↦
        rw (lookup-erase id j os', here)
          (ap shape (subst (λ (i : ℕ). lookup i os ≡ none) (==→≡ id j here) fresh))
    | inr away ↦ rw (lookup-erase id j os', away) (ground (arith, h j, away))
  ]

module _ {D : Type 0} ⦃d : Decimal D⦄ (x : IsExact D) (side : Side) (p : D) where
  part_alike :
      (o o' : BookOrder D)
      → o.side ≡ o'.side
      → o.price ≡ o'.price
      → o.size ≡ o'.size
      → (part side p o ≡ part side p o') × (one_at side p o ≡ one_at side p o')
  part_alike o o' e f g = (rw (part, e, f, g) refl, rw (one_at, e, f) refl)

  -- Maps that are alike have the same levels, whatever the order of their entries.
  pub totals-Alike :
      (os os' : IdMap (BookOrder D))
      → IsMap os
      → IsMap os'
      → Alike os os'
      → (count_at side p os ≡ count_at side p os') × (sum_at side p os ≡ sum_at side p os')
  unfolding lookup
  totals-Alike [] [] m m' h = (refl, refl)
  totals-Alike [] ((k, o) ∷ os') m m' h = absurd (ground (arith, h k))
  totals-Alike ((k, o) ∷ os) os' m m' h =
      let (o', found, e, f, g) = shape_found o (lookup k os') (ground (arith, h k)) in
      let (parts, ones) = part_alike o o' e f g in
      let (counts, sums) =
        totals-Alike os (erase k os') m.1 (erase-IsMap k os' m') (rest-Alike k o os os' m.0 h) in
      (
        omega (arith, counts, ones, count_at-erase side p k o' os' m' found),
        rw (sum_at, sums, parts) (sym (sum_at-erase x side p k o' os' m' found)),
      )
