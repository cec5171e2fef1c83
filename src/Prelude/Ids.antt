-- ===== src/Prelude/Ids.antt =====
-- Go maps with integer keys, as association lists: a read, a write and `delete`.
use Prim.Native.Nat.{ℕ}
use mathlib.Core.Path.{◌≡◌, refl}
use mathlib.Core.Option.{Option, none, some}
use mathlib.Core.List.{List, [], ◌∷◌}
use native.Mathlib.Omega.{arith}
use cheetah_exchange.Prelude.Lists.{All}
use cheetah_exchange.Prelude.Tests.{◌==◌, if◌then◌else◌}

abbrev pub IdMap {ℓ} : Type ℓ → Type ℓ
IdMap V = List (ℕ × V)

module _ {ℓ} {V : Type ℓ} where
  unfoldable pub lookup : ℕ → IdMap V → Option V
  lookup id [] = none
  lookup id ((key, value) ∷ others) = if key == id then some value else lookup id others

  -- `m[id] = value`, which keeps the entry's place when there is one.
  unfoldable pub insert : ℕ → V → IdMap V → IdMap V
  insert id value [] = (id, value) ∷ []
  insert id value ((key, old) ∷ others) =
      let rest = insert id value others in
      if key == id then (id, value) ∷ others else (key, old) ∷ rest

  -- Every entry under the key goes.
  unfoldable pub erase : ℕ → IdMap V → IdMap V
  erase id [] = []
  erase id ((key, value) ∷ others) =
      let rest = erase id others in if key == id then rest else (key, value) ∷ rest

  pub lookup-insert :
      (id other : ℕ) (value : V) (entries : IdMap V)
      → lookup other (insert id value entries)
        ≡ (if id == other then some value else lookup other entries)
  unfolding lookup insert
  lookup-insert id other value [] = refl
  lookup-insert id other value (entry ∷ entries) =
      ground (arith, lookup-insert id other value entries)

  pub lookup-erase :
      (id other : ℕ) (entries : IdMap V)
      → lookup other (erase id entries) ≡ (if id == other then none else lookup other entries)
  unfolding lookup erase
  lookup-erase id other [] = ground arith
  lookup-erase id other (entry ∷ entries) = ground (arith, lookup-erase id other entries)

  -- A Go map: one entry for each key.
  abbrev pub IsMap : IdMap V → Type ℓ
  IsMap [] = Unit
  IsMap ((key, value) ∷ others) = (lookup key others ≡ none) × IsMap others

  pub insert-IsMap :
      (id : ℕ) (value : V) (entries : IdMap V) → IsMap entries → IsMap (insert id value entries)
  unfolding insert lookup
  insert-IsMap id value [] h = (refl, tt)
  insert-IsMap id value ((key, old) ∷ others) h =
      ground (arith, lookup-insert id key value others, insert-IsMap id value others h.1)

  pub erase-IsMap : (id : ℕ) (entries : IdMap V) → IsMap entries → IsMap (erase id entries)
  unfolding erase
  erase-IsMap id [] h = tt
  erase-IsMap id ((key, value) ∷ others) h =
      ground (arith, lookup-erase id key others, erase-IsMap id others h.1)

  -- What holds of all that a map looks up holds of its entries.
  pub All-entries {κ} :
      (P : ℕ → V → Type κ) (entries : IdMap V)
      → IsMap entries
      → ((id : ℕ) (value : V) → lookup id entries ≡ some value → P id value)
      → All (λ e. P e.0 e.1) entries
  unfolding lookup
  All-entries P [] h p = tt
  All-entries P ((key, value) ∷ others) h p = (
    p key value (ground arith),
    All-entries P others h.1 (λ id v e. p id v (ground (arith, h.0))),
  )
