-- ===== src/Matching/Log/Sequence.antt =====
-- Lists of matching/log.go records that are numbered without a gap.
use cheetah_exchange.Prelude.{ℕ, ◌≡◌, refl, List, [], ◌∷◌, ◌++◌}
use cheetah_exchange.Matching.Log.{Log, get_seq}
use cheetah_exchange.Matching.Book.{next_seq}

module _ {D : Type 0} where
  -- Each log has the number that follows the one before it, the first the one after `s`.
  abbrev pub Numbered : ℕ → List (Log D) → Type 0
  Numbered s [] = Unit
  Numbered s (l ∷ ls) = (get_seq l ≡ next_seq s) × Numbered (get_seq l) ls

  abbrev pub last_seq : ℕ → List (Log D) → ℕ
  last_seq s [] = s
  last_seq s (l ∷ ls) = last_seq (get_seq l) ls

  pub Numbered-append :
      (s : ℕ) (xs ys : List (Log D))
      → Numbered s xs
      → Numbered (last_seq s xs) ys
      → Numbered s (xs ++ ys)
  Numbered-append s [] ys h k = k
  Numbered-append s (l ∷ xs) ys h k = (h.0, Numbered-append (get_seq l) xs ys h.1 k)

  pub last_seq-append :
      (s : ℕ) (xs ys : List (Log D)) → last_seq s (xs ++ ys) ≡ last_seq (last_seq s xs) ys
  last_seq-append s [] ys = refl
  last_seq-append s (l ∷ xs) ys = last_seq-append (get_seq l) xs ys
