-- ===== src/Matching/Window/Seen.antt =====
-- The window of matching/window.go as a filter of repeated ids.
use native.Mathlib.Nat.{mod-lt}
use native.Mathlib.Decide.{dec_lt}
use cheetah_exchange.Prelude.{
  ℕ, ◌+◌, ◌-◌, ◌%◌, ◌≤◌, ◌<◌, ◌≡◌, refl, ◌≢◌, true, false, ◌⊎◌, ◌↔◌, some, List, [], ◌∷◌, arith,
  inl, inr, All, subst, sym, ◌∙◌,
}
use cheetah_exchange.Matching.Window.{
  Window, u64, put, PutResult, PutError, put_ok, put_err, expired, existed, contains, new_window,
}
use cheetah_exchange.Matching.Window.Bitmap.{get-new_slice, new_slice-IsBitmap}
use cheetah_exchange.Matching.Window.Put.{IsWindow, Accepted, Outcome, put_lem}

-- Ids that a window refuses: those that it has left behind, and those that it holds.
abbrev pub Seen : Window → ℕ → Type 0
Seen w x = (x < w.min) ⊎ (contains w x ≡ some true)

put_ok-injective : {v w : Window} → put_ok v ≡ put_ok w → v ≡ w
put_ok-injective e = cc

-- A window that accepts an id is the one that `Accepted` describes.
pub put_ok-Accepted :
    (w w' : Window) (val : ℕ)
    → IsWindow w
    → val + 1 < u64
    → put w val ≡ put_ok w'
    → (w.min ≤ val) × (contains w val ≡ some false) × Accepted w val w'
put_ok-Accepted w w' val ok small e = go (put_lem w ok val small)
  where
    go : Outcome w val → (w.min ≤ val) × (contains w val ≡ some false) × Accepted w val w'
    go (inl (low, r)) = cc
    go (inr (inl (held, r))) = cc
    go (inr (inr (low, clear, (w₁, a)))) =
        (low, clear, subst (Accepted w val) (put_ok-injective (sym a.accepted ∙ e)) a)

module _ (w w' : Window) (val : ℕ) (ok : IsWindow w) (small : val + 1 < u64) where
  -- An id that is accepted was not seen before, is seen afterwards, and nothing is forgotten.
  pub put_sees :
      put w val ≡ put_ok w'
      → (¬ Seen w val) × Seen w' val × ((x : ℕ) → Seen w x → Seen w' x) × IsWindow w'
  put_sees e =
      let (low, clear, a) = put_ok-Accepted w w' val ok small e in
      (unseen low clear, inr a.marked, λ x s. keeps a clear x s, a.is_window)
    where
      keeps : Accepted w val w' → contains w val ≡ some false → (x : ℕ) → Seen w x → Seen w' x
      keeps a clear x s = elim (dec_lt x w'.min) [
        | yes low ↦ inl low
        | no up ↦ inr (held (omega arith) s)
      ]
        where
          held : w'.min ≤ x → Seen w x → contains w' x ≡ some true
          held up (inl low) = absurd (ground (arith, a.moved))
          held up (inr h) = a.kept x up (λ q. ground arith) ∙ h

      unseen : w.min ≤ val → contains w val ≡ some false → ¬ Seen w val
      unseen low clear (inl h) = omega arith
      unseen low clear (inr h) = cc

  -- An id that was seen is refused.
  pub put-Seen : Seen w val → (put w val ≡ put_err expired) ⊎ (put w val ≡ put_err existed)
  put-Seen s = go s (put_lem w ok val small)
    where
      go :
          Seen w val → Outcome w val → (put w val ≡ put_err expired) ⊎ (put w val ≡ put_err existed)
      go s (inl (low, r)) = inl r
      go s (inr (inl (held, r))) = inr r
      go (inl h) (inr (inr (low, clear, _))) = absurd (omega arith)
      go (inr h) (inr (inr (low, clear, _))) = absurd (cc)

module _ (min max : ℕ) (h : min < max) (k : max < u64) where
  cap_eq : (max + u64 - min) % u64 ≡ max - min
  cap_eq = omega arith

  new_window-IsWindow : IsWindow (new_window min max)
  unfolding new_window
  new_window-IsWindow = rw cap_eq (record {
    positive = omega arith;
    spans = omega arith;
    fits = k;
    is_bitmap = new_slice-IsBitmap (max - min);
  })

  contains-new_window : (x : ℕ) → contains (new_window min max) x ≡ some false
  unfolding new_window contains
  contains-new_window x =
      rw cap_eq
        (ground (arith, get-new_slice (max - min) (x % (max - min)) (mod-lt x (omega arith))))

  -- A new window is well formed and has seen only the ids below it.
  pub new_window_lem :
      IsWindow (new_window min max) × ((x : ℕ) → Seen (new_window min max) x ↔ (x < min))
  unfolding new_window
  new_window_lem = (new_window-IsWindow, λ x. (low x, λ p. inl p))
    where
      low : (x : ℕ) → Seen (new_window min max) x → x < min
      low x (inl p) = p
      low x (inr p) = absurd (cc (contains-new_window x))

-- The ids that a run of `put` calls accepts, in order; a refused id leaves the window as it was.
unfoldable pub accept_all : Window → List ℕ → List ℕ
accept_all w [] = []
accept_all w (x ∷ xs) = elim (put w x) [
  | put_ok w' ↦ x ∷ accept_all w' xs
  | put_err e ↦ accept_all w xs
]

abbrev pub Distinct : List ℕ → Type 0
Distinct [] = Unit
Distinct (x ∷ xs) = All (λ y. y ≢ x) xs × Distinct xs

PutResult-cases :
    (r : PutResult) → ((w : Window) × (r ≡ put_ok w)) ⊎ ((e : PutError) × (r ≡ put_err e))
PutResult-cases (put_ok w) = inl (w, refl)
PutResult-cases (put_err e) = inr (e, refl)

All-weaken : {P Q : ℕ → Type 0} (xs : List ℕ) → ((x : ℕ) → P x → Q x) → All P xs → All Q xs
All-weaken [] f h = tt
All-weaken (x ∷ xs) f h = (f x h.0, All-weaken xs f h.1)

accept_all-fresh :
    (w : Window) (xs : List ℕ)
    → IsWindow w
    → All (λ x. x + 1 < u64) xs
    → All (λ x. ¬ Seen w x) (accept_all w xs) × Distinct (accept_all w xs)
unfolding accept_all
accept_all-fresh w [] ok small = (tt, tt)
accept_all-fresh w (x ∷ xs) ok small = elim (PutResult-cases (put w x)) [
  | inl (w', e) ↦
      let (unseen, seen, keeps, ok') = put_sees w w' x ok small.0 e in
      let rest = accept_all-fresh w' xs ok' small.1 in
      rw (e, accept_all)
        (
          (unseen, All-weaken (accept_all w' xs) (λ y n s. n (keeps y s)) rest.0),
          (
            All-weaken (accept_all w' xs) (λ y n q. n (subst (Seen w') (sym q) seen)) rest.0,
            rest.1,
          ),
        )
  | inr (err, e) ↦ rw (e, accept_all) (accept_all-fresh w xs ok small.1)
]

-- No id is accepted twice in any run of `put` calls, from a well-formed window, over ids below the
-- last uint64, and none that the window has seen at the start is accepted at all.
pub accept_all_once :
    (w : Window) (xs : List ℕ)
    → IsWindow w
    → All (λ x. x + 1 < u64) xs
    → Distinct (accept_all w xs) × All (λ x. ¬ Seen w x) (accept_all w xs)
accept_all_once w xs ok small = let (a, b) = accept_all-fresh w xs ok small in (b, a)
