-- ===== src/Matching/Window/Clear.antt =====
-- The clearing loop of `Window.put` in matching/window.go, and remainders of nearby numbers.
use native.Mathlib.Nat.{div-add-mod, mod-lt, mul-le-mul_left, add-zero}
use native.Mathlib.Decide.{dec_lt}
use mathlib.Core.Bool.{or-true}
use cheetah_exchange.Prelude.{
  ℕ, zero, suc, ◌+◌, ◌/◌, ◌%◌, ◌≤◌, ◌<◌, ◌≡◌, refl, ◌≢◌, Bool, true, false, ◌||◌, some, List,
  if◌then◌else◌, ◌==◌, arith, sym, ==_refl, ≢→==,
}
use cheetah_exchange.Matching.Window.{get, clear_from}
use cheetah_exchange.Matching.Window.Bitmap.{IsBitmap, set_total}

-- Two numbers less than `c` apart have different remainders.
pub mod-ne : (c x y : ℕ) → x < y → y < x + c → x % c ≢ y % c
mod-ne c x y h k e = elim (dec_lt (x / c) (y / c)) [
  | yes p ↦ omega (arith, div-add-mod x c, div-add-mod y c, mul-le-mul_left c p)
  | no p ↦ omega (arith, div-add-mod x c, div-add-mod y c, mul-le-mul_left c (le_of_not_lt _ _ p))
]
  where
    le_of_not_lt : (a b : ℕ) → ¬ (a < b) → b ≤ a
    le_of_not_lt a b h = omega arith

-- Whether one of the numbers `from`, …, `from + rounds - 1` has the remainder `j`.
pub hit : ℕ → ℕ → ℕ → ℕ → Bool
hit cap from zero j = false
hit cap from (suc rounds) j = from % cap == j || hit cap (from + 1) rounds j

pub hit_at : (cap from rounds k : ℕ) → k < rounds → hit cap from rounds ((from + k) % cap) ≡ true
unfolding hit
hit_at cap from zero k h = elim h [ ]
hit_at cap from (suc rounds) zero h = simp (add-zero, ==_refl)
hit_at cap from (suc rounds) (suc k) h =
    let e : from + suc k ≡ from + 1 + k = omega arith in
    rw (e, hit_at cap (from + 1) rounds k (omega arith)) (or-true _)

pub hit_not :
    (cap from rounds j : ℕ)
    → ((k : ℕ) → k < rounds → (from + k) % cap ≢ j)
    → hit cap from rounds j ≡ false
unfolding hit
hit_not cap from zero j h = refl
hit_not cap from (suc rounds) j h =
    let here : from % cap ≢ j = λ e. h 0 (omega arith) (rw add-zero e) in
    let later : (k : ℕ) → k < rounds → (from + 1 + k) % cap ≢ j =
      λ k lt e. h (suc k) (omega arith) (rw (shift k) e) in
    rw (≢→== _ _ here, hit_not cap (from + 1) rounds j later)
  where
    shift : (k : ℕ) → from + suc k ≡ from + 1 + k
    shift k = omega arith

-- The clearing loop ends without a panic, and clears just the bits that it walks over.
pub record Cleared (cap : ℕ) (m : List ℕ) (from rounds : ℕ) (m' : List ℕ) : Type 0 where
  pub clears : clear_from cap m from rounds ≡ some m'
  pub is_bitmap : IsBitmap cap m'
  pub reads : (j : ℕ) → j < cap → get m' j ≡ (if hit cap from rounds j then some false else get m j)

pub clear_total :
    (cap : ℕ) (m : List ℕ) (from rounds : ℕ)
    → 0 < cap
    → IsBitmap cap m
    → (m' : List ℕ) × Cleared cap m from rounds m'
unfolding clear_from hit
clear_total cap m from zero pos ok =
    (m, record { clears = refl; is_bitmap = ok; reads = λ j _. refl })
clear_total cap m from (suc rounds) pos ok =
    let (m₁, w) = set_total cap m ok (from % cap) (mod-lt from pos) false in
    let (m₂, c) = clear_total cap m₁ (from + 1) rounds pos w.is_bitmap in
    (
      m₂,
      record {
        clears = rw (w.written, clear_from) c.clears;
        is_bitmap = c.is_bitmap;
        reads = λ j lt. ground (arith, c.reads j lt, w.reads j lt);
      },
    )

pub mod-ne_within :
    (c lo x y : ℕ) → lo ≤ x → x < lo + c → lo ≤ y → y < lo + c → x ≢ y → x % c ≢ y % c
mod-ne_within c lo x y a b d e ne = elim (dec_lt x y) [
  | yes p ↦ mod-ne c x y p (omega arith)
  | no p ↦ λ q. mod-ne c y x (omega arith) (omega arith) (sym q)
]
