-- ===== src/Matching/Window/Bitmap.antt =====
-- The bitmap of matching/window.go: a write is read back, and leaves every other bit alone.
use native.Mathlib.Decide.{ℕ_discrete}
use cheetah_exchange.Prelude.{
  ℕ, zero, suc, ◌+◌, ◌*◌, ◌/◌, ◌%◌, ◌≤◌, ◌<◌, ◌≡◌, refl, Bool, true, false, not, ◌&&◌, some, List,
  if◌then◌else◌, ◌==◌, ltb, arith, length, get_elem?, set, All, get_elem?-total, get_elem?-set_self,
  get_elem?-set_ne, length-set, All-get_elem?, All-set, length-replicate, All-replicate, ap,
  get_elem?-replicate,
}
use cheetah_exchange.Matching.Window.{get_bit, set_bit, get, set_at, new_slice}

same : Bool → Bool → Bool
same true b = b
same false b = not b

same→≡ : (a b : Bool) → same a b ≡ true → a ≡ b
unfolding same
same→≡ true b h = ground arith
same→≡ false b h = ground arith

-- The test at `from`, `from + 1` and so on, `count` times.
every : (ℕ → Bool) → (from count : ℕ) → Bool
every test from zero = true
every test from (suc count) = let rest = every test (suc from) count in test from && rest

every-at :
    (test : ℕ → Bool) (from count at : ℕ)
    → every test from count ≡ true
    → from ≤ at
    → at < from + count
    → test at ≡ true
unfolding every
every-at test from zero at h low high = absurd (omega arith)
every-at test from (suc count) at h low high = elim (ℕ_discrete from at) [
  | yes here ↦ rw (← here) (ground arith)
  | no later ↦ every-at test (suc from) count at (ground arith) (ground arith) (omega arith)
]

every_below :
    (test : ℕ → Bool) (count at : ℕ) → every test 0 count ≡ true → at < count → test at ≡ true
every_below test count at h high = every-at test 0 count at h (omega arith) (omega arith)

-- What one write into a byte should do, at one byte and two bit positions.
bit_works : Bool → ℕ → ℕ → ℕ → Bool
bit_works v b i j = same (get_bit (set_bit b i v) j) (if i == j then v else get_bit b j)

byte_works : Bool → ℕ → ℕ → Bool
byte_works v b i = ltb (set_bit b i v) 256 && every (bit_works v b i) 0 8

bytes_work : Bool → ℕ → Bool
bytes_work v b = every (byte_works v b) 0 8

set_table : every (bytes_work true) 0 256 ≡ true
unfolding every bytes_work byte_works bit_works same get_bit set_bit
set_table = refl

clear_table : every (bytes_work false) 0 256 ≡ true
unfolding every bytes_work byte_works bit_works same get_bit set_bit
clear_table = refl

bytes_work_all : (v : Bool) (b : ℕ) → b < 256 → bytes_work v b ≡ true
bytes_work_all true b h = every_below _ 256 b set_table h
bytes_work_all false b h = every_below _ 256 b clear_table h

byte_works_all : (v : Bool) (b i : ℕ) → b < 256 → i < 8 → byte_works v b i ≡ true
unfolding bytes_work
byte_works_all v b i h k = every_below _ 8 i (bytes_work_all v b h) k

set_bit-lt : (v : Bool) (b i : ℕ) → b < 256 → i < 8 → set_bit b i v < 256
unfolding byte_works
set_bit-lt v b i h k = ground (arith, byte_works_all v b i h k)

get_bit-set_bit :
    (v : Bool) (b i j : ℕ)
    → b < 256
    → i < 8
    → j < 8
    → get_bit (set_bit b i v) j ≡ (if i == j then v else get_bit b j)
unfolding byte_works bit_works
get_bit-set_bit v b i j h k l =
    same→≡ _ _ (every_below (bit_works v b i) 8 j (ground (arith, byte_works_all v b i h k)) l)

-- A bitmap of whole bytes with room for `cap` bits.
pub record IsBitmap (cap : ℕ) (m : List ℕ) : Type 0 where
  pub room : cap ≤ 8 * length m
  pub in_bytes : All (λ b. b < 256) m

-- The result of writing bit `i` of a bitmap.
pub record Written (cap : ℕ) (m : List ℕ) (i : ℕ) (v : Bool) (m' : List ℕ) : Type 0 where
  pub written : set_at m i v ≡ some m'
  pub is_bitmap : IsBitmap cap m'
  pub reads : (j : ℕ) → j < cap → get m' j ≡ (if i == j then some v else get m j)

module _ (cap : ℕ) (m : List ℕ) (ok : IsBitmap cap m) (i : ℕ) (lt : i < cap) where
  abbrev ByteAt : Type 0
  ByteAt = (b : ℕ) × (get_elem? m (i / 8) ≡ some b) × (b < 256)

  byte_at : ByteAt
  byte_at =
      let (b, e) = get_elem?-total m (i / 8) (omega (arith, ok.room)) in
      (b, e, All-get_elem? (λ b. b < 256) m (i / 8) b ok.in_bytes e)

  get_at : ByteAt → (v : Bool) × (get m i ≡ some v)
  unfolding get
  get_at (b, e, h) = (get_bit b (i % 8), rw (e, get))

  -- Every bit below the capacity can be read.
  pub get_total : (v : Bool) × (get m i ≡ some v)
  get_total = get_at byte_at

  get-set :
      (v : Bool) (b j : ℕ)
      → get_elem? m (i / 8) ≡ some b
      → b < 256
      → get (set m (i / 8) (set_bit b (i % 8) v)) j ≡ (if i == j then some v else get m j)
  unfolding get
  get-set v b j e h = elim (ℕ_discrete (i / 8) (j / 8)) [
    | yes near ↦
        rw
          (
            ← near,
            get_elem?-set_self m (i / 8) (set_bit b (i % 8) v) (omega (arith, ok.room)),
            get_bit-set_bit v b (i % 8) (j % 8) h (omega arith) (omega arith),
            e,
            get,
          )
          (ground arith)
    | no far ↦
        rw (get_elem?-set_ne m (i / 8) (j / 8) (set_bit b (i % 8) v) far, get)
          (ground (arith, λ (q : i ≡ j). far (omega arith)))
  ]

  set_to : (v : Bool) → ByteAt → (m' : List ℕ) × Written cap m i v m'
  unfolding set_at
  set_to v (b, e, h) = (
    set m (i / 8) (set_bit b (i % 8) v),
    record {
      written = rw (e, set_at);
      is_bitmap = record {
        room = omega (arith, ok.room, length-set m (i / 8) (set_bit b (i % 8) v));
        in_bytes =
            All-set (λ b. b < 256) m (i / 8) (set_bit b (i % 8) v) ok.in_bytes
              (set_bit-lt v b (i % 8) h (omega arith));
      };
      reads = λ j _. get-set v b j e h;
    },
  )

  -- A write below the capacity succeeds; it is read back, and no other bit changes.
  pub set_total : (v : Bool) → (m' : List ℕ) × Written cap m i v m'
  set_total v = set_to v byte_at

-- `NewSlice(l)` has a byte for the last, partial group of bits too.
slice_bytes : ℕ → ℕ
slice_bytes l = l / 8 + (if l % 8 == 0 then 0 else 1)

slice_room : (l : ℕ) → l ≤ 8 * slice_bytes l
unfolding slice_bytes
slice_room l = ground arith

pub new_slice-IsBitmap : (l : ℕ) → IsBitmap l (new_slice l)
unfolding new_slice slice_bytes
new_slice-IsBitmap l = record {
  room = omega (arith, slice_room l, length-replicate {A = ℕ} (slice_bytes l) 0);
  in_bytes = All-replicate (λ b. b < 256) (slice_bytes l) 0 (omega arith);
}

empty_table : every (λ j. not (get_bit 0 j)) 0 8 ≡ true
unfolding every get_bit
empty_table = refl

not-true : (b : Bool) → not b ≡ true → b ≡ false
not-true b h = ground arith

-- Every bit of a new bitmap is clear.
pub get-new_slice : (l i : ℕ) → i < l → get (new_slice l) i ≡ some false
unfolding new_slice slice_bytes get
get-new_slice l i h =
    rw (get_elem?-replicate {A = ℕ} (slice_bytes l) (i / 8) 0 (omega (arith, slice_room l)), get)
      (ap some
        (not-true _ (every_below (λ j. not (get_bit 0 j)) 8 (i % 8) empty_table (omega arith))))
