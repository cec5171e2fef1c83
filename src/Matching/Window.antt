-- ===== src/Matching/Window.antt =====
-- matching/window.go: a bitmap over bytes, and the sliding window that rejects an order id it has
-- seen. Numbers are uint64 and wrap at `u64`. A run-time panic is `none` in the bitmap and
-- `out_of_range` in the window.
use cheetah_exchange.Prelude.{
  ℕ, zero, suc, ◌+◌, ◌-◌, ◌/◌, ◌%◌, ◌^◌, Bool, true, false, not, ◌||◌, Option, none, some, List, [],
  ◌∷◌, ltb, leb, ◌==◌, if◌then◌else◌, get_elem?, set, replicate,
}
use Prim.Native.Nat.{bit_and, bit_or}
pub mod Bitmap
pub mod Clear
pub mod Put
pub mod Seen

abbrev pub u64 : ℕ
u64 = 2 ^ 64

abbrev pub set_masks : List ℕ
set_masks = 1 ∷ 2 ∷ 4 ∷ 8 ∷ 16 ∷ 32 ∷ 64 ∷ 128 ∷ []

abbrev pub clear_masks : List ℕ
clear_masks = 254 ∷ 253 ∷ 251 ∷ 247 ∷ 239 ∷ 223 ∷ 191 ∷ 127 ∷ []

abbrev pub mask : List ℕ → ℕ → ℕ
mask ms i = elim (get_elem? ms i) [ none ↦ 0 | some m ↦ m ]

-- `b & tA[i] != 0`
pub get_bit : ℕ → ℕ → Bool
get_bit b i = not (bit_and b (mask set_masks i) == 0)

-- `b | tA[i]` or `b & tB[i]`
pub set_bit : ℕ → ℕ → Bool → ℕ
set_bit b i v = if v then bit_or b (mask set_masks i) else bit_and b (mask clear_masks i)

pub new_slice : ℕ → List ℕ
new_slice l = let remainder = if l % 8 == 0 then 0 else 1 in replicate (l / 8 + remainder) 0

pub get : List ℕ → ℕ → Option Bool
get m i = elim (get_elem? m (i / 8)) [ none ↦ none | some b ↦ some (get_bit b (i % 8)) ]

pub set_at : List ℕ → ℕ → Bool → Option (List ℕ)
set_at m i v = elim (get_elem? m (i / 8)) [
  | none ↦ none
  | some b ↦ some (set m (i / 8) (set_bit b (i % 8) v))
]

pub record Window : Type 0 where
  pub min : ℕ
  pub max : ℕ
  pub cap : ℕ
  pub bitmap : List ℕ

pub new_window : ℕ → ℕ → Window
new_window min max = record {
  min = min;
  max = max;
  cap = (max + u64 - min) % u64;
  bitmap = new_slice ((max + u64 - min) % u64);
}

pub data PutError : Type 0 where
  expired existed out_of_range : PutError

pub data PutResult : Type 0 where
  put_ok : Window → PutResult
  put_err : PutError → PutResult

-- `for i := from; …; i++ { Bitmap.Set(i % cap, false) }`, over the rounds that are left.
pub clear_from : ℕ → List ℕ → ℕ → ℕ → Option (List ℕ)
clear_from cap m from zero = some m
clear_from cap m from (suc rounds) = elim (set_at m (from % cap) false) [
  | none ↦ none
  | some m' ↦ clear_from cap m' (from + 1) rounds
]

-- Marks the value in the given bitmap, where the window's bounds are already those to return.
pub mark : Window → ℕ → Option (List ℕ) → PutResult
mark w val none = put_err out_of_range
mark w val (some m) = elim (set_at m (val % w.cap) true) [
  | none ↦ put_err out_of_range
  | some m' ↦ put_ok (record w { bitmap = m' })
]

-- The branch `val >= w.Max`: clear what is slid past, move both bounds, mark the value.
pub slide : Window → ℕ → PutResult
slide w val =
    let delta = (val + u64 - w.max + 1) % u64 in
    let range_delta = if ltb w.cap delta then w.cap else delta in
    let rounds = (w.min + range_delta) % u64 - w.min in
    let moved = record w { min = (w.min + delta) % u64; max = (w.max + delta) % u64 } in
    mark moved val (clear_from w.cap w.bitmap w.min rounds)

-- The branch `val < w.Max`.
pub fill : Window → ℕ → PutResult
fill w val = elim (get w.bitmap (val % w.cap)) [
  | none ↦ put_err out_of_range
  | some old ↦ if old then put_err existed else mark w val (some w.bitmap)
]

-- Integer division by zero panics too.
pub put : Window → ℕ → PutResult
put w val =
    if ltb val w.min
    then put_err expired
    else if w.cap == 0
    then put_err out_of_range
    else if leb w.max val
    then slide w val
    else fill w val

pub contains : Window → ℕ → Option Bool
contains w val =
    if ltb val w.min || leb w.max val
    then some false
    else if w.cap == 0
    then none
    else get w.bitmap (val % w.cap)
