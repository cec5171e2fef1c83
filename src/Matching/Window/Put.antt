-- ===== src/Matching/Window/Put.antt =====
-- `Window.put` on a well-formed window: what each branch does to the window's set of marks.
use native.Mathlib.Nat.{add-mod-mod, mod-lt, mod-le, add-mod_right}
use native.Mathlib.Decide.{dec_lt}
use cheetah_exchange.Prelude.{
  ℕ, ◌+◌, ◌-◌, ◌%◌, ◌≤◌, ◌<◌, ◌≡◌, ◌≢◌, Bool, true, false, ◌⊎◌, some, List, if◌then◌else◌, ltb, leb,
  arith, inl, inr, sym, ap, subst, ◌∙◌, ≢→==,
}
use cheetah_exchange.Matching.Window.{
  Window, u64, get, mark, slide, fill, put, put_ok, put_err, expired, existed, contains,
}
use cheetah_exchange.Matching.Window.Clear.{
  hit, hit_at, hit_not, Cleared, clear_total, mod-ne_within,
}
use cheetah_exchange.Matching.Window.Bitmap.{IsBitmap, Written, get_total, set_total}

-- What a window keeps: it spans `cap` ids, below the wrap of uint64, with a bit for each.
pub record IsWindow (w : Window) : Type 0 where
  pub positive : 0 < w.cap
  pub spans : w.max ≡ w.min + w.cap
  pub fits : w.max < u64
  pub is_bitmap : IsBitmap w.cap w.bitmap

-- What an accepted `put` promises: the value is marked, every other id that the window still
-- reaches is as it was, and the window only moves up, as far as the value needs.
pub record Accepted (w : Window) (val : ℕ) (w' : Window) : Type 0 where
  pub accepted : put w val ≡ put_ok w'
  pub is_window : IsWindow w'
  pub marked : contains w' val ≡ some true
  pub kept : (x : ℕ) → w'.min ≤ x → x ≢ val → contains w' x ≡ contains w x
  pub moved : w'.min ≡ (if leb w.max val then w.min + (val + 1 - w.max) else w.min)

-- The three ways in which `put` ends.
abbrev pub Outcome : Window → ℕ → Type 0
Outcome w val =
    ((val < w.min) × (put w val ≡ put_err expired))
    ⊎ ((contains w val ≡ some true) × (put w val ≡ put_err existed))
    ⊎ ((w.min ≤ val) × (contains w val ≡ some false) × ((w' : Window) × Accepted w val w'))

module _ (w : Window) (ok : IsWindow w) (val : ℕ) where
  contains_in : (x : ℕ) → w.min ≤ x → x < w.max → contains w x ≡ get w.bitmap (x % w.cap)
  unfolding contains
  contains_in x h k = ground (arith, ok.positive)

  fill_with :
      w.min ≤ val
      → val < w.max
      → get w.bitmap (val % w.cap) ≡ some false
      → (m : List ℕ) → Written w.cap w.bitmap (val % w.cap) true m
      → Accepted w val (record w { bitmap = m })
  unfolding put fill mark contains
  fill_with low high clear m wr = record {
    accepted = ground (arith, ok.positive, wr.written);
    is_window = record {
      positive = ok.positive;
      spans = ok.spans;
      fits = ok.fits;
      is_bitmap = wr.is_bitmap;
    };
    marked = ground (arith, ok.positive, wr.reads (val % w.cap) (mod-lt val ok.positive));
    kept = λ x h ne. ground (
      arith,
      ok.positive,
      ok.spans,
      wr.reads (x % w.cap) (mod-lt x ok.positive),
      mod-ne_within w.cap w.min x val,
    );
    moved = ground arith;
  }

  fill_total :
      w.min ≤ val
      → val < w.max
      → get w.bitmap (val % w.cap) ≡ some false
      → (w' : Window) × Accepted w val w'
  fill_total low high clear =
      let (m, wr) =
        set_total w.cap w.bitmap ok.is_bitmap (val % w.cap) (mod-lt val ok.positive) true in
      (record w { bitmap = m }, fill_with low high clear m wr)

  -- How far the bounds move, and how many marks are slid past.
  abbrev delta : ℕ
  delta = val + 1 - w.max

  abbrev range_delta : ℕ
  range_delta = if ltb w.cap delta then w.cap else delta

  reads_old :
      (m : List ℕ) (x : ℕ)
      → Cleared w.cap w.bitmap w.min range_delta m
      → w.min + delta ≤ x
      → x < w.max
      → get m (x % w.cap) ≡ contains w x
  reads_old m x c low high = rw (
    c.reads (x % w.cap) (mod-lt x ok.positive),
    hit_not w.cap w.min range_delta (x % w.cap) λ k lt.
        mod-ne_within w.cap w.min (w.min + k) x (omega arith) (ground (arith, ok.spans))
          (omega arith) (omega (arith, ok.spans)) (ground arith),
    contains_in x (omega arith) high,
  )

  reads_new :
      (m : List ℕ) (x : ℕ)
      → Cleared w.cap w.bitmap w.min range_delta m
      → w.max ≤ x
      → x ≤ val
      → get m (x % w.cap) ≡ some false
  reads_new m x c low high = rw (c.reads (x % w.cap) (mod-lt x ok.positive), is_hit)
    where
      k : ℕ
      k = (x - w.max) % w.cap

      same_place : (w.min + k) % w.cap ≡ x % w.cap
      same_place =
          let e : x ≡ w.min + (x - w.max) + w.cap = omega (arith, ok.spans) in
          add-mod-mod w.min (x - w.max) w.cap
          ∙ sym (ap (λ (t : ℕ). t % w.cap) e ∙ add-mod_right (w.min + (x - w.max)) w.cap)

      k_lt : k < range_delta
      k_lt = ground (arith, mod-lt (x - w.max) ok.positive, mod-le (x - w.max) w.cap)

      is_hit : hit w.cap w.min range_delta (x % w.cap) ≡ true
      is_hit =
          subst (λ (t : ℕ). hit w.cap w.min range_delta t ≡ true) same_place
            (hit_at w.cap w.min range_delta k k_lt)

  abbrev slid : List ℕ → Window
  slid m = record w { min = w.min + delta; max = val + 1; bitmap = m }

  slide-eq :
      (m m' : List ℕ)
      → w.max ≤ val
      → val + 1 < u64
      → Cleared w.cap w.bitmap w.min range_delta m
      → Written w.cap m (val % w.cap) true m'
      → put w val ≡ put_ok (slid m')
  unfolding put slide mark
  slide-eq m m' high small c wr =
      ground (arith, ok.positive, ok.spans, ok.fits, c.clears, wr.written)

  -- After the slide the window reads as before on what it still reaches.
  reads_kept :
      (m m' : List ℕ) (x : ℕ)
      → w.max ≤ val
      → Cleared w.cap w.bitmap w.min range_delta m
      → Written w.cap m (val % w.cap) true m'
      → w.min + delta ≤ x
      → x ≤ val
      → x ≢ val
      → get m' (x % w.cap) ≡ contains w x
  unfolding contains
  reads_kept m m' x high c wr low top ne =
      rw
        (
          wr.reads (x % w.cap) (mod-lt x ok.positive),
          ≢→== (val % w.cap) (x % w.cap) (λ q.
              mod-ne_within w.cap (w.min + delta) x val low (omega (arith, ok.spans))
                (omega (arith, ok.spans)) (omega (arith, ok.spans)) ne (sym q)),
        )
        (elim (dec_lt x w.max) [
          | yes p ↦ reads_old m x c low p
          | no p ↦ ground (arith, ok.spans, reads_new m x c)
        ])

  slide_with :
      (m m' : List ℕ)
      → w.max ≤ val
      → val + 1 < u64
      → Cleared w.cap w.bitmap w.min range_delta m
      → Written w.cap m (val % w.cap) true m'
      → Accepted w val (slid m')
  unfolding contains
  slide_with m m' high small c wr = record {
    accepted = slide-eq m m' high small c wr;
    is_window = record {
      positive = ok.positive;
      spans = omega (arith, ok.spans);
      fits = small;
      is_bitmap = wr.is_bitmap;
    };
    marked = ground (arith, ok.positive, ok.spans, wr.reads (val % w.cap) (mod-lt val ok.positive));
    kept = λ x low ne. ground (arith, ok.positive, ok.spans, reads_kept m m' x high c wr low);
    moved = ground arith;
  }

  slide_total : w.max ≤ val → val + 1 < u64 → (w' : Window) × Accepted w val w'
  slide_total high small =
      let (m, c) = clear_total w.cap w.bitmap w.min range_delta ok.positive ok.is_bitmap in
      let (m', wr) = set_total w.cap m c.is_bitmap (val % w.cap) (mod-lt val ok.positive) true in
      (slid m', slide_with m m' high small c wr)

  inside :
      val + 1 < u64
      → w.min ≤ val
      → val < w.max
      → (b : Bool) → get w.bitmap (val % w.cap) ≡ some b
      → Outcome w val
  unfolding put fill
  inside small low high true e =
      inr (inl (contains_in val low high ∙ e, ground (arith, ok.positive)))
  inside small low high false e =
      inr (inr (low, contains_in val low high ∙ e, fill_total low high e))

  outside : w.min ≤ val → w.max ≤ val → contains w val ≡ some false
  unfolding contains
  outside low high = ground arith

  -- On a well-formed window, for an id below the last uint64: an id below the window is refused as
  -- expired, and an id that the window holds as existing. Any other id is accepted: then it is
  -- marked, every other id that the window still reaches reads as before, and the bounds move up
  -- by just what the id needs. No branch panics.
  pub put_lem : val + 1 < u64 → Outcome w val
  unfolding put
  put_lem small = elim (dec_lt val w.min) [
    | yes low ↦ inl (low, ground arith)
    | no above ↦ elim (dec_lt val w.max) [
      | yes high ↦
          let (b, e) =
            get_total w.cap w.bitmap ok.is_bitmap (val % w.cap) (mod-lt val ok.positive) in
          inside small (omega arith) high b e
      | no over ↦
          inr (
            inr (omega arith, outside (omega arith) (omega arith), slide_total (omega arith) small))
    ]
  ]
