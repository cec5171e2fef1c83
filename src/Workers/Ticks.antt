-- ===== src/Workers/Ticks.antt =====
-- worker/tick_maker.go: the candles of each granularity; and `mergeTicks` of
-- pushing/ticker_stream.go.
use cheetah_exchange.Prelude.{
  ℕ, ◌*◌, ◌/◌, ◌≡◌, refl, subst, true, Option, none, some, List, [], ◌∷◌, arith, if◌then◌else◌,
  ◌==◌, inl, inr, Bool-cases, All, some_inj,
}
use cheetah_exchange.Prelude.Ids.{IdMap, lookup, insert, lookup-insert}
use cheetah_exchange.Extern.Decimal.{
  Decimal, IsExact, min_of, max_of, less_than_or_equal, cmp_trans_le,
}
use cheetah_exchange.Models.{Tick}
use cheetah_exchange.Matching.Log.{MatchLog}

abbrev pub minutes : List ℕ
minutes = 1 ∷ 3 ∷ 5 ∷ 15 ∷ 30 ∷ 60 ∷ 120 ∷ 240 ∷ 360 ∷ 720 ∷ 1440 ∷ []

-- The time of a log, in seconds, truncated to a number of minutes.
abbrev pub tick_time : ℕ → ℕ → ℕ
tick_time time granularity = time / (granularity * 60) * (granularity * 60)

module _ {D : Type 0} ⦃d : Decimal D⦄ where
  -- A candle begins with a trade.
  unfoldable pub new_tick : ℕ → ℕ → ℕ → MatchLog D → Tick D
  new_tick offset granularity time l = record {
    product_id = l.product_id;
    granularity = granularity;
    time = time;
    open_price = l.price;
    high = l.price;
    low = l.price;
    close = l.price;
    volume = l.size;
    quote_volume = d.mul l.price l.size;
    log_offset = offset;
    log_seq = l.sequence;
  }

  -- A candle takes in one more trade.
  unfoldable pub grow_tick : ℕ → MatchLog D → Tick D → Tick D
  grow_tick offset l k = record k {
    close = l.price;
    low = min_of k.low l.price;
    high = max_of k.high l.price;
    volume = d.add k.volume l.size;
    quote_volume = d.add k.quote_volume (d.mul l.price l.size);
    log_offset = offset;
    log_seq = l.sequence;
  }

  -- The candle of a granularity behind a trade.
  unfoldable pub next_tick : ℕ → ℕ → ℕ → MatchLog D → Option (Tick D) → Tick D
  unfolding new_tick grow_tick
  next_tick offset granularity time l none = new_tick offset granularity time l
  next_tick offset granularity time l (some k) =
      if k.time == time then grow_tick offset l k else new_tick offset granularity time l

  -- `OnMatchLog`, over the granularities that are left: the candles that are sent on.
  unfoldable pub make_ticks :
      ℕ → ℕ → MatchLog D → List ℕ → IdMap (Tick D) → List (Tick D) × IdMap (Tick D)
  unfolding next_tick
  make_ticks offset time l [] ticks = ([], ticks)
  make_ticks offset time l (g ∷ gs) ticks =
      let k = next_tick offset g (tick_time time g) l (lookup g ticks) in
      let (sent, ticks') = make_ticks offset time l gs (insert g k ticks) in (k ∷ sent, ticks')

  -- The body of the loop of `mergeTicks`, which takes the open and the close of each tick.
  abbrev pub merge_into : Tick D → Tick D → Tick D
  merge_into k tick = record k {
    open_price = tick.open_price;
    close = tick.close;
    low = min_of k.low tick.low;
    high = max_of k.high tick.high;
    volume = d.add k.volume tick.volume;
    quote_volume = d.add k.quote_volume tick.quote_volume;
  }

  -- `mergeTicks`, over the ticks from the last to the first.
  unfoldable pub merge_from : Option (Tick D) → List (Tick D) → Option (Tick D)
  merge_from k [] = k
  merge_from none (tick ∷ ticks) = merge_from (some tick) ticks
  merge_from (some k) (tick ∷ ticks) = merge_from (some (merge_into k tick)) ticks

  -- A candle is bounded by its low and its high.
  pub record IsTick (k : Tick D) : Type 0 where
    pub open_in :
        (less_than_or_equal k.low k.open_price ≡ true)
        × (less_than_or_equal k.open_price k.high ≡ true)
    pub close_in :
        (less_than_or_equal k.low k.close ≡ true) × (less_than_or_equal k.close k.high ≡ true)

  abbrev pub AreTicks : IdMap (Tick D) → Type 0
  AreTicks ticks = (g : ℕ) (k : Tick D) → lookup g ticks ≡ some k → IsTick k

module _ {D : Type 0} ⦃d : Decimal D⦄ (x : IsExact D) where
  min_left : (a b : D) → less_than_or_equal (min_of a b) a ≡ true
  min_left a b = ground (arith, x.cmp_self a)

  min_right : (a b : D) → less_than_or_equal (min_of a b) b ≡ true
  min_right a b = ground (arith, x.cmp_self b, x.cmp_flip a b)

  max_left : (a b : D) → less_than_or_equal a (max_of a b) ≡ true
  max_left a b = ground (arith, x.cmp_self a, x.cmp_flip a b)

  max_right : (a b : D) → less_than_or_equal b (max_of a b) ≡ true
  max_right a b = ground (arith, x.cmp_self b, x.cmp_flip a b)

  new_tick-IsTick : (offset g time : ℕ) (l : MatchLog D) → IsTick (new_tick offset g time l)
  unfolding new_tick
  new_tick-IsTick offset g time l =
      let at : less_than_or_equal l.price l.price ≡ true = ground (arith, x.cmp_self l.price) in
      record { open_in = (at, at); close_in = (at, at) }

  grow_tick-IsTick :
      (offset : ℕ) (l : MatchLog D) (k : Tick D) → IsTick k → IsTick (grow_tick offset l k)
  unfolding grow_tick
  grow_tick-IsTick offset l k i = record {
    open_in = (
      cmp_trans_le x (min_of k.low l.price) k.low k.open_price (min_left k.low l.price) i.open_in.0,
      cmp_trans_le x k.open_price k.high (max_of k.high l.price) i.open_in.1
          (max_left k.high l.price),
    );
    close_in = (min_right k.low l.price, max_right k.high l.price);
  }

  next_tick-IsTick :
      (offset g time : ℕ) (l : MatchLog D) (old : Option (Tick D))
      → ((k : Tick D) → old ≡ some k → IsTick k)
      → IsTick (next_tick offset g time l old)
  unfolding next_tick
  next_tick-IsTick offset g time l none h = new_tick-IsTick offset g time l
  next_tick-IsTick offset g time l (some k) h = elim (Bool-cases (k.time == time)) [
    | inl same ↦ rw (next_tick, same) (grow_tick-IsTick offset l k (h k refl))
    | inr other ↦ rw (next_tick, other) (new_tick-IsTick offset g time l)
  ]

  -- Every candle, of every granularity, is bounded by its low and its high behind any trade: those
  -- that are sent on and those that are kept.
  pub make_ticks-IsTick :
      (offset time : ℕ) (l : MatchLog D) (gs : List ℕ) (ticks : IdMap (Tick D))
      → AreTicks ticks
      → All (λ k. IsTick k) (make_ticks offset time l gs ticks).0
        × AreTicks (make_ticks offset time l gs ticks).1
  unfolding make_ticks
  make_ticks-IsTick offset time l [] ticks h = (tt, h)
  make_ticks-IsTick offset time l (g ∷ gs) ticks h =
      let k = next_tick offset g (tick_time time g) l (lookup g ticks) in
      let i = next_tick-IsTick offset g (tick_time time g) l (lookup g ticks) (λ z e. h g z e) in
      let rest = make_ticks-IsTick offset time l gs (insert g k ticks) (kept g k ticks h i) in
      ((i, rest.0), rest.1)
    where
      kept :
          (g : ℕ) (k : Tick D) (ticks : IdMap (Tick D))
          → AreTicks ticks
          → IsTick k
          → AreTicks (insert g k ticks)
      kept g k ticks h i j z e = elim (Bool-cases (g == j)) [
        | inl same ↦
            let found : some k ≡ some z = ground (arith, e, same, lookup-insert g j k ticks) in
            subst IsTick (some_inj found) i
        | inr other ↦ h j z (ground (arith, e, other, lookup-insert g j k ticks))
      ]
