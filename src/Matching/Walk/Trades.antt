-- ===== src/Matching/Walk/Trades.antt =====
-- What the trades of one taker come to, in matching/order_book.go: sizes, prices and priority.
use cheetah_exchange.Prelude.{
  ◌≡◌, refl, sym, subst, ◌∙◌, true, false, none, some, List, [], ◌∷◌, arith, some_inj, ◌⊎◌, inl,
  inr, Option-cases, Bool-cases, All,
}
use cheetah_exchange.Extern.Decimal.{Decimal, IsExact, is_zero, min_of, nought_add, add_sub}
use cheetah_exchange.Models.{Product, Side}
use cheetah_exchange.Matching.Log.{BookOrder}
use cheetah_exchange.Matching.Book.{
  Trading, Measure, by_size, measure, prices_cross, calc_trade_size, exhausted,
}
use cheetah_exchange.Matching.Walk.{Fill, walk}

module _ {D : Type 0} ⦃d : Decimal D⦄ where
  abbrev pub measure_of : BookOrder D → Measure
  measure_of o = measure o.order_type o.side

  -- Trading changes nothing of a taker but its size and its funds.
  pub record SameOrder (a b : BookOrder D) : Type 0 where
    pub order_id : b.order_id ≡ a.order_id
    pub user_id : b.user_id ≡ a.user_id
    pub price : b.price ≡ a.price
    pub side : b.side ≡ a.side
    pub order_type : b.order_type ≡ a.order_type
    pub time_in_force : b.time_in_force ≡ a.time_in_force

  SameOrder-refl : (a : BookOrder D) → SameOrder a a
  SameOrder-refl a = record {
    order_id = refl;
    user_id = refl;
    price = refl;
    side = refl;
    order_type = refl;
    time_in_force = refl;
  }

  SameOrder-trans : {a b e : BookOrder D} → SameOrder a b → SameOrder b e → SameOrder a e
  SameOrder-trans s r = record {
    order_id = r.order_id ∙ s.order_id;
    user_id = r.user_id ∙ s.user_id;
    price = r.price ∙ s.price;
    side = r.side ∙ s.side;
    order_type = r.order_type ∙ s.order_type;
    time_in_force = r.time_in_force ∙ s.time_in_force;
  }

  pub calc_trade_size-SameOrder :
      (a o : BookOrder D) (p : Product D) (trading : Trading D)
      → calc_trade_size a o p ≡ some trading
      → SameOrder a trading.taker
  unfolding calc_trade_size
  calc_trade_size-SameOrder a o p trading e = record {
    order_id = ground arith;
    user_id = ground arith;
    price = ground arith;
    side = ground arith;
    order_type = ground arith;
    time_in_force = ground arith;
  }

  abbrev pub fill_by : BookOrder D → Trading D → Fill D
  fill_by o trading = record { taker = trading.taker; maker = o; size = trading.size }

  -- The rounds of the loop, as a relation: how it ends, and what it does before.
  pub data Walks (p : Product D)
      : BookOrder D → List (BookOrder D) → BookOrder D → List (Fill D) → Type 0 where
    ended : (a : BookOrder D) → Walks p a [] a []
    uncrossed :
        {a o : BookOrder D} {os : List (BookOrder D)}
        → prices_cross a.side a.price o.price ≡ false
        → Walks p a (o ∷ os) a []
    dry :
        {a o : BookOrder D} {os : List (BookOrder D)} {trading : Trading D}
        → prices_cross a.side a.price o.price ≡ true
        → calc_trade_size a o p ≡ some trading
        → is_zero trading.size ≡ true
        → Walks p a (o ∷ os) trading.taker []
    used_up :
        {a o : BookOrder D} {os : List (BookOrder D)} {trading : Trading D}
        → prices_cross a.side a.price o.price ≡ true
        → calc_trade_size a o p ≡ some trading
        → is_zero trading.size ≡ false
        → exhausted trading.taker ≡ true
        → Walks p a (o ∷ os) trading.taker (fill_by o trading ∷ [])
    goes_on :
        {a o b : BookOrder D} {os : List (BookOrder D)} {trading : Trading D} {fs : List (Fill D)}
        → prices_cross a.side a.price o.price ≡ true
        → calc_trade_size a o p ≡ some trading
        → is_zero trading.size ≡ false
        → exhausted trading.taker ≡ false
        → Walks p trading.taker os b fs
        → Walks p a (o ∷ os) b (fill_by o trading ∷ fs)

  abbrev pub Outcome : Product D → BookOrder D → List (BookOrder D) → Type 0
  Outcome p a os =
      (walk p a os ≡ none)
      ⊎ ((b : BookOrder D) × (fs : List (Fill D)) × (walk p a os ≡ some (b, fs))
          × Walks p a os b fs)

  pub walk-Walks : (p : Product D) (a : BookOrder D) (os : List (BookOrder D)) → Outcome p a os
  unfolding walk
  walk-Walks p a [] = inr (a, [], refl, ended a)
  walk-Walks p a (o ∷ os) = elim (Bool-cases (prices_cross a.side a.price o.price)) [
    | inr no_cross ↦ inr (a, [], rw (no_cross, walk), uncrossed no_cross)
    | inl cross ↦ elim (Option-cases (calc_trade_size a o p)) [
      | inl e ↦ inl (rw (cross, e, walk))
      | inr (trading, e) ↦ elim (Bool-cases (is_zero trading.size)) [
        | inl z ↦ inr (trading.taker, [], rw (cross, e, walk, z), dry cross e z)
        | inr z ↦ elim (Bool-cases (exhausted trading.taker)) [
          | inl u ↦ inr (
            trading.taker,
            fill_by o trading ∷ [],
            rw (cross, e, walk, z, u),
            used_up cross e z u,
          )
          | inr u ↦ elim (walk-Walks p trading.taker os) [
            | inl w ↦ inl (rw (cross, e, walk, z, u, w))
            | inr (b, fs, w, ws) ↦
                inr
                  (b, fill_by o trading ∷ fs, rw (cross, e, walk, z, u, w), goes_on cross e z u ws)
          ]
        ]
      ]
    ]
  ]

  pub Walks-walk :
      (p : Product D) (a b : BookOrder D) (os : List (BookOrder D)) (fs : List (Fill D))
      → walk p a os ≡ some (b, fs)
      → Walks p a os b fs
  Walks-walk p a b os fs e = go (walk-Walks p a os)
    where
      go : Outcome p a os → Walks p a os b fs
      go (inl q) = absurd (cc (q, e))
      go (inr (b', fs', q, w)) =
          subst (λ (z : BookOrder D × List (Fill D)). Walks p a os z.0 z.1) (some_inj (sym q ∙ e)) w

  pub Walks-SameOrder :
      {p : Product D} {a b : BookOrder D} {os : List (BookOrder D)} {fs : List (Fill D)}
      → Walks p a os b fs
      → SameOrder a b
  Walks-SameOrder (ended a) = SameOrder-refl a
  Walks-SameOrder (uncrossed {a = a} n) = SameOrder-refl a
  Walks-SameOrder {p} (dry {a = a} {o = o} {trading = g} cross e z) =
      calc_trade_size-SameOrder a o p g e
  Walks-SameOrder {p} (used_up {a = a} {o = o} {trading = g} cross e z u) =
      calc_trade_size-SameOrder a o p g e
  Walks-SameOrder {p} (goes_on {a = a} {o = o} {trading = g} cross e z u w) =
      SameOrder-trans (calc_trade_size-SameOrder a o p g e) (Walks-SameOrder w)

  abbrev pub Priced : Side → D → List (Fill D) → Type 0
  Priced side price = All λ f. prices_cross side price (f.maker).price ≡ true

  -- Every trade is at a price that the taker's own price crosses.
  pub Walks-prices :
      {p : Product D} {a b : BookOrder D} {os : List (BookOrder D)} {fs : List (Fill D)}
      → Walks p a os b fs
      → Priced a.side a.price fs
  Walks-prices (ended a) = tt
  Walks-prices (uncrossed n) = tt
  Walks-prices (dry cross e z) = tt
  Walks-prices (used_up cross e z u) = (cross, tt)
  Walks-prices {p} (goes_on {a = a} {o = o} {trading = g} {fs = fs} cross e z u w) =
      let s = calc_trade_size-SameOrder a o p g e in
      let near = Walks-prices w in
      let same_side = subst (λ (z : Side). Priced z (g.taker).price fs) s.side near in
      (cross, subst (λ (z : D). Priced a.side z fs) s.price same_side)

  abbrev pub total : List (Fill D) → D
  total [] = d.nought
  total (f ∷ fs) = d.add f.size (total fs)

  module _ (x : IsExact D) where
    zero_size : (g : Trading D) → is_zero g.size ≡ true → g.size ≡ d.nought
    zero_size g z = x.cmp_eq g.size d.nought (ground arith)

    calc_trade_size-conserves :
        (a o : BookOrder D) (p : Product D) (trading : Trading D)
        → measure_of a ≡ by_size
        → calc_trade_size a o p ≡ some trading
        → d.add trading.size (trading.taker).size ≡ a.size
    unfolding calc_trade_size
    calc_trade_size-conserves a o p trading by e =
        ground (arith, add_sub x a.size (min_of a.size o.size), nought_add x a.size)

    -- The sizes of the trades and what the taker has left add up to what the taker had.
    pub Walks-conserves :
        {p : Product D} {a b : BookOrder D} {os : List (BookOrder D)} {fs : List (Fill D)}
        → Walks p a os b fs
        → measure_of a ≡ by_size
        → d.add (total fs) b.size ≡ a.size
    Walks-conserves (ended a) by = nought_add x a.size
    Walks-conserves (uncrossed {a = a} n) by = nought_add x a.size
    Walks-conserves {p} (dry {a = a} {o = o} {trading = g} cross e z) by =
        subst (λ (q : D). d.add q (g.taker).size ≡ a.size) (zero_size g z)
          (calc_trade_size-conserves a o p g by e)
    Walks-conserves {p} (used_up {a = a} {o = o} {trading = g} cross e z u) by =
        rw (x.add_nought g.size) (calc_trade_size-conserves a o p g by e)
    Walks-conserves {p} {b = b} (goes_on {a = a} {o = o} {trading = g} {fs = fs} cross e z u w) by =
        let s = calc_trade_size-SameOrder a o p g e in
        rw (x.add_assoc g.size (total fs) b.size, Walks-conserves w (rw (s.order_type, s.side) by))
          (calc_trade_size-conserves a o p g by e)
