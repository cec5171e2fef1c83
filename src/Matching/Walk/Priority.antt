-- ===== src/Matching/Walk/Priority.antt =====
-- Price and time priority of the trades of one taker, in matching/order_book.go.
use cheetah_exchange.Prelude.{
  ◌≡◌, refl, sym, ap, subst, ◌∙◌, true, false, some, List, [], ◌∷◌, ◌++◌, map, arith, ◌⊎◌, inl, inr,
  All,
}
use cheetah_exchange.Extern.Decimal.{Decimal, IsExact, is_zero, is_positive, sub_self, cmp_sub}
use cheetah_exchange.Models.{Product, Side}
use cheetah_exchange.Matching.Log.{BookOrder}
use cheetah_exchange.Matching.Book.{Trading, by_size, prices_cross, calc_trade_size, exhausted}
use cheetah_exchange.Matching.Walk.{Fill, maker_left}
use cheetah_exchange.Matching.Walk.Trades.{
  measure_of, SameOrder, calc_trade_size-SameOrder, Walks, ended, uncrossed, dry, used_up, goes_on,
}

module _ {D : Type 0} ⦃d : Decimal D⦄ where
  -- Sizes of orders in the book are positive.
  abbrev pub Sized : List (BookOrder D) → Type 0
  Sized = All λ o. is_positive o.size ≡ true

  -- There is no next order, or the price does not cross it.
  abbrev pub StopsAt : Side → D → List (BookOrder D) → Type 0
  StopsAt side price left_over =
      (left_over ≡ [])
      ⊎ ((o : BookOrder D) × (rest : List (BookOrder D)) × (left_over ≡ o ∷ rest)
          × (prices_cross side price o.price ≡ false))

  -- Price and time priority: the makers of the trades are the first orders of the queue. If the
  -- taker still has a size, every one of them is filled, and the next order, if any, is one that
  -- the taker's price does not cross.
  pub record Served (a b : BookOrder D) (os : List (BookOrder D)) (fs : List (Fill D))
      : Type 0 where
    pub left_over : List (BookOrder D)
    pub makers : os ≡ map (λ f. f.maker) fs ++ left_over
    pub filled : is_zero b.size ≡ false → All (λ f. is_zero (maker_left f).size ≡ true) fs
    pub stopped : is_zero b.size ≡ false → StopsAt a.side a.price left_over

  module _ (x : IsExact D) where
    -- A trade that does not use up the taker fills the maker.
    calc_trade_size-fills :
        (a o : BookOrder D) (p : Product D) (g : Trading D)
        → measure_of a ≡ by_size
        → calc_trade_size a o p ≡ some g
        → is_zero (g.taker).size ≡ false
        → is_positive o.size ≡ true
        → is_zero a.size ≡ false
        → (is_zero (d.sub o.size g.size) ≡ true) × (is_zero g.size ≡ false)
    unfolding calc_trade_size
    calc_trade_size-fills a o p g by e left pos some_size = ground (
      arith,
      sub_self x o.size,
      sub_self x a.size,
      x.cmp_self d.nought,
      cmp_sub x a.size o.size,
      x.cmp_flip a.size o.size,
    )

    by_measure : (b : BookOrder D) → measure_of b ≡ by_size → exhausted b ≡ is_zero b.size
    by_measure b by = ground arith

    kept_measure :
        (a b : BookOrder D) → SameOrder a b → measure_of a ≡ by_size → measure_of b ≡ by_size
    kept_measure a b s by = rw (s.order_type, s.side) by

    -- The trades of a taker that is measured by its size respect the queue.
    pub Walks-Served :
        {p : Product D} {a b : BookOrder D} {os : List (BookOrder D)} {fs : List (Fill D)}
        → Walks p a os b fs
        → measure_of a ≡ by_size
        → is_zero a.size ≡ false
        → Sized os
        → Served a b os fs
    Walks-Served (ended a) by some_size pos = record {
      left_over = [];
      makers = refl;
      filled = λ h. tt;
      stopped = λ h. inl refl;
    }
    Walks-Served (uncrossed {a = a} {o = o} {os = os} n) by some_size pos = record {
      left_over = o ∷ os;
      makers = refl;
      filled = λ h. tt;
      stopped = λ h. inr (o, os, refl, n);
    }
    Walks-Served {p} (dry {a = a} {o = o} {os = os} {trading = g} cross e z) by some_size pos =
        record {
          left_over = o ∷ os;
          makers = refl;
          filled = λ h. tt;
          stopped = λ h. absurd (cc (z, (calc_trade_size-fills a o p g by e h pos.0 some_size).1));
        }
    Walks-Served {p} (used_up {a = a} {o = o} {os = os} {trading = g} cross e z u) by some_size
          pos =
        let used : is_zero (g.taker).size ≡ true =
          sym (by_measure g.taker (kept_measure a g.taker (calc_trade_size-SameOrder a o p g e) by))
          ∙ u in
        record {
          left_over = os;
          makers = refl;
          filled = λ h. absurd (cc (used, h));
          stopped = λ h. absurd (cc (used, h));
        }
    Walks-Served {p}
          (goes_on {a = a} {o = o} {b = b} {os = os} {trading = g} {fs = fs} cross e z u w) by
          some_size pos =
        let s = calc_trade_size-SameOrder a o p g e in
        let by' = kept_measure a g.taker s by in
        let left : is_zero (g.taker).size ≡ false = sym (by_measure g.taker by') ∙ u in
        let later = Walks-Served w by' left pos.1 in
        record {
          left_over = later.left_over;
          makers = ap (◌∷◌ o) later.makers;
          filled =
              λ h. ((calc_trade_size-fills a o p g by e left pos.0 some_size).0, later.filled h);
          stopped = λ h.
              subst (λ (z : Side). StopsAt z a.price later.left_over) s.side
                (subst (λ (z : D). StopsAt (g.taker).side z later.left_over) s.price
                  (later.stopped h));
        }
