-- ===== src/Matching/Walk/Refine.antt =====
-- The loops of matching/order_book.go do what `walk` says.
use cheetah_exchange.Prelude.{
  ℕ, ◌≡◌, ◌≢◌, refl, sym, ap, subst, ◌∙◌, true, false, none, some, List, [], ◌∷◌, ◌++◌, arith,
  Ordering, ◌⊎◌, inl, inr, Bool-cases, Option-cases, All,
}
use mathlib.Core.List.{append-nil, append_assoc}
use cheetah_exchange.Prelude.Ids.{lookup}
use cheetah_exchange.Extern.Decimal.{Decimal, IsExact, is_zero, less_than}
use cheetah_exchange.Extern.TreeMap.{TreeMap, IsTreeMap}
use cheetah_exchange.Extern.TreeMap.Sorted.{IsOrder}
use cheetah_exchange.Models.{Product}
use cheetah_exchange.Matching.Log.{BookOrder}
use cheetah_exchange.Matching.Depth.{Key, Depth}
use cheetah_exchange.Matching.Depth.Invariant.{IsDepth}
use cheetah_exchange.Matching.Depth.Shrink.{less, Shrunk, decr_size-Shrunk}
use cheetah_exchange.Matching.Book.{Trading, next_seq, prices_cross, calc_trade_size, exhausted}
use cheetah_exchange.Matching.Match.{
  Run, matched, trade, match_maker, match_one, match_all, match_logs, match_seq, count_maker,
  count_one, count_all,
}
use cheetah_exchange.Matching.Walk.{
  Fill, walk, logs_of, log_seq_of, trade_seq_of, found_after, Listed, nobody, next,
}

module _ {D Q : Type 0} ⦃d : Decimal D⦄ ⦃t : TreeMap (Key D) ℕ Q⦄ where
  -- `IsOrderWillFullMatch` ends with the taker that `walk` ends with.
  pub count_all-walk :
      (p : Product D) (b : Depth D Q) (taker : BookOrder D) {es : List (Key D × ℕ)}
      {os : List (BookOrder D)}
      → Listed b es os
      → count_all p b taker es ≡ elim (walk p taker os) [ none ↦ none | some r ↦ some r.0 ]
  unfolding count_all count_one count_maker walk
  count_all-walk p b taker nobody = refl
  count_all-walk p b taker (next {o = o} held named apart rest) =
      rw (held, count_all, count_one)
        (elim (Bool-cases (prices_cross taker.side taker.price o.price)) [
          | inr no_cross ↦ rw (no_cross, count_maker, walk)
          | inl cross ↦ elim (Option-cases (calc_trade_size taker o p)) [
            | inl e ↦ rw (cross, e, count_maker, walk)
            | inr (trading, e) ↦
                rw (cross, e, count_maker, walk)
                  (ground (arith, count_all-walk p b trading.taker rest))
          ]
        ])

module _ {D : Type 0} ⦃d : Decimal D⦄ (x : IsExact D) where
  -- A trade is never larger than its maker.
  pub calc_trade_size-fits :
      (taker o : BookOrder D) (p : Product D) (trading : Trading D)
      → calc_trade_size taker o p ≡ some trading
      → is_zero trading.size ≡ false
      → less_than o.size trading.size ≡ false
  unfolding calc_trade_size
  calc_trade_size-fits taker o p trading e z =
      ground (arith, x.cmp_self o.size, x.cmp_self d.nought)

module _ {D Q : Type 0} ⦃d : Decimal D⦄ ⦃t : TreeMap (Key D) ℕ Q⦄ (x : IsExact D) (m : IsTreeMap t)
    (c : Key D → Key D → Ordering) (o : IsOrder c) (p : Product D) where
  Listed-Shrunk :
      {b b' : Depth D Q} {e : BookOrder D} {size : D} {es : List (Key D × ℕ)}
      {os : List (BookOrder D)}
      → Shrunk x m c o b e size b'
      → All (λ a. a.order_id ≢ e.order_id) os
      → Listed b es os
      → Listed b' es os
  Listed-Shrunk s far nobody = nobody
  Listed-Shrunk {b' = b'} s far (next {id = id} {o = a} held named apart rest) =
      next (ground (arith, s.looks_up id)) named apart (Listed-Shrunk s far.1 rest)

  -- What a run of the loop has done, when the taker has become `taker` by these trades.
  pub record Ran (r : Run D Q) (taker : BookOrder D) (fills : List (Fill D)) (r' : Run D Q)
      : Type 0 where
    pub took : r'.taker ≡ taker
    pub is_depth : IsDepth m c r'.makers
    pub logged : r'.logs ≡ r.logs ++ logs_of p.id r.log_seq r.trade_seq fills
    pub log_seq : r'.log_seq ≡ log_seq_of r.log_seq fills
    pub trade_seq : r'.trade_seq ≡ trade_seq_of r.trade_seq fills
    pub looks_up :
        (j : ℕ) → lookup j r'.makers.orders ≡ found_after fills j (lookup j r.makers.orders)

  abbrev pub Refines : Run D Q → List (Key D × ℕ) → List (BookOrder D) → Type 0
  Refines r es os =
      ((walk p r.taker os ≡ none) × (match_all p r es ≡ none))
      ⊎ ((taker : BookOrder D) × (fills : List (Fill D)) × (r' : Run D Q) × (walk p r.taker os
            ≡ some (taker, fills))
          × (match_all p r es ≡ some r')
          × Ran r taker fills r')

  idle :
      (r : Run D Q) (taker : BookOrder D)
      → IsDepth m c r.makers
      → Ran r taker [] (record r { taker = taker })
  unfolding logs_of log_seq_of trade_seq_of found_after
  idle r taker v = record {
    took = refl;
    is_depth = v;
    logged = sym (append-nil r.logs);
    log_seq = refl;
    trade_seq = refl;
    looks_up = λ j. refl;
  }

  fill_of : BookOrder D → Trading D → Fill D
  fill_of e trading = record { taker = trading.taker; maker = e; size = trading.size }

  -- The run behind one trade.
  after_trade : Run D Q → BookOrder D → Trading D → Depth D Q → Run D Q
  after_trade r e trading b' =
      matched p.id r trading.taker (less x m c o e trading.size) b' trading.size

  one_fill :
      (r : Run D Q) (e : BookOrder D) (trading : Trading D) (b' : Depth D Q)
      → Shrunk x m c o r.makers e trading.size b'
      → Ran r trading.taker (fill_of e trading ∷ []) (after_trade r e trading b')
  unfolding after_trade fill_of matched logs_of log_seq_of trade_seq_of found_after
  one_fill r e trading b' s = record {
    took = refl;
    is_depth = s.is_depth;
    logged = rw (
        append-nil (
          match_logs p.id r.log_seq r.trade_seq trading.taker (less x m c o e trading.size)
            trading.size));
    log_seq = refl;
    trade_seq = refl;
    looks_up = s.looks_up;
  }

  more_fills :
      (r : Run D Q) (e : BookOrder D) (trading : Trading D) (b' : Depth D Q) (taker : BookOrder D)
      (fills : List (Fill D)) (r' : Run D Q)
      → Shrunk x m c o r.makers e trading.size b'
      → Ran (after_trade r e trading b') taker fills r'
      → Ran r taker (fill_of e trading ∷ fills) r'
  unfolding after_trade fill_of matched logs_of log_seq_of trade_seq_of found_after
  more_fills r e trading b' taker fills r' s n = record {
    took = n.took;
    is_depth = n.is_depth;
    logged =
        n.logged
        ∙ append_assoc r.logs
            (match_logs p.id r.log_seq r.trade_seq trading.taker (less x m c o e trading.size)
              trading.size)
            (logs_of p.id (match_seq r.log_seq (less x m c o e trading.size)) (next_seq r.trade_seq)
              fills);
    log_seq = n.log_seq;
    trade_seq = n.trade_seq;
    looks_up = λ j. n.looks_up j ∙ ap (found_after fills j) (s.looks_up j);
  }

  -- The taker has been used up by this trade, or the loop goes on behind it.
  traded :
      (r : Run D Q) (k : Key D) (e : BookOrder D) (es : List (Key D × ℕ)) (os : List (BookOrder D))
      (trading : Trading D) (b' : Depth D Q)
      → lookup e.order_id r.makers.orders ≡ some e
      → prices_cross r.taker.side r.taker.price e.price ≡ true
      → calc_trade_size r.taker e p ≡ some trading
      → is_zero trading.size ≡ false
      → Shrunk x m c o r.makers e trading.size b'
      → Refines (after_trade r e trading b') es os
      → Refines r ((k, e.order_id) ∷ es) (e ∷ os)
  unfolding match_all match_one match_maker trade walk after_trade fill_of matched
  traded r k e es os trading b' held cross q some_left s later =
      elim (Bool-cases (exhausted trading.taker)) [
        | inl used ↦ inr (
          trading.taker,
          fill_of e trading ∷ [],
          after_trade r e trading b',
          rw (cross, walk, q, some_left, used),
          rw (held, match_all, match_one, cross, match_maker, q, some_left, s.runs, trade, used),
          one_fill r e trading b' s,
        )
        | inr left ↦ elim later [
          | inl (crashed, crashed') ↦ inl (
            rw (cross, walk, q, some_left, left, crashed),
            rw (held, match_all, match_one, cross, match_maker, q, some_left, s.runs, trade, left)
                crashed',
          )
          | inr (taker, fills, r', walked, ran, n) ↦ inr (
            taker,
            fill_of e trading ∷ fills,
            r',
            rw (cross, walk, q, some_left, left, walked),
            rw (held, match_all, match_one, cross, match_maker, q, some_left, s.runs, trade, left)
                ran,
            more_fills r e trading b' taker fills r' s n,
          )
        ]
      ]

  -- The loop of `ApplyOrder` does what `walk` says, on the orders that the queue lists: it crashes
  -- where `walk` does, and otherwise ends with that taker, having written the logs of the trades,
  -- counted on, and shrunk the makers by the trades.
  pub match_all-walk :
      (r : Run D Q) (os : List (BookOrder D)) {es : List (Key D × ℕ)}
      → IsDepth m c r.makers
      → Listed r.makers es os
      → Refines r es os
  unfolding match_all match_one match_maker trade walk after_trade fill_of
  match_all-walk r [] v nobody = inr (r.taker, [], r, refl, refl, idle r r.taker v)
  match_all-walk r (e ∷ os) v (next {k = k} {es = es} held named apart rest) =
      elim (Bool-cases (prices_cross r.taker.side r.taker.price e.price)) [
        | inr no_cross ↦ inr (
          r.taker,
          [],
          r,
          rw (no_cross, walk),
          rw (held, match_all, match_one, no_cross, match_maker),
          idle r r.taker v,
        )
        | inl cross ↦ elim (Option-cases (calc_trade_size r.taker e p)) [
          | inl q ↦
              inl (rw (cross, walk, q), rw (held, match_all, match_one, cross, match_maker, q))
          | inr (trading, q) ↦ elim (Bool-cases (is_zero trading.size)) [
            | inl none_left ↦ inr (
              trading.taker,
              [],
              record r { taker = trading.taker },
              rw (cross, walk, q, none_left),
              rw (held, match_all, match_one, cross, match_maker, q, none_left),
              idle r trading.taker v,
            )
            | inr some_left ↦
                let own : lookup e.order_id r.makers.orders ≡ some e =
                  subst (λ (i : ℕ). lookup i r.makers.orders ≡ some e) (sym named) held in
                let fits = calc_trade_size-fits x r.taker e p trading q some_left in
                let (b', s) = decr_size-Shrunk x m c o r.makers v e trading.size own fits in
                let later =
                  match_all-walk (after_trade r e trading b') os s.is_depth
                    (Listed-Shrunk s apart rest) in
                subst (λ (i : ℕ). Refines r ((k, i) ∷ es) (e ∷ os)) named
                  (traded r k e es os trading b' own cross q some_left s later)
          ]
        ]
      ]
