-- ===== src/Matching/Apply/Outcome.antt =====
-- What `ApplyOrder` of matching/order_book.go promises its caller, in terms of the logs and the book.
use cheetah_exchange.Prelude.{
  ℕ, ◌≡◌, refl, sym, ap, subst, ◌∙◌, true, ◌&&◌, some, List, [], ◌∷◌, ◌++◌, arith, inl, inr, All,
  Bool-cases, some_inj, All-append,
}
use cheetah_exchange.Extern.Decimal.{Decimal, IsExact, is_zero, is_positive}
use cheetah_exchange.Extern.TreeMap.{TreeMap, IsTreeMap}
use cheetah_exchange.Models.{Order, Side, limit}
use cheetah_exchange.Matching.Window.{Window}
use cheetah_exchange.Matching.Log.{Log, BookOrder, open_log, done_log, match_log}
use cheetah_exchange.Matching.Log.Sequence.{Numbered, last_seq}
use cheetah_exchange.Matching.Depth.{Key}
use cheetah_exchange.Matching.Book.{Book, next_seq, by_size, prepare, prices_cross}
use cheetah_exchange.Matching.Book.Invariant.{IsBook}
use cheetah_exchange.Matching.Match.{match_logs, match_seq}
use cheetah_exchange.Matching.Walk.{Fill, maker_left, logs_of}
use cheetah_exchange.Matching.Walk.Trades.{
  measure_of, total, Walks-conserves, Walks-prices, Walks-SameOrder, Priced,
}
use cheetah_exchange.Matching.Apply.{apply_order, is_limit}
use cheetah_exchange.Matching.Apply.Admit.{SeenIn}
use cheetah_exchange.Matching.Apply.Execute.{Executed, last_log}
use cheetah_exchange.Matching.Apply.Submit.{IsValidOrder, taker_of, noted, apply_order_lem}

module _ {D : Type 0} ⦃d : Decimal D⦄ where
  -- The size traded in a list of logs.
  abbrev pub traded : List (Log D) → D
  traded [] = d.nought
  traded (match_log l ∷ ls) = d.add l.size (traded ls)
  traded (_ ∷ ls) = traded ls

  -- The size that a log leaves its order with.
  abbrev pub remaining : Log D → D
  remaining (open_log l) = l.remaining_size
  remaining (done_log l) = l.remaining_size
  remaining (match_log l) = d.nought

  -- Every trade is at a price that crosses the given one.
  abbrev pub FairPrice : Side → D → Log D → Type 0
  FairPrice side price (match_log l) = prices_cross side price l.price ≡ true
  FairPrice side price _ = Unit

  traded-logs_of : (p s ts : ℕ) (fs : List (Fill D)) → traded (logs_of p s ts fs) ≡ total fs
  unfolding logs_of match_logs
  traded-logs_of p s ts [] = refl
  traded-logs_of p s ts (f ∷ fs) = elim (Bool-cases (is_zero (maker_left f).size)) [
    | inl z ↦
        rw (z, logs_of, match_logs)
          (ap (d.add f.size) (traded-logs_of p (match_seq s (maker_left f)) (next_seq ts) fs))
    | inr z ↦
        rw (z, logs_of, match_logs)
          (ap (d.add f.size) (traded-logs_of p (match_seq s (maker_left f)) (next_seq ts) fs))
  ]

  fair-logs_of :
      (side : Side) (price : D) (p s ts : ℕ) (fs : List (Fill D))
      → Priced side price fs
      → All (FairPrice side price) (logs_of p s ts fs)
  unfolding logs_of match_logs
  fair-logs_of side price p s ts [] h = tt
  fair-logs_of side price p s ts (f ∷ fs) h = elim (Bool-cases (is_zero (maker_left f).size)) [
    | inl z ↦
        rw (z, logs_of, match_logs)
          (h.0, (tt, fair-logs_of side price p (match_seq s (maker_left f)) (next_seq ts) fs h.1))
    | inr z ↦
        rw (z, logs_of, match_logs)
          (h.0, fair-logs_of side price p (match_seq s (maker_left f)) (next_seq ts) fs h.1)
  ]

module _ {D Q : Type 0} ⦃d : Decimal D⦄ ⦃t : TreeMap (Key D) ℕ Q⦄ (x : IsExact D) (m : IsTreeMap t)
    (b : Book D Q) (v : IsBook m b) (o : Order D) (ok : IsValidOrder o) where
  -- On a well-formed book, an order of a known side and type whose id fits, at a price if it is a
  -- limit order, is handled without a crash: the book stays well formed, and the logs are numbered
  -- from the book's log sequence on, which ends at the last of them.
  pub apply_order-IsBook :
      (logs : List (Log D)) × (b' : Book D Q) × (apply_order b o ≡ some (logs, b'))
      × IsBook m b'
      × Numbered b.log_seq logs
      × (b'.log_seq ≡ last_seq b.log_seq logs)
  apply_order-IsBook = elim (apply_order_lem x m b v o ok) [
    | inl (seen, e) ↦ ([], b, e, v, tt, refl)
    | inr (fresh, (ws, seen, keeps, r, e)) ↦ (
      logs_of b.product.id b.log_seq b.trade_seq r.fills ++ r.last ∷ [],
      r.book,
      e,
      r.is_book,
      r.numbered.0,
      r.numbered.1,
    )
  ]

  -- The taker of a limit order is measured by its size, which is the order's.
  pub limit_taker :
      o.order_type ≡ limit
      → (measure_of (taker_of o) ≡ by_size)
        × ((taker_of o).size ≡ o.size)
        × ((taker_of o).order_type ≡ limit)
        × ((taker_of o).side ≡ o.side)
  unfolding prepare
  limit_taker e = (ground arith, refl, e, refl)

  remaining-last :
      (seq p : ℕ) (left : BookOrder D)
      → left.order_type ≡ limit
      → remaining (last_log seq p left) ≡ left.size
  remaining-last seq p left e = ground arith

  -- What a limit order comes to once it is executed.
  pub record Conserved (trades : List (Log D)) (last : Log D) (left : BookOrder D) : Type 0 where
    pub conserves : d.add (traded trades) (remaining last) ≡ o.size
    pub leaves : remaining last ≡ left.size
    pub still_limit : left.order_type ≡ limit

  pub execution_conserves :
      (ws : List Window) (r : Executed x m (noted b ws) (taker_of o))
      → o.order_type ≡ limit
      → Conserved (logs_of b.product.id b.log_seq b.trade_seq r.fills) r.last r.left
  execution_conserves ws r is_lim =
      let (by, same_size, lim, _) = limit_taker is_lim in
      let left_lim = (Walks-SameOrder r.walks).order_type ∙ lim in
      let leaves : remaining r.last ≡ r.left.size =
        rw r.written (remaining-last r.seq b.product.id r.left left_lim) in
      record {
        conserves =
            rw (traded-logs_of b.product.id b.log_seq b.trade_seq r.fills, leaves)
              (Walks-conserves x r.walks by ∙ same_size);
        leaves = leaves;
        still_limit = left_lim;
      }

  -- A limit order that was not seen before is traded or left over to the last bit: the sizes of its
  -- trades and the size that its last log leaves it with add up to its size.
  pub apply_order_conserves :
      (¬ SeenIn b.order_id_windows o.id)
      → o.order_type ≡ limit
      → (trades : List (Log D)) × (last : Log D) × (b' : Book D Q) × (apply_order b o
          ≡ some (trades ++ last ∷ [], b'))
        × (d.add (traded trades) (remaining last) ≡ o.size)
  apply_order_conserves new is_lim = elim (apply_order_lem x m b v o ok) [
    | inl (seen, _) ↦ absurd (new seen)
    | inr (fresh, (ws, seen, keeps, r, e)) ↦ (
      logs_of b.product.id b.log_seq b.trade_seq r.fills,
      r.last,
      r.book,
      e,
      (execution_conserves ws r is_lim).conserves,
    )
  ]

  -- Every trade of an order is at a price that the order's own price crosses: for a limit order
  -- its limit, for a market order one that lets every maker through.
  pub apply_order_prices :
      (logs : List (Log D)) (b' : Book D Q)
      → apply_order b o ≡ some (logs, b')
      → All (FairPrice (taker_of o).side (taker_of o).price) logs
  apply_order_prices logs b' e = elim (apply_order_lem x m b v o ok) [
    | inl (seen, q) ↦
        fair_of [] tt (ap (λ (z : List (Log D) × Book D Q). z.0) (some_inj (sym q ∙ e)))
    | inr (fresh, (ws, seen, keeps, r, q)) ↦
        fair_of _
          (All-append _ (logs_of b.product.id b.log_seq b.trade_seq r.fills) (r.last ∷ [])
            (fair-logs_of _ _ b.product.id b.log_seq b.trade_seq r.fills (Walks-prices r.walks))
            (rw r.written (last_fair r.seq b.product.id r.left), tt))
          (ap (λ (z : List (Log D) × Book D Q). z.0) (some_inj (sym q ∙ e)))
  ]
    where
      side : Side
      side = (taker_of o).side

      price : D
      price = (taker_of o).price

      last_fair : (seq p : ℕ) (left : BookOrder D) → FairPrice side price (last_log seq p left)
      last_fair seq p left = elim (Bool-cases (is_limit left.order_type && is_positive left.size)) [
        | inl q ↦ rw q tt
        | inr q ↦ rw q tt
      ]

      fair_of :
          (ls : List (Log D))
          → All (FairPrice side price) ls
          → ls ≡ logs
          → All (FairPrice side price) logs
      fair_of ls h p = subst (All (FairPrice side price)) p h
