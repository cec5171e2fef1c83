-- ===== src/Matching/Engine/Force.antt =====
-- What the times in force of an order promise, as matching/engine.go handles them.
use cheetah_exchange.Prelude.{
  ap, ℕ, ◌≡◌, ◌≢◌, sym, subst, ◌∙◌, true, false, not, ◌&&◌, some, List, [], ◌∷◌, ◌++◌, arith, ◌⊎◌,
  inl, inr, Bool-cases, All,
}
use cheetah_exchange.Extern.Decimal.{Decimal, IsExact, is_positive}
use cheetah_exchange.Extern.TreeMap.{TreeMap, IsTreeMap}
use cheetah_exchange.Models.{
  TimeInForce, Order, Side, buy, limit, cancelling, immediate_or_cancel, good_till_crossing,
  fill_or_kill, reason_cancelled,
}
use cheetah_exchange.Matching.Window.{Window}
use cheetah_exchange.Matching.Log.{
  Log, BookOrder, done_log, match_log, new_book_order, new_done_log,
}
use cheetah_exchange.Matching.Depth.{Key, Depth}
use cheetah_exchange.Matching.Book.{Book, next_seq, prepare, makers_of}
use cheetah_exchange.Matching.Book.Invariant.{IsBook}
use cheetah_exchange.Matching.Walk.{Listed, logs_of}
use cheetah_exchange.Matching.Apply.{
  is_limit, apply_order, nullify_order, is_order_will_not_match, is_order_will_full_match, prepend,
}
use cheetah_exchange.Matching.Apply.Admit.{SeenIn}
use cheetah_exchange.Matching.Apply.Execute.{Executed, last_log}
use cheetah_exchange.Matching.Apply.Submit.{IsValidOrder, taker_of, noted, apply_order_lem}
use cheetah_exchange.Matching.Apply.Outcome.{
  apply_order-IsBook, traded, remaining, execution_conserves,
}
use cheetah_exchange.Matching.Apply.Cancel.{Gone, cancel_order_lem, nullify_order_lem}
use cheetah_exchange.Matching.Apply.Check.{
  makers_of-noted, no_match, no_match-walk, buy_no_match, full_match_walk,
}
use cheetah_exchange.Matching.Engine.{apply_or_cancel, apply_by_force}

module _ {D : Type 0} where
  -- A log that is not a trade.
  abbrev pub NoTrade : Log D → Type 0
  NoTrade (match_log l) = ⊥
  NoTrade _ = Unit

module _ {D Q : Type 0} ⦃d : Decimal D⦄ ⦃t : TreeMap (Key D) ℕ Q⦄ (x : IsExact D) (m : IsTreeMap t)
    (b : Book D Q) (v : IsBook m b) (o : Order D) (ok : IsValidOrder o)
    (live : o.status ≢ cancelling) where
  by_force : apply_or_cancel b o ≡ apply_by_force o.time_in_force b o
  unfolding apply_or_cancel
  by_force = ground (arith, live)

  forced : (f : TimeInForce) → o.time_in_force ≡ f → apply_or_cancel b o ≡ apply_by_force f b o
  forced f e = by_force ∙ ap (λ (z : TimeInForce). apply_by_force z b o) e

  -- An order that is immediate or cancelled leaves nothing on the book, and does not crash it.
  pub immediate_or_cancel_lem :
      o.time_in_force ≡ immediate_or_cancel
      → (logs : List (Log D)) × (b' : Book D Q) × (apply_or_cancel b o ≡ some (logs, b'))
        × IsBook m b'
        × Gone x m b' o.side o.id
  unfolding apply_by_force
  immediate_or_cancel_lem force =
      let (logs, b1, e, v1, n, q) = apply_order-IsBook x m b v o ok in
      let (logs', b2, e', h, gone, _) = cancel_order_lem x m b1 v1 o ok.small_id ok.known_side in
      (
        logs ++ logs',
        b2,
        forced immediate_or_cancel force ∙ rw (apply_by_force, e, e', prepend),
        h.is_book,
        gone,
      )

  same_listing :
      (ws : List Window) (os : List (BookOrder D))
      → Listed
          (makers_of (taker_of o).side (noted b ws))
          (t.entries (makers_of (taker_of o).side (noted b ws)).queue)
          os
      → Listed (makers_of (taker_of o).side b) (t.entries (makers_of (taker_of o).side b).queue) os
  same_listing ws os l =
      subst (λ (z : Depth D Q). Listed z (t.entries z.queue) os)
        (makers_of-noted (taker_of o).side b ws) l

  -- Nothing is traded: the order is refused with one log.
  abbrev pub Nullified : Type 0
  Nullified =
      (b' : Book D Q) × (apply_or_cancel b o
        ≡ some (
          done_log (
                new_done_log (next_seq b.log_seq) b.product.id (new_book_order o) o.size
                  reason_cancelled)
              ∷ [],
          b',
        ))
      × (b'.bids ≡ b.bids)
      × (b'.asks ≡ b.asks)

  nullified : apply_or_cancel b o ≡ nullify_order b o → Nullified
  nullified e =
      let (b', q, h, bids, asks) = nullify_order_lem x m b v o ok.small_id in
      (b', e ∙ q, bids, asks)

  -- A limit order that is to be filled or killed, and that was not seen before, is all or nothing:
  -- either its trades and a last log that leaves it no positive size add up to its size, or nothing
  -- is traded, no order on the book changes, and one log says that it is cancelled in full.
  pub fill_or_kill_lem :
      o.time_in_force ≡ fill_or_kill
      → o.order_type ≡ limit
      → (¬ SeenIn b.order_id_windows o.id)
      → ((trades : List (Log D)) × (last : Log D) × (b' : Book D Q) × (apply_or_cancel b o
            ≡ some (trades ++ last ∷ [], b'))
          × (d.add (traded trades) (remaining last) ≡ o.size)
          × (is_positive (remaining last) ≡ false))
        ⊎ Nullified
  unfolding apply_by_force
  fill_or_kill_lem force lim new = elim (apply_order_lem x m b v o ok) [
    | inl (seen, _) ↦ absurd (new seen)
    | inr (fresh, (ws, seen, keeps, r, e)) ↦ go ws r e (
        full_match_walk x m b v o r.orders r.left r.fills (same_listing ws r.orders r.listed)
          r.walked)
  ]
    where
      go :
          (ws : List Window) (r : Executed x m (noted b ws) (taker_of o))
          → apply_order b o
            ≡ some (logs_of b.product.id b.log_seq b.trade_seq r.fills ++ r.last ∷ [], r.book)
          → is_order_will_full_match b o
            ≡ some (not (is_limit r.left.order_type && is_positive r.left.size))
          → ((trades : List (Log D)) × (last : Log D) × (b' : Book D Q) × (apply_or_cancel b o
                ≡ some (trades ++ last ∷ [], b'))
              × (d.add (traded trades) (remaining last) ≡ o.size)
              × (is_positive (remaining last) ≡ false))
            ⊎ Nullified
      go ws r e check = elim (Bool-cases (is_limit r.left.order_type && is_positive r.left.size)) [
        | inl stays ↦
            inr (nullified (forced fill_or_kill force ∙ rw (apply_by_force, check, stays)))
        | inr over ↦
            let c = execution_conserves x m b v o ok ws r lim in
            inl (
              logs_of b.product.id b.log_seq b.trade_seq r.fills,
              r.last,
              r.book,
              forced fill_or_kill force ∙ (rw (apply_by_force, check, over) e),
              c.conserves,
              rw c.leaves (ground (arith, over, c.still_limit)),
            )
      ]

  -- A buyer that is not to cross the market never trades, if it was not seen before.
  pub good_till_crossing_buy :
      o.time_in_force ≡ good_till_crossing
      → o.side ≡ buy
      → (¬ SeenIn b.order_id_windows o.id)
      → (logs : List (Log D)) × (b' : Book D Q) × (apply_or_cancel b o ≡ some (logs, b'))
        × All NoTrade logs
  unfolding apply_by_force prepare logs_of
  good_till_crossing_buy force on new = elim (apply_order_lem x m b v o ok) [
    | inl (seen, _) ↦ absurd (new seen)
    | inr (fresh, (ws, seen, keeps, r, e)) ↦ go ws r e (
        buy_no_match x m b v o r.orders on (
          subst (λ (s : Side). Listed (makers_of s b) (t.entries (makers_of s b).queue) r.orders) on
            (same_listing ws r.orders r.listed)))
  ]
    where
      last_quiet : (seq p : ℕ) (left : BookOrder D) → NoTrade (last_log seq p left)
      last_quiet seq p left =
          elim (Bool-cases (is_limit left.order_type && is_positive left.size)) [
            | inl q ↦ rw q tt
            | inr q ↦ rw q tt
          ]

      go :
          (ws : List Window) (r : Executed x m (noted b ws) (taker_of o))
          → apply_order b o
            ≡ some (logs_of b.product.id b.log_seq b.trade_seq r.fills ++ r.last ∷ [], r.book)
          → is_order_will_not_match b o ≡ some (no_match buy (taker_of o).price r.orders)
          → (logs : List (Log D)) × (b' : Book D Q) × (apply_or_cancel b o ≡ some (logs, b'))
            × All NoTrade logs
      go ws r e check = elim (Bool-cases (no_match buy (taker_of o).price r.orders)) [
        | inr crosses ↦
            let (b', q, _, _) =
              nullified (forced good_till_crossing force ∙ rw (apply_by_force, check, crosses)) in
            (_, b', q, (tt, tt))
        | inl clear ↦
            let none_filled : r.fills ≡ [] =
              no_match-walk b.product (taker_of o) r.left r.orders r.fills
                (subst (λ (s : Side). no_match s (taker_of o).price r.orders ≡ true) (sym on) clear)
                r.walked in
            (
              r.last ∷ [],
              r.book,
              forced good_till_crossing force
                  ∙ (rw (apply_by_force, check, clear) (e ∙ rw (none_filled, logs_of))),
              (rw r.written (last_quiet r.seq b.product.id r.left), tt),
            )
      ]
