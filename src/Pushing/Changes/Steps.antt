-- ===== src/Pushing/Changes/Steps.antt =====
-- One turn of `runL2ChangeWriter` (pushing/client.go), on each of its branches: what the client is
-- sent moves the number up to which it knows the book.
use cheetah_exchange.Prelude.{
  ℕ, zero, suc, ◌+◌, ◌≤◌, ◌<◌, ◌≡◌, refl, ap, ◌∙◌, sym, subst, true, false, Option, none, some, [],
  ◌∷◌, ◌++◌, map, length, length-append, ◌&&◌, ◌||◌, arith, inl, inr, ltb, leb, ◌==◌, Bool-cases,
  Option-cases,
}
use cheetah_exchange.Pushing.PriceBook.{Change, Level2Snapshot}
use cheetah_exchange.Pushing.Changes.{
  WriterState, Incoming, snapshot_message, update_message, Turn, row_of, update_size, quiet,
  send_snapshot, lose_track, add_change, handle_change,
}
use cheetah_exchange.Pushing.Changes.Delivery.{
  run_of, IsNewer, Follows, silent, book, update, IsFed, IsAt,
}

module _ {D : Type 0} (feed : ℕ → Change D) (books : ℕ → Level2Snapshot D) where
  length-run_of : (n k : ℕ) → length (run_of feed n k) ≡ k
  length-run_of n zero = refl
  length-run_of n (suc k) =
      omega (arith, length-append (run_of feed n k) (feed (n + suc k) ∷ []), length-run_of n k)

  pub record Turned (p : ℕ) (shown : Option ℕ) (turn : Turn D) : Type 0 where
    pub shown' : Option ℕ
    pub follows : Follows feed books p shown turn.sent shown'
    pub is_at : IsAt feed shown' turn.state

  quiet-Turned :
      (p : ℕ) (shown : Option ℕ) (s : WriterState D) → IsAt feed shown s → Turned p shown (quiet s)
  quiet-Turned p shown s h = record { shown' = shown; follows = silent; is_at = h }

  IsAt-IsNewer :
      (shown : Option ℕ) (s : WriterState D) → IsAt feed shown s → IsNewer shown s.last_seq
  IsAt-IsNewer shown s (inl h) = h.2
  IsAt-IsNewer shown s (inr (n, k, r, e, c, l, q)) = rw e (omega arith)

  IsNewer-trans : (shown : Option ℕ) (n m : ℕ) → IsNewer shown n → n ≤ m → IsNewer shown m
  IsNewer-trans none n m h k = tt
  IsNewer-trans (some a) n m h k = omega arith

  send_snapshot-Turned :
      (e : Incoming D) (s : WriterState D) (shown : Option ℕ)
      → IsFed feed books e
      → IsAt feed shown s
      → s.changes ≡ []
      → Turned e.product_id shown (send_snapshot e s)
  unfolding send_snapshot
  send_snapshot-Turned e s shown fed h c = elim (Option-cases e.last_snapshot) [
    | inl absent ↦ rw (send_snapshot, absent) (quiet-Turned _ shown s h)
    | inr (snap, present) ↦ elim (Bool-cases (ltb snap.seq s.last_seq)) [
      | inl old ↦ rw (send_snapshot, present, old) (quiet-Turned _ shown s h)
      | inr new ↦
          rw (send_snapshot, present, new)
            (record {
              shown' = some snap.seq;
              follows =
                  subst
                    (λ b.
                      Follows feed books e.product_id shown
                        (snapshot_message e.product_id b.bids b.asks ∷ []) (some snap.seq))
                    (sym (fed.pictured snap present))
                    (book snap.seq
                      (IsNewer-trans shown s.last_seq snap.seq (IsAt-IsNewer shown s h)
                        (ground arith))
                      silent);
              is_at = inr (snap.seq, 0, refl, refl, c, omega arith, omega arith);
            })
    ]
  ]

  add_change-Turned :
      (e : Incoming D) (s : WriterState D) (n k : ℕ)
      → s.resend_snapshot ≡ false
      → s.changes ≡ run_of feed n k
      → k < update_size
      → e.change ≡ feed (n + suc k)
      → e.change.seq ≡ n + suc k
      → Turned e.product_id (some n) (add_change e s)
  unfolding add_change
  add_change-Turned e s n k r c l f q =
      let held : s.changes ++ e.change ∷ [] ≡ run_of feed n (suc k) =
        ap (λ cs. cs ++ e.change ∷ []) c ∙ ap (λ a. run_of feed n k ++ a ∷ []) f in
      let sized : length (s.changes ++ e.change ∷ []) ≡ suc k =
        ap length held ∙ length-run_of n (suc k) in
      elim (Bool-cases (ltb 0 e.queued && ltb (length (s.changes ++ e.change ∷ [])) update_size)) [
        | inl waits ↦
            rw (add_change, waits)
              (record {
                shown' = some n;
                follows = silent;
                is_at = inr (n, suc k, r, refl, held, ground arith, q);
              })
        | inr full ↦
            rw (add_change, full)
              (record {
                shown' = some (n + suc k);
                follows =
                    subst
                      (λ cs.
                        Follows feed books e.product_id (some n)
                          (update_message e.product_id (map row_of cs) ∷ []) (some (n + suc k)))
                      (sym held) (update n (suc k) (omega arith) silent);
                is_at = inr (n + suc k, 0, r, refl, refl, omega arith, omega arith);
              })
      ]

  -- Where a snapshot is sent, no change waits.
  nothing_waits :
      (e : Incoming D) (s : WriterState D) (shown : Option ℕ)
      → IsAt feed shown s
      → (s.resend_snapshot || e.change.seq == 0) ≡ true
      → (e.change.seq ≡ 0 → s.changes ≡ [])
      → s.changes ≡ []
  nothing_waits e s shown (inl h) w rest = h.1
  nothing_waits e s shown (inr h) w rest = rest (ground (arith, h.2))

  lose_track-Turned :
      (e : Incoming D) (s : WriterState D) (shown : Option ℕ)
      → IsAt feed shown s
      → leb e.change.seq s.last_seq ≡ false
      → Turned e.product_id shown (lose_track e)
  lose_track-Turned e s shown h new = record {
    shown' = shown;
    follows = silent;
    is_at = inl (
      refl,
      refl,
      IsNewer-trans shown s.last_seq e.change.seq (IsAt-IsNewer shown s h) (ground arith),
    );
  }

  next_change-Turned :
      (e : Incoming D) (s : WriterState D) (shown : Option ℕ)
      → IsFed feed books e
      → IsAt feed shown s
      → (s.resend_snapshot || e.change.seq == 0) ≡ false
      → (e.change.seq == s.last_seq + 1) ≡ true
      → Turned e.product_id shown (add_change e s)
  next_change-Turned e s shown fed (inl h) going next = absurd (ground arith)
  next_change-Turned e s shown fed (inr (n, k, r, at, c, l, q)) going next =
      let seq : e.change.seq ≡ n + suc k = ground arith in
      rw at (
        add_change-Turned e s n k r c l
          (subst (λ i. e.change ≡ feed i) seq (fed.numbered (omega arith))) seq)

  pub handle_change-Turned :
      (e : Incoming D) (s : WriterState D) (shown : Option ℕ)
      → IsFed feed books e
      → IsAt feed shown s
      → (e.change.seq ≡ 0 → s.changes ≡ [])
      → Turned e.product_id shown (handle_change e s)
  unfolding handle_change
  handle_change-Turned e s shown fed h rest =
      elim (Bool-cases (s.resend_snapshot || e.change.seq == 0)) [
        | inl wanted ↦
            rw (handle_change, wanted)
              (send_snapshot-Turned e s shown fed h (nothing_waits e s shown h wanted rest))
        | inr going ↦ elim (Bool-cases (leb e.change.seq s.last_seq)) [
          | inl old ↦ rw (handle_change, going, old) (quiet-Turned _ shown s h)
          | inr new ↦ elim (Bool-cases (e.change.seq == s.last_seq + 1)) [
            | inr gap ↦ rw (handle_change, going, new, gap) (lose_track-Turned e s shown h new)
            | inl follows ↦
                rw (handle_change, going, new, follows)
                  (next_change-Turned e s shown fed h going follows)
          ]
        ]
      ]
