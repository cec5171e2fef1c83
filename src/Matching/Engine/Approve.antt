-- ===== src/Matching/Engine/Approve.antt =====
-- The snapshots that the committer of matching/engine.go approves.
use cheetah_exchange.Prelude.{
  ℕ, ◌≡◌, sym, ap, ◌∙◌, true, ◌&&◌, Option, none, some, List, [], ◌∷◌, ◌++◌, arith, inl, inr,
  Bool-cases, some_inj, ltb, length,
}
use cheetah_exchange.Matching.Log.{Log, get_seq}
use cheetah_exchange.Matching.Engine.{
  Snapshot, Committer, Committed, CommitMessage, log_message, approve_message, seq_le, idle,
  approve_pending, on_log, on_approve_request, on_commit_message,
}

module _ {D : Type 0} where
  -- The sequence of the committer has reached that of the approved snapshot, if there is one.
  abbrev pub Reached : Committed D → Type 0
  Reached r =
      (s : Snapshot D) → r.approved ≡ some s → seq_le s.book.log_seq (r.committer).seq ≡ true

  pending-Reached :
      (seq : ℕ) (p : Option (Snapshot D)) (logs : List (Log D))
      → Reached (approve_pending seq p logs)
  pending-Reached seq none logs s e = absurd (cc)
  pending-Reached seq (some p) logs s e = elim (Bool-cases (seq_le p.book.log_seq seq)) [
    | inl q ↦
        let same : p ≡ s = some_inj (sym (rw q) ∙ e) in
        ap (λ (z : Snapshot D). seq_le z.book.log_seq seq) (sym same) ∙ q
    | inr q ↦ absurd (ground (arith, e, q))
  ]

  idle-Reached : (c : Committer D) → Reached (idle c)
  idle-Reached c s e = absurd (cc)

  -- While the store takes the logs, the committer handles any message without a panic, and it
  -- approves a snapshot only if its own sequence has then reached that of the snapshot.
  pub on_commit_message_approves :
      (c : Committer D) (e : CommitMessage D)
      → (r : Committed D) × (on_commit_message c e ≡ some r)
        × ((s : Snapshot D) → r.approved ≡ some s → seq_le s.book.log_seq (r.committer).seq ≡ true)
  unfolding on_log on_approve_request
  on_commit_message_approves c (approve_message s) =
      elim (Bool-cases (seq_le s.book.log_seq c.seq)) [
        | inl q ↦ (
          record { committer = record c { pending = none }; stored = []; approved = some s },
          rw (on_approve_request, q),
          λ z e. ap (λ (y : Snapshot D). seq_le y.book.log_seq c.seq) (sym (some_inj e)) ∙ q,
        )
        | inr q ↦ (
          idle (record c { pending = some s }),
          rw (on_approve_request, q),
          idle-Reached (record c { pending = some s }),
        )
      ]
  on_commit_message_approves c (log_message l waiting) =
      elim (Bool-cases (seq_le (get_seq l) c.seq)) [
        | inl old ↦ (idle c, rw (on_log, old), idle-Reached c)
        | inr beyond ↦ elim (Bool-cases (ltb 0 waiting && ltb (length (c.logs ++ l ∷ [])) 100)) [
          | inl wait ↦ (
            idle (record c { seq = get_seq l; logs = c.logs ++ l ∷ [] }),
            rw (on_log, beyond, wait),
            idle-Reached (record c { seq = get_seq l; logs = c.logs ++ l ∷ [] }),
          )
          | inr flush ↦ (
            approve_pending (get_seq l) c.pending (c.logs ++ l ∷ []),
            rw (on_log, beyond, flush),
            pending-Reached (get_seq l) c.pending (c.logs ++ l ∷ []),
          )
        ]
      ]
