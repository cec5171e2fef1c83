-- ===== src/Matching/Engine/Commit.antt =====
-- The committer of matching/engine.go: what reaches the log store, whatever the batches.
use cheetah_exchange.Prelude.{
  ℕ, ◌≡◌, refl, sym, ap, ◌∙◌, true, false, ◌&&◌, Option, none, some, ◌⊎◌, List, [], ◌∷◌, ◌++◌, inl,
  inr, Bool-cases, if◌then◌else◌, ltb, length,
}
use mathlib.Core.List.{append-nil, append_assoc}
use cheetah_exchange.Matching.Log.{Log, get_seq}
use cheetah_exchange.Matching.Engine.{
  Snapshot, Committer, Committed, CommitMessage, log_message, approve_message, seq_le,
  approve_pending, on_log, on_approve_request, commit_all, idle,
}

module _ {D : Type 0} where
  -- The logs among the messages.
  abbrev pub logs_in : List (CommitMessage D) → List (Log D)
  logs_in [] = []
  logs_in (log_message l waiting ∷ es) = l ∷ logs_in es
  logs_in (approve_message s ∷ es) = logs_in es

  -- The logs that are beyond the sequence, and beyond each one that is kept before them.
  unfoldable pub fresh_logs : ℕ → List (Log D) → List (Log D)
  fresh_logs s [] = []
  fresh_logs s (l ∷ ls) =
      let skipped = fresh_logs s ls in
      let kept = fresh_logs (get_seq l) ls in if seq_le (get_seq l) s then skipped else l ∷ kept

  -- Every log is beyond the one before it.
  abbrev pub Rising : ℕ → List (Log D) → Type 0
  Rising s [] = Unit
  Rising s (l ∷ ls) = (seq_le (get_seq l) s ≡ false) × Rising (get_seq l) ls

  pub fresh_logs-Rising : (s : ℕ) (ls : List (Log D)) → Rising s (fresh_logs s ls)
  unfolding fresh_logs
  fresh_logs-Rising s [] = tt
  fresh_logs-Rising s (l ∷ ls) = elim (Bool-cases (seq_le (get_seq l) s)) [
    | inl old ↦ rw (old, fresh_logs) (fresh_logs-Rising s ls)
    | inr beyond ↦ rw (beyond, fresh_logs) (beyond, fresh_logs-Rising (get_seq l) ls)
  ]

  -- What the committer has stored and what it holds back are the logs that it held back before,
  -- and then the fresh ones.
  abbrev pub Keeps : Committer D → List (Log D) → List (Log D) → Committer D → Type 0
  Keeps c incoming stored c' = stored ++ c'.logs ≡ c.logs ++ fresh_logs c.seq incoming

  abbrev One : Committer D → Log D → Committed D → Type 0
  One c l r =
      ((seq_le (get_seq l) c.seq ≡ true) × (r.committer ≡ c) × (r.stored ≡ []))
      ⊎ ((seq_le (get_seq l) c.seq ≡ false)
          × ((r.committer).seq ≡ get_seq l)
          × (r.stored ++ (r.committer).logs ≡ c.logs ++ l ∷ []))

  takes_log :
      (c : Committer D) (l : Log D) (waiting : ℕ)
      → (r : Committed D) × (on_log c l waiting true ≡ some r) × One c l r
  unfolding on_log
  takes_log c l waiting = elim (Bool-cases (seq_le (get_seq l) c.seq)) [
    | inl old ↦ (idle c, rw (old, on_log), inl (old, refl, refl))
    | inr beyond ↦ elim (Bool-cases (ltb 0 waiting && ltb (length (c.logs ++ l ∷ [])) 100)) [
      | inl wait ↦ (
        idle (record c { seq = get_seq l; logs = c.logs ++ l ∷ [] }),
        rw (beyond, on_log, wait),
        inr (beyond, refl, refl),
      )
      | inr flush ↦ (
        approve_pending (get_seq l) c.pending (c.logs ++ l ∷ []),
        rw (beyond, on_log, flush),
        (let (reached, batch) = flushed c.pending in inr (beyond, reached, batch)),
      )
    ]
  ]
    where
      flushed :
          (p : Option (Snapshot D))
          → ((approve_pending (get_seq l) p (c.logs ++ l ∷ [])).committer.seq ≡ get_seq l)
            × ((approve_pending (get_seq l) p (c.logs ++ l ∷ [])).stored
                  ++ (approve_pending (get_seq l) p (c.logs ++ l ∷ [])).committer.logs
                ≡ c.logs ++ l ∷ [])
      flushed none = (refl, append-nil (c.logs ++ l ∷ []))
      flushed (some s) = (refl, append-nil (c.logs ++ l ∷ []))

  asked_lem :
      (c : Committer D) (s : Snapshot D)
      → ((on_approve_request c s).stored ≡ [])
        × ((on_approve_request c s).committer.logs ≡ c.logs)
        × ((on_approve_request c s).committer.seq ≡ c.seq)
  unfolding on_approve_request
  asked_lem c s = elim (Bool-cases (seq_le s.book.log_seq c.seq)) [
    | inl q ↦ (rw (q, on_approve_request), rw (q, on_approve_request), rw (q, on_approve_request))
    | inr q ↦ (rw (q, on_approve_request), rw (q, on_approve_request), rw (q, on_approve_request))
  ]

  joined :
      (c c' : Committer D) (l : Log D) (ls stored later : List (Log D)) (r : Committed D)
      → One c l r
      → Keeps r.committer ls later c'
      → stored ≡ r.stored ++ later
      → Keeps c (l ∷ ls) stored c'
  unfolding fresh_logs
  joined c c' l ls stored later r (inl (old, same, nothing)) k e =
      rw (old, fresh_logs, e, nothing) (rw (← same) k)
  joined c c' l ls stored later r (inr (beyond, reached, batch)) k e =
      rw (beyond, fresh_logs, e)
        (append_assoc r.stored later c'.logs
          ∙ (ap (λ (z : List (Log D)). r.stored ++ z) k
              ∙ (sym (append_assoc r.stored (r.committer).logs (fresh_logs (r.committer).seq ls))
                  ∙ (ap (λ (z : List (Log D)). z ++ fresh_logs (r.committer).seq ls) batch
                      ∙ (ap (λ (s : ℕ). (c.logs ++ l ∷ []) ++ fresh_logs s ls) reached
                          ∙ append_assoc c.logs (l ∷ []) (fresh_logs (get_seq l) ls))))))

  -- While the store takes every batch, the committer never panics, and however the messages are
  -- batched, and whatever snapshots are asked for, the logs that it has stored and those that it
  -- still holds back are those that it held back before and then the fresh ones, in their order.
  pub commit_all_lem :
      (c : Committer D) (es : List (CommitMessage D))
      → (stored : List (Log D)) × (c' : Committer D) × (commit_all c es ≡ some (stored, c'))
        × (stored ++ c'.logs ≡ c.logs ++ fresh_logs c.seq (logs_in es))
  unfolding commit_all fresh_logs
  commit_all_lem c [] = ([], c, refl, sym (append-nil c.logs))
  commit_all_lem c (log_message l waiting ∷ es) =
      let (r, e, one) = takes_log c l waiting in
      let (later, c', run, k) = commit_all_lem r.committer es in
      (
        r.stored ++ later,
        c',
        rw (commit_all, e, run),
        joined c c' l (logs_in es) (r.stored ++ later) later r one k refl,
      )
  commit_all_lem c (approve_message s ∷ es) =
      let (nothing, same, reached) = asked_lem c s in
      let (later, c', run, k) = commit_all_lem (on_approve_request c s).committer es in
      (later, c', rw (commit_all, run, nothing), k ∙ rw (same, reached))
