-- ===== src/Matching/Engine.antt =====
-- matching/engine.go: the applier, which runs an order on the book, and the committer, which
-- stores the logs and approves snapshots. Each is a function on one message of its channels;
-- `none` is a panic or `log.Fatal`. Sequence numbers are int64 as bit patterns.
use cheetah_exchange.Prelude.{
  ℕ, ◌+◌, ◌%◌, ◌^◌, Bool, true, false, not, ◌&&◌, ◌||◌, Option, none, some, List, [], ◌∷◌, ◌++◌,
  if◌then◌else◌, ltb, leb, length,
}
use cheetah_exchange.Extern.Decimal.{Decimal}
use cheetah_exchange.Extern.TreeMap.{TreeMap}
use cheetah_exchange.Models.{
  Order, OrderStatus, cancelling, TimeInForce, good_till_canceled, immediate_or_cancel,
  good_till_crossing, fill_or_kill, other_force,
}
use cheetah_exchange.Matching.Window.{u64}
use cheetah_exchange.Matching.Log.{Log, get_seq}
use cheetah_exchange.Matching.Depth.{Key}
use cheetah_exchange.Matching.Book.{Book}
use cheetah_exchange.Matching.Apply.Recover.{BookSnapshot, snapshot, restore}
use cheetah_exchange.Matching.Apply.{
  apply_order, cancel_order, nullify_order, is_order_will_not_match, is_order_will_full_match,
  prepend,
}
pub mod Dispatch
pub mod Fewer
pub mod Again
pub mod Uncrossed
pub mod Commit
pub mod Force
pub mod Approve

abbrev pub is_cancelling : OrderStatus → Bool
is_cancelling cancelling = true
is_cancelling _ = false

-- `a <= b` on int64.
abbrev pub seq_le : ℕ → ℕ → Bool
seq_le a b = leb ((a + 2 ^ 63) % u64) ((b + 2 ^ 63) % u64)

-- `Snapshot`: the state of the book behind the order at an offset.
pub record Snapshot (D : Type 0) : Type 0 where
  pub book : BookSnapshot D
  pub order_offset : ℕ

-- What the applier keeps.
pub record Applier (D Q : Type 0) : Type 0 where
  pub book : Book D Q
  pub order_offset : ℕ

module _ {D Q : Type 0} ⦃d : Decimal D⦄ ⦃t : TreeMap (Key D) ℕ Q⦄ where
  -- An order that is checked first: applied if the check says so, and else nullified.
  abbrev pub apply_if : Option Bool → Book D Q → Order D → Option (List (Log D) × Book D Q)
  apply_if none b o = none
  apply_if (some true) b o = apply_order b o
  apply_if (some false) b o = nullify_order b o

  -- `ApplyOrder`, then `CancelOrder` for what is left of the order.
  abbrev pub cancel_rest :
      Option (List (Log D) × Book D Q) → Order D → Option (List (Log D) × Book D Q)
  cancel_rest none o = none
  cancel_rest (some (logs, b)) o = prepend logs (cancel_order b o)

  unfoldable pub apply_by_force :
      TimeInForce → Book D Q → Order D → Option (List (Log D) × Book D Q)
  apply_by_force immediate_or_cancel b o = cancel_rest (apply_order b o) o
  apply_by_force good_till_crossing b o = apply_if (is_order_will_not_match b o) b o
  apply_by_force fill_or_kill b o = apply_if (is_order_will_full_match b o) b o
  apply_by_force good_till_canceled b o = apply_order b o
  apply_by_force other_force b o = some ([], b)

  -- One order of the channel.
  unfoldable pub apply_or_cancel : Book D Q → Order D → Option (List (Log D) × Book D Q)
  unfolding apply_by_force
  apply_or_cancel b o =
      if is_cancelling o.status then cancel_order b o else apply_by_force o.time_in_force b o

  -- Every order that is fetched, in turn.
  unfoldable pub apply_orders : Book D Q → List (Order D) → Option (List (Log D) × Book D Q)
  unfolding apply_or_cancel
  apply_orders b [] = some ([], b)
  apply_orders b (o ∷ os) = elim (apply_or_cancel b o) [
    | none ↦ none
    | some (logs, b') ↦ prepend logs (apply_orders b' os)
  ]

  -- `case offsetOrder := <-e.orderCh`
  unfoldable pub on_order : Applier D Q → ℕ → Order D → Option (List (Log D) × Applier D Q)
  unfolding apply_or_cancel
  on_order a offset o = elim (apply_or_cancel a.book o) [
    | none ↦ none
    | some (logs, b) ↦ some (logs, record { book = b; order_offset = offset })
  ]

  -- `case snapshot := <-e.snapshotReqCh`: a snapshot only if more than 1000 orders have gone by.
  unfoldable pub on_snapshot_request : Applier D Q → ℕ → Option (Snapshot D)
  unfolding snapshot
  on_snapshot_request a last_offset =
      if leb a.order_offset (last_offset + 1000)
      then none
      else some (record { book = snapshot a.book; order_offset = a.order_offset })

  -- `NewEngine` with the snapshot that the store has, if any.
  unfoldable pub restore_engine : Book D Q → Option (Snapshot D) → Option (Applier D Q)
  unfolding restore
  restore_engine b none = some (record { book = b; order_offset = 0 })
  restore_engine b (some s) = elim (restore b s.book) [
    | none ↦ none
    | some b' ↦ some (record { book = b'; order_offset = s.order_offset })
  ]

-- Where `runFetcher` begins to read.
abbrev pub fetch_offset : ℕ → ℕ
fetch_offset offset = if ltb 0 offset then offset + 1 else offset

-- What the committer keeps.
pub record Committer (D : Type 0) : Type 0 where
  pub seq : ℕ
  pub pending : Option (Snapshot D)
  pub logs : List (Log D)

-- What one message makes the committer do.
pub record Committed (D : Type 0) : Type 0 where
  pub committer : Committer D
  pub stored : List (Log D)
  pub approved : Option (Snapshot D)

-- What reaches the committer: a log, with the number of logs that wait behind it, or a snapshot.
pub data CommitMessage (D : Type 0) : Type 0 where
  log_message : Log D → ℕ → CommitMessage D
  approve_message : Snapshot D → CommitMessage D

module _ {D : Type 0} where
  abbrev pub idle : Committer D → Committed D
  idle c = record { committer = c; stored = []; approved = none }

  -- Behind a store: the pending snapshot is approved once the sequence has reached it.
  abbrev pub approve_pending : ℕ → Option (Snapshot D) → List (Log D) → Committed D
  approve_pending seq none logs = record {
    committer = record { seq = seq; pending = none; logs = [] };
    stored = logs;
    approved = none;
  }
  approve_pending seq (some s) logs =
      let reached = seq_le s.book.log_seq seq in
      record {
        committer = record { seq = seq; pending = if reached then none else some s; logs = [] };
        stored = logs;
        approved = if reached then some s else none;
      }

  -- `case log := <-e.logCh`, with the number of logs that wait in the channel and whether the
  -- store takes the logs.
  unfoldable pub on_log : Committer D → Log D → ℕ → Bool → Option (Committed D)
  on_log c l waiting store_ok =
      let logs = c.logs ++ l ∷ [] in
      if seq_le (get_seq l) c.seq
      then some (idle c)
      else if ltb 0 waiting && ltb (length logs) 100
      then some (idle (record c { seq = get_seq l; logs = logs }))
      else if store_ok
      then some (approve_pending (get_seq l) c.pending logs)
      else none

  -- `case snapshot := <-e.snapshotApproveReqCh`
  unfoldable pub on_approve_request : Committer D → Snapshot D → Committed D
  on_approve_request c s =
      if seq_le s.book.log_seq c.seq
      then record { committer = record c { pending = none }; stored = []; approved = some s }
      else idle (record c { pending = some s })

  abbrev pub on_commit_message : Committer D → CommitMessage D → Option (Committed D)
  on_commit_message c (log_message l waiting) = on_log c l waiting true
  on_commit_message c (approve_message s) = some (on_approve_request c s)

  abbrev pub store_first :
      List (Log D) → Option (List (Log D) × Committer D) → Option (List (Log D) × Committer D)
  store_first logs none = none
  store_first logs (some (stored, c)) = some (logs ++ stored, c)

  -- What is stored while these messages come, when the store takes all logs.
  unfoldable pub commit_all :
      Committer D → List (CommitMessage D) → Option (List (Log D) × Committer D)
  unfolding on_log on_approve_request
  commit_all c [] = some ([], c)
  commit_all c (e ∷ es) = elim (on_commit_message c e) [
    | none ↦ none
    | some r ↦ store_first r.stored (commit_all r.committer es)
  ]
