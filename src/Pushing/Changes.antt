-- ===== src/Pushing/Changes.antt =====
-- `runL2ChangeWriter` of pushing/client.go: it turns the changes of the books that a client follows
-- into one snapshot of each book and updates behind it. A change is met with the snapshot that
-- `getLastLevel2Snapshot` gives at that time, and with the number of changes that still wait in
-- `c.l2ChangeCh`. A send into a full channel blocks in the source, and here it does not.
use cheetah_exchange.Prelude.{
  ℕ, ◌+◌, Bool, true, false, ◌&&◌, ◌||◌, not, Option, none, some, List, [], ◌∷◌, ◌++◌, map, length,
  if◌then◌else◌, ltb, leb, ◌==◌,
}
use cheetah_exchange.Prelude.Ids.{IdMap, lookup, insert}
use cheetah_exchange.Models.{Side}
use cheetah_exchange.Pushing.PriceBook.{PriceLevel, Change, Level2Snapshot}
pub mod Delivery
pub mod Steps
pub mod Stream
pub mod Repair

-- The limit on the changes of one update.
abbrev pub update_size : ℕ
update_size = 10

-- `state`, which the writer keeps for each product.
pub record WriterState (D : Type 0) : Type 0 where
  pub resend_snapshot : Bool
  pub changes : List (Change D)
  pub last_seq : ℕ

-- A message from `c.l2ChangeCh`, with what the writer reads beside it.
pub record Incoming (D : Type 0) : Type 0 where
  pub product_id : ℕ
  pub change : Change D
  pub last_snapshot : Option (Level2Snapshot D)
  pub queued : ℕ

-- The rows of `Level2UpdateMessage`: side, price and size.
abbrev pub Row : Type 0 → Type 0
Row D = Side × D × D

-- What goes to `c.writeCh`.
pub data Message (D : Type 0) : Type 0 where
  snapshot_message : ℕ → List (PriceLevel D) → List (PriceLevel D) → Message D
  update_message : ℕ → List (Row D) → Message D

-- What the writer does with a message: its product's state, what it sends to the client, and
-- whether it puts a change without a sequence number into its own channel.
pub record Turn (D : Type 0) : Type 0 where
  pub state : WriterState D
  pub sent : List (Message D)
  pub asks : Bool

module _ {D : Type 0} where
  abbrev pub fresh_state : WriterState D
  fresh_state = record { resend_snapshot = true; changes = []; last_seq = 0 }

  abbrev pub state_of : ℕ → IdMap (WriterState D) → WriterState D
  state_of product_id states = elim (lookup product_id states) [ none ↦ fresh_state | some s ↦ s ]

  abbrev pub row_of : Change D → Row D
  row_of c = (c.side, c.price, c.size)

  abbrev pub quiet : WriterState D → Turn D
  quiet s = record { state = s; sent = []; asks = false }

  unfoldable pub send_snapshot : Incoming D → WriterState D → Turn D
  send_snapshot e s = elim e.last_snapshot [
    | none ↦ quiet s
    | some snap ↦ if ltb snap.seq s.last_seq then quiet s else record {
      state = record s { last_seq = snap.seq; resend_snapshot = false };
      sent = snapshot_message e.product_id snap.bids snap.asks ∷ [];
      asks = false;
    }
  ]

  -- A sequence number is missing: what waits is dropped, and a snapshot is wanted.
  abbrev pub lose_track : Incoming D → Turn D
  lose_track e = record {
    state = record { resend_snapshot = true; changes = []; last_seq = e.change.seq };
    sent = [];
    asks = e.queued == 0;
  }

  unfoldable pub add_change : Incoming D → WriterState D → Turn D
  add_change e s =
      let changes = s.changes ++ e.change ∷ [] in
      let s' : WriterState D = record s { last_seq = e.change.seq; changes = changes } in
      if ltb 0 e.queued && ltb (length changes) update_size then quiet s' else record {
        state = record s' { changes = [] };
        sent = update_message e.product_id (map row_of changes) ∷ [];
        asks = false;
      }

  unfoldable pub handle_change : Incoming D → WriterState D → Turn D
  handle_change e s =
      if s.resend_snapshot || e.change.seq == 0
      then send_snapshot e s
      else if leb e.change.seq s.last_seq
      then quiet s
      else if not (e.change.seq == s.last_seq + 1)
      then lose_track e
      else add_change e s

  -- The body of the loop, over the states of all products.
  unfoldable pub write_change : Incoming D → IdMap (WriterState D) → IdMap (WriterState D) × Turn D
  write_change e states =
      let turn = handle_change e (state_of e.product_id states) in
      (insert e.product_id turn.state states, turn)

  -- The loop, for what the channel hands over in turn: what the writer itself puts there is among it.
  unfoldable pub write_changes :
      List (Incoming D) → IdMap (WriterState D) → IdMap (WriterState D) × List (Message D)
  write_changes [] states = (states, [])
  write_changes (e ∷ es) states =
      let (states', turn) = write_change e states in
      let (states'', more) = write_changes es states' in (states'', turn.sent ++ more)
