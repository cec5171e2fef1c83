-- ===== src/Matching/Reader.antt =====
-- The loop of `Run` in matching/kafka_log_reader.go, on the messages that are fetched. A fetch that
-- fails is tried again and is left out; a message that is not valid JSON panics. `crashed` is that
-- panic, or the `Fatalf` at a gap. A log of an unknown type is passed over.
use cheetah_exchange.Prelude.{
  ℕ, ◌≡◌, Bool, not, ◌&&◌, Option, none, some, List, [], ◌∷◌, ◌++◌, if◌then◌else◌, ◌==◌,
}
use cheetah_exchange.Matching.Log.{Log, get_seq}
use cheetah_exchange.Matching.Book.{next_seq}
use cheetah_exchange.Matching.Engine.{seq_le}
pub mod Deliver

-- A message of the topic, decoded.
pub data BookMessage (D : Type 0) : Type 0 where
  not_json : BookMessage D
  known_log : Log D → BookMessage D
  unknown_log : ℕ → BookMessage D

module _ {D : Type 0} where
  -- `base.Sequence`
  abbrev pub base_seq : BookMessage D → Option ℕ
  base_seq not_json = none
  base_seq (known_log l) = some (get_seq l)
  base_seq (unknown_log seq) = some seq

  -- What the observer is called with.
  abbrev pub observed : BookMessage D → List (Log D)
  observed (known_log l) = l ∷ []
  observed _ = []

-- What becomes of a message with a sequence, behind the last one.
pub data Reading : Type 0 where
  discard deliver gap : Reading

unfoldable pub reading : ℕ → ℕ → Reading
reading last_seq seq =
    if seq_le seq last_seq
    then discard
    else if not (seq_le last_seq 0) && not (seq == next_seq last_seq)
    then gap
    else deliver

-- Whether the reader waits for more messages, or has crashed.
pub data Ending : Type 0 where
  waiting crashed : Ending

-- What the observer has been called with, the last sequence, and how the reader goes on.
abbrev pub Read : Type 0 → Type 0
Read D = List (Log D) × ℕ × Ending

module _ {D : Type 0} where
  abbrev pub deliver_first : List (Log D) → Read D → Read D
  deliver_first ls (rest, last, ending) = (ls ++ rest, last, ending)

  -- The reader while these messages come; what was delivered before a crash stays delivered.
  unfoldable pub read_all : ℕ → List (BookMessage D) → Read D
  unfolding reading
  read_all last_seq [] = ([], last_seq, waiting)
  read_all last_seq (e ∷ es) = elim (base_seq e) [
    | none ↦ ([], last_seq, crashed)
    | some seq ↦
        let skipped = read_all last_seq es in
        let rest = read_all seq es in
        elim (reading last_seq seq) [
          | discard ↦ skipped
          | gap ↦ ([], last_seq, crashed)
          | deliver ↦ deliver_first (observed e) rest
        ]
  ]
