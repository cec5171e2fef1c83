-- ===== src/Pushing/Changes/Delivery.antt =====
-- What a client of `runL2ChangeWriter` (pushing/client.go) receives: a book, and behind it the
-- changes of the book with none missing and none twice.
use cheetah_exchange.Prelude.{
  ℕ, zero, suc, ◌+◌, ◌≤◌, ◌<◌, ◌≡◌, ◌≢◌, true, false, Option, none, some, List, [], ◌∷◌, ◌++◌, map,
  if◌then◌else◌, ◌⊎◌, ◌==◌,
}
use cheetah_exchange.Pushing.PriceBook.{Change, Level2Snapshot}
use cheetah_exchange.Pushing.Changes.{
  WriterState, Incoming, Message, snapshot_message, update_message, row_of, update_size,
}

module _ {D : Type 0} where
  abbrev pub message_product : Message D → ℕ
  message_product (snapshot_message product_id bids asks) = product_id
  message_product (update_message product_id rows) = product_id

  abbrev pub of_product : ℕ → List (Message D) → List (Message D)
  of_product p [] = []
  of_product p (m ∷ ms) =
      let rest = of_product p ms in if message_product m == p then m ∷ rest else rest

  -- The k changes behind number n.
  abbrev pub run_of : (ℕ → Change D) → ℕ → ℕ → List (Change D)
  run_of feed n zero = []
  run_of feed n (suc k) = run_of feed n k ++ feed (n + suc k) ∷ []

-- The number up to which a client knows a book, and a later one.
abbrev pub IsNewer : Option ℕ → ℕ → Type 0
IsNewer none n = Unit
IsNewer (some m) n = m ≤ n

-- What a client receives of a product moves the number up to which it knows the book: a snapshot to
-- its own, which is not older, and an update over the changes from there on.
pub data Follows {D : Type 0} (feed : ℕ → Change D) (books : ℕ → Level2Snapshot D) (p : ℕ)
    : Option ℕ → List (Message D) → Option ℕ → Type 0 where
  silent : {s : Option ℕ} → Follows feed books p s [] s
  book :
      {s t : Option ℕ} {ms : List (Message D)} (n : ℕ)
      → IsNewer s n
      → Follows feed books p (some n) ms t
      → Follows feed books p s (snapshot_message p (books n).bids (books n).asks ∷ ms) t
  update :
      {t : Option ℕ} {ms : List (Message D)} (n k : ℕ)
      → k ≤ update_size
      → Follows feed books p (some (n + k)) ms t
      → Follows feed books p (some n) (update_message p (map row_of (run_of feed n k)) ∷ ms) t

module _ {D : Type 0} (feed : ℕ → Change D) (books : ℕ → Level2Snapshot D) where
  pub Follows-append :
      {p : ℕ} {s t u : Option ℕ} {ms ns : List (Message D)}
      → Follows feed books p s ms t
      → Follows feed books p t ns u
      → Follows feed books p s (ms ++ ns) u
  Follows-append silent g = g
  Follows-append (book n h f) g = book n h (Follows-append f g)
  Follows-append (update n k h f) g = update n k h (Follows-append f g)

  -- A change with a number is the feed's, and a snapshot is the book's at its number.
  pub record IsFed (e : Incoming D) : Type 0 where
    pub numbered : e.change.seq ≢ 0 → e.change ≡ feed e.change.seq
    pub pictured : (snap : Level2Snapshot D) → e.last_snapshot ≡ some snap → snap ≡ books snap.seq

module _ {D : Type 0} (feed : ℕ → Change D) where
  -- What the writer keeps of a product whose client knows the book up to a number: either it wants
  -- a snapshot, or it holds the changes behind that number, fewer than make an update.
  abbrev pub IsAt : Option ℕ → WriterState D → Type 0
  IsAt shown s =
      ((s.resend_snapshot ≡ true) × (s.changes ≡ []) × IsNewer shown s.last_seq)
      ⊎ ((n : ℕ) × (k : ℕ) × (s.resend_snapshot ≡ false)
          × (shown ≡ some n)
          × (s.changes ≡ run_of feed n k)
          × (k < update_size)
          × (s.last_seq ≡ n + k))
