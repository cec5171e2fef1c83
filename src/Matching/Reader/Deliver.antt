-- ===== src/Matching/Reader/Deliver.antt =====
-- What matching/kafka_log_reader.go delivers: each log once, in order, without a gap.
use cheetah_exchange.Prelude.{
  ℕ, ◌+◌, ◌<◌, ◌^◌, ◌≡◌, refl, ◌∙◌, true, false, List, [], ◌∷◌, ◌++◌, arith, ◌⊎◌, inl, inr, All,
  map, ◌==◌, ==→≡, Bool-cases,
}
use cheetah_exchange.Matching.Log.{Log, get_seq}
use cheetah_exchange.Matching.Log.Sequence.{Numbered, last_seq}
use cheetah_exchange.Matching.Book.{next_seq}
use cheetah_exchange.Matching.Engine.{seq_le}
use cheetah_exchange.Matching.Reader.{
  BookMessage, not_json, known_log, unknown_log, Read, waiting, discard, deliver, gap, reading,
  read_all, deliver_first,
}

-- How a message reads.
reading_cases :
    (last seq : ℕ)
    → ((reading last seq ≡ discard) × (seq_le seq last ≡ true))
      ⊎ ((reading last seq ≡ gap)
          ⊎ ((reading last seq ≡ deliver)
              × (seq_le seq last ≡ false)
              × ((seq_le last 0 ≡ true) ⊎ (seq ≡ next_seq last))))
unfolding reading
reading_cases last seq = elim (Bool-cases (seq_le seq last)) [
  | inl old ↦ inl (rw (reading, old), old)
  | inr beyond ↦ elim (Bool-cases (seq_le last 0)) [
    | inl start ↦ inr (inr (rw (reading, beyond, start), beyond, inl start))
    | inr running ↦ elim (Bool-cases (seq == next_seq last)) [
      | inl next ↦
          inr
            (inr (rw (reading, beyond, running, next), beyond, inr (==→≡ seq (next_seq last) next)))
      | inr jump ↦ inr (inl (rw (reading, beyond, running, jump)))
    ]
  ]
]

-- A sequence that int64 holds as a positive number.
abbrev pub IsPositiveSeq : ℕ → Type 0
IsPositiveSeq s = (0 < s) × (s < 2 ^ 63)

module _ {D : Type 0} where
  -- The messages of these logs.
  abbrev pub messages : List (Log D) → List (BookMessage D)
  messages = map known_log

  -- A message is of a known type with a positive sequence, or is no JSON.
  abbrev pub IsKnown : BookMessage D → Type 0
  IsKnown not_json = Unit
  IsKnown (known_log l) = IsPositiveSeq (get_seq l)
  IsKnown (unknown_log seq) = ⊥

  -- What has reached the observer is numbered on from a sequence, and the reader stands at its end.
  abbrev pub ReadsOn : ℕ → Read D → Type 0
  ReadsOn s (got, last, ending) = Numbered s got × (last ≡ last_seq s got)

  -- Once a positive sequence has been read, whatever the topic holds, repeats, gaps and broken texts
  -- included, the logs that have reached the observer, before a crash too, are numbered without a
  -- gap from there on, and the reader's last sequence is that of the last of them: if the sequences
  -- are positive and every message that is JSON is of a known type.
  pub read_all-Numbered :
      (s : ℕ) (es : List (BookMessage D))
      → IsPositiveSeq s
      → All (λ e. IsKnown e) es
      → ReadsOn s (read_all s es)
  unfolding read_all
  read_all-Numbered s [] pos h = (tt, refl)
  read_all-Numbered s (not_json ∷ es) pos h = (tt, refl)
  read_all-Numbered s (unknown_log seq ∷ es) pos h = absurd h.0
  read_all-Numbered s (known_log l ∷ es) pos h = elim (reading_cases s (get_seq l)) [
    | inl (r, _) ↦ rw (read_all, r) (read_all-Numbered s es pos h.1)
    | inr (inl r) ↦ rw (read_all, r) (tt, refl)
    | inr (inr (r, beyond, inl start)) ↦ absurd (ground (arith, start, pos))
    | inr (inr (r, beyond, inr next)) ↦
        let later = read_all-Numbered (get_seq l) es h.0 h.1 in
        rw (read_all, r) ((next, later.0), later.1)
  ]

  -- Logs numbered on from a sequence, none of which is beyond the last of them.
  replayed :
      (s last : ℕ) (xs : List (Log D))
      → Numbered s xs
      → last_seq s xs ≡ last
      → s < 2 ^ 63
      → All (λ l. IsPositiveSeq (get_seq l)) xs
      → (s + 0 < last + 1) × All (λ l. get_seq l < last + 1) xs
  replayed s last [] n e small h = (omega (arith, e), tt)
  replayed s last (l ∷ xs) n e small h =
      let (low, rest) = replayed (get_seq l) last xs n.1 e h.0.1 h.1 in
      (omega (arith, n.0), (omega arith, rest))

  skip_old :
      (s : ℕ) (xs ys : List (Log D))
      → s < 2 ^ 63
      → All (λ l. get_seq l < s + 1) xs
      → read_all s (messages (xs ++ ys)) ≡ read_all s (messages ys)
  unfolding read_all reading
  skip_old s [] ys small h = refl
  skip_old s (l ∷ xs) ys small h =
      rw (old_read (get_seq l) s h.0 small, read_all) (skip_old s xs ys small h.1)
    where
      old_read : (seq last : ℕ) → seq < last + 1 → last < 2 ^ 63 → reading last seq ≡ discard
      old_read seq last low small = ground arith

  read_new :
      (s : ℕ) (ys : List (Log D))
      → s < 2 ^ 63
      → Numbered s ys
      → All (λ l. IsPositiveSeq (get_seq l)) ys
      → read_all s (messages ys) ≡ (ys, last_seq s ys, waiting)
  unfolding read_all reading
  read_new s [] small n h = refl
  read_new s (l ∷ ys) small n h = rw (
    new_read (get_seq l) s n.0 small h.0,
    read_all,
    read_new (get_seq l) ys h.0.1 n.1 h.1,
    deliver_first,
  )
    where
      new_read :
          (seq last : ℕ)
          → seq ≡ next_seq last
          → last < 2 ^ 63
          → IsPositiveSeq seq
          → reading last seq ≡ deliver
      new_read seq last e small pos = ground arith

  -- A reader that has read the first part of the topic, and begins at its start again, delivers
  -- exactly the second part and waits for more, when the topic is numbered without a gap within int64.
  pub read_all_resumes :
      (s : ℕ) (xs ys : List (Log D))
      → s < 2 ^ 63
      → Numbered s xs
      → Numbered (last_seq s xs) ys
      → All (λ l. IsPositiveSeq (get_seq l)) xs
      → All (λ l. IsPositiveSeq (get_seq l)) ys
      → read_all (last_seq s xs) (messages (xs ++ ys)) ≡ (ys, last_seq (last_seq s xs) ys, waiting)
  read_all_resumes s xs ys small n k h g =
      let last_small = last_seq_small s xs small h in
      skip_old (last_seq s xs) xs ys last_small (replayed s (last_seq s xs) xs n refl small h).1
      ∙ read_new (last_seq s xs) ys last_small k g
    where
      last_seq_small :
          (s : ℕ) (xs : List (Log D))
          → s < 2 ^ 63
          → All (λ l. IsPositiveSeq (get_seq l)) xs
          → last_seq s xs < 2 ^ 63
      last_seq_small s [] small h = small
      last_seq_small s (l ∷ xs) small h = last_seq_small (get_seq l) xs h.0.1 h.1
