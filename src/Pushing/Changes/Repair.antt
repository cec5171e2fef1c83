-- ===== src/Pushing/Changes/Repair.antt =====
-- A lost change in `runL2ChangeWriter` (pushing/client.go), and how the gap is repaired.
use cheetah_exchange.Prelude.{
  ℕ, ◌+◌, ◌≤◌, ◌<◌, ◌≡◌, refl, subst, sym, false, true, lt→ltb, le→ltb, some, Option-cases, ◌∙◌, ap,
  List, [], ◌∷◌, ◌++◌, arith, ◌==◌, ==_refl, ==→≡, ==→≢, Bool-cases, inl, inr, All,
}
use cheetah_exchange.Prelude.Ids.{IdMap, insert}
use cheetah_exchange.Pushing.PriceBook.{Level2Snapshot}
use cheetah_exchange.Pushing.Changes.{
  WriterState, Incoming, Message, Turn, snapshot_message, send_snapshot, handle_change, state_of,
  write_change, write_changes, lose_track,
}
use cheetah_exchange.Pushing.Changes.Delivery.{of_product}
use cheetah_exchange.Pushing.Changes.Stream.{
  of_product-append, of_product-own, of_product-others, sent_about, state_of-insert,
}

module _ {D : Type 0} where
  -- A message that comes when no snapshot of the given number or a later one is stored.
  abbrev pub IsEarly : ℕ → Incoming D → Type 0
  IsEarly n e = (snap : Level2Snapshot D) → e.last_snapshot ≡ some snap → snap.seq < n

  abbrev lost_at : ℕ → WriterState D
  lost_at n = record { resend_snapshot = true; changes = []; last_seq = n }

  abbrev going_at : ℕ → WriterState D
  going_at n = record { resend_snapshot = false; changes = []; last_seq = n }

  loses :
      (e : Incoming D) (s : WriterState D)
      → s.resend_snapshot ≡ false
      → s.last_seq + 1 < e.change.seq
      → handle_change e s ≡ lose_track e
  unfolding handle_change
  loses e s going gap = ground arith

  early_quiet :
      (e : Incoming D) (n : ℕ)
      → IsEarly n e
      → ((handle_change e (lost_at n)).sent ≡ [])
        × ((handle_change e (lost_at n)).state ≡ lost_at n)
  unfolding handle_change send_snapshot
  early_quiet e n early = elim (Option-cases e.last_snapshot) [
    | inl absent ↦ (rw (send_snapshot, absent) refl, rw (send_snapshot, absent) refl)
    | inr (snap, stored) ↦
        let older = lt→ltb snap.seq n (early snap stored) in
        (rw (send_snapshot, stored, older) refl, rw (send_snapshot, stored, older) refl)
  ]

  module _ (p : ℕ) where
    -- What a message of the product does to its state, and sends about it.
    own_turn :
        (e : Incoming D) (states : IdMap (WriterState D)) (s : WriterState D)
        → e.product_id ≡ p
        → state_of p states ≡ s
        → (of_product p (write_change e states).1.sent ≡ (handle_change e s).sent)
          × (state_of p (write_change e states).0 ≡ (handle_change e s).state)
    unfolding write_change
    own_turn e states s own at =
        let here : state_of e.product_id states ≡ s =
          subst (λ q. state_of q states ≡ s) (sym own) at in
        let x = handle_change e (state_of e.product_id states) in
        let about =
          subst (λ q. of_product q (handle_change e s).sent ≡ (handle_change e s).sent) own
            (of_product-own e.product_id _ (sent_about e s)) in
        (
          ap (λ (z : WriterState D). of_product p (handle_change e z).sent) here ∙ about,
          subst (λ q. state_of q (insert e.product_id x.state states) ≡ x.state) own
                (rw (state_of-insert, ==_refl) refl)
              ∙ ap (λ (z : WriterState D). (handle_change e z).state) here,
        )

    other_turn :
        (e : Incoming D) (states : IdMap (WriterState D))
        → (e.product_id == p) ≡ false
        → (of_product p (write_change e states).1.sent ≡ [])
          × (state_of p (write_change e states).0 ≡ state_of p states)
    unfolding write_change
    other_turn e states other = (
      of_product-others p e.product_id _ (==→≢ _ _ other) (sent_about e _),
      rw (state_of-insert, other) refl,
    )

    module _ (next : Incoming D) (snap : Level2Snapshot D) where
      abbrev pub IsRepaired : IdMap (WriterState D) × List (Message D) → Type 0
      IsRepaired r =
          (of_product p r.1 ≡ snapshot_message p snap.bids snap.asks ∷ [])
          × (state_of p r.0 ≡ record { resend_snapshot = false; changes = []; last_seq = snap.seq })

      behind :
          (e : Incoming D) (es : List (Incoming D)) (states : IdMap (WriterState D))
          → of_product p (write_change e states).1.sent ≡ []
          → IsRepaired (write_changes es (write_change e states).0)
          → IsRepaired (write_changes (e ∷ es) states)
      unfolding write_changes
      behind e es states quiet rest =
          (rw (of_product-append p (write_change e states).1.sent, quiet) rest.0, rest.1)

      waits :
          (n : ℕ) (es : List (Incoming D)) (states : IdMap (WriterState D))
          → state_of p states ≡ lost_at n
          → All (λ e. e.product_id ≡ p → IsEarly n e) es
          → next.product_id ≡ p
          → next.last_snapshot ≡ some snap
          → n ≤ snap.seq
          → IsRepaired (write_changes (es ++ next ∷ []) states)
      unfolding write_changes handle_change send_snapshot
      waits n [] states at early own stored newer =
          let turn = own_turn next states (lost_at n) own at in
          let fresh = le→ltb snap.seq n newer in
          let sends : handle_change next (lost_at n) ≡ record {
            state = going_at snap.seq;
            sent = snapshot_message next.product_id snap.bids snap.asks ∷ [];
            asks = false;
          } =
            rw (handle_change, send_snapshot, stored, fresh) refl in
          (
            rw (of_product-append p (write_change next states).1.sent, turn.0, sends)
                (ap (λ q. snapshot_message q snap.bids snap.asks ∷ []) own),
            turn.1 ∙ ap (λ (z : Turn D). z.state) sends,
          )
      waits n (e ∷ es) states at early own stored newer = elim (Bool-cases (e.product_id == p)) [
        | inl mine ↦
            let turn = own_turn e states (lost_at n) (==→≡ _ _ mine) at in
            let quiet = early_quiet e n (early.0 (==→≡ _ _ mine)) in
            behind e (es ++ next ∷ []) states (turn.0 ∙ quiet.0)
              (waits n es _ (turn.1 ∙ quiet.1) early.1 own stored newer)
        | inr other ↦
            let turn = other_turn e states other in
            behind e (es ++ next ∷ []) states turn.0
              (waits n es _ (turn.1 ∙ at) early.1 own stored newer)
      ]

  -- Behind a gap in the changes of a product, and until a snapshot that holds the lost change is
  -- stored, the client is sent nothing about the product, whatever messages come for it and for
  -- others, and whatever older snapshots are stored. The first message of the product that comes
  -- when such a snapshot is there sends it and nothing else, and the writer then goes on behind it
  -- with nothing waiting. At the gap the writer asks itself for the snapshot exactly if no other
  -- message is there to prompt it.
  pub gap_repaired :
      (p : ℕ) (states : IdMap (WriterState D)) (lost next : Incoming D) (es : List (Incoming D))
      (snap : Level2Snapshot D)
      → lost.product_id ≡ p
      → (state_of p states).resend_snapshot ≡ false
      → (state_of p states).last_seq + 1 < lost.change.seq
      → All (λ e. e.product_id ≡ p → IsEarly lost.change.seq e) es
      → next.product_id ≡ p
      → next.last_snapshot ≡ some snap
      → lost.change.seq ≤ snap.seq
      → IsRepaired p next snap (write_changes (lost ∷ es ++ next ∷ []) states)
        × ((write_change lost states).1.asks ≡ (lost.queued == 0))
  unfolding write_change
  gap_repaired p states lost next es snap mine going gap early own stored newer =
      let s = state_of p states in
      let turn = own_turn p lost states s mine refl in
      let track = loses lost s going gap in
      let here : state_of lost.product_id states ≡ s = ap (λ q. state_of q states) mine in
      (
        behind p next snap lost (es ++ next ∷ []) states
            (turn.0 ∙ ap (λ (z : Turn D). z.sent) track)
            (waits p next snap lost.change.seq es _ (turn.1 ∙ ap (λ (z : Turn D). z.state) track)
              early own stored newer),
        ap (λ (z : WriterState D). (handle_change lost z).asks) here
            ∙ ap (λ (z : Turn D). z.asks) track,
      )
