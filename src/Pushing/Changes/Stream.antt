-- ===== src/Pushing/Changes/Stream.antt =====
-- The whole of `runL2ChangeWriter` (pushing/client.go): every product's client side stays a true
-- copy of the book, whatever comes for other products in between.
use cheetah_exchange.Prelude.{
  ℕ, ◌≡◌, ◌≢◌, refl, sym, subst, Option, List, [], ◌∷◌, ◌++◌, if◌then◌else◌, arith, inl, inr, ◌==◌,
  Bool-cases, All, ==→≡, ==→≢, ==_refl,
}
use cheetah_exchange.Prelude.Ids.{IdMap, insert, lookup-insert}
use cheetah_exchange.Pushing.PriceBook.{Change, Level2Snapshot}
use cheetah_exchange.Pushing.Changes.{
  WriterState, Incoming, Message, state_of, send_snapshot, add_change, handle_change, write_change,
  write_changes,
}
use cheetah_exchange.Pushing.Changes.Delivery.{
  message_product, of_product, Follows, silent, Follows-append, IsFed, IsAt,
}
use cheetah_exchange.Pushing.Changes.Steps.{handle_change-Turned}

module _ {D : Type 0} where
  -- A change without a number comes for the product only while no change of it waits.
  abbrev pub AsksAtRest : ℕ → List (Incoming D) → IdMap (WriterState D) → Type 0
  AsksAtRest p [] states = Unit
  AsksAtRest p (e ∷ es) states =
      (e.product_id ≡ p → e.change.seq ≡ 0 → (state_of p states).changes ≡ [])
      × AsksAtRest p es (write_change e states).0

  pub of_product-append :
      (p : ℕ) (ms ns : List (Message D))
      → of_product p (ms ++ ns) ≡ of_product p ms ++ of_product p ns
  of_product-append p [] ns = refl
  of_product-append p (m ∷ ms) ns = ground (arith, of_product-append p ms ns)

  pub of_product-own :
      (p : ℕ) (ms : List (Message D)) → All (λ m. message_product m ≡ p) ms → of_product p ms ≡ ms
  of_product-own p [] h = refl
  of_product-own p (m ∷ ms) h = ground (arith, of_product-own p ms h.1)

  pub of_product-others :
      (p q : ℕ) (ms : List (Message D))
      → q ≢ p
      → All (λ m. message_product m ≡ q) ms
      → of_product p ms ≡ []
  of_product-others p q [] n h = refl
  of_product-others p q (m ∷ ms) n h = ground (arith, of_product-others p q ms n h.1)

  pub sent_about :
      (e : Incoming D) (s : WriterState D)
      → All (λ m. message_product m ≡ e.product_id) (handle_change e s).sent
  unfolding handle_change send_snapshot add_change
  sent_about e s = ground arith

  pub state_of-insert :
      (p q : ℕ) (s : WriterState D) (states : IdMap (WriterState D))
      → state_of p (insert q s states) ≡ (if q == p then s else state_of p states)
  state_of-insert p q s states = ground (arith, lookup-insert q p s states)

module _ {D : Type 0} (feed : ℕ → Change D) (books : ℕ → Level2Snapshot D) (p : ℕ) where
  -- Messages and states behind which the product's client knows the book up to a number.
  pub record Delivered (shown : Option ℕ) (r : IdMap (WriterState D) × List (Message D))
      : Type 0 where
    pub shown' : Option ℕ
    pub follows : Follows feed books p shown (of_product p r.1) shown'
    pub is_at : IsAt feed shown' (state_of p r.0)

  own_change :
      (e : Incoming D) (states : IdMap (WriterState D)) (shown : Option ℕ)
      → e.product_id ≡ p
      → IsAt feed shown (state_of p states)
      → (e.product_id ≡ p → IsFed feed books e)
      → (e.product_id ≡ p → e.change.seq ≡ 0 → (state_of p states).changes ≡ [])
      → Delivered shown ((write_change e states).0, (write_change e states).1.sent)
  unfolding write_change
  own_change e states shown own at fed rest =
      let s = state_of e.product_id states in
      let here : IsAt feed shown s =
        subst (λ q. IsAt feed shown (state_of q states)) (sym own) at in
      let turned =
        handle_change-Turned feed books e s shown (fed own) here
          (λ z. subst (λ q. (state_of q states).changes ≡ []) (sym own) (rest own z)) in
      record {
        shown' = turned.shown';
        follows =
            subst
              (λ q.
                Follows feed books q shown (of_product q (handle_change e s).sent) turned.shown')
              own
              (rw (of_product-own e.product_id (handle_change e s).sent (sent_about e s))
                turned.follows);
        is_at =
            subst
              (λ q.
                IsAt feed turned.shown'
                  (state_of q (insert e.product_id (handle_change e s).state states)))
              own (rw (state_of-insert, ==_refl) turned.is_at);
      }

  write_change-Delivered :
      (e : Incoming D) (states : IdMap (WriterState D)) (shown : Option ℕ)
      → IsAt feed shown (state_of p states)
      → (e.product_id ≡ p → IsFed feed books e)
      → (e.product_id ≡ p → e.change.seq ≡ 0 → (state_of p states).changes ≡ [])
      → Delivered shown ((write_change e states).0, (write_change e states).1.sent)
  unfolding write_change
  write_change-Delivered e states shown at fed rest = elim (Bool-cases (e.product_id == p)) [
    | inl own ↦ own_change e states shown (==→≡ _ _ own) at fed rest
    | inr other ↦
        let sent : of_product p (handle_change e (state_of e.product_id states)).sent ≡ [] =
          of_product-others p e.product_id _ (==→≢ _ _ other) (sent_about e _) in
        let kept : state_of p (write_change e states).0 ≡ state_of p states =
          rw (write_change, state_of-insert, other) refl in
        record { shown' = shown; follows = rw sent silent; is_at = rw kept at }
  ]

  -- In the stream that one client is sent, and for each product: the client first gets a snapshot,
  -- never an older one than it had, and each update it gets holds the changes of the book that
  -- follow on what it knows, in order, at most ten and with none missing. Fewer than ten wait in
  -- the writer. It holds however the changes of the products are mixed, lost or doubled, where a
  -- change with a number is the book's change of that number, a stored snapshot is the book at its
  -- number, and a change without a number comes for the product only while none of its changes
  -- waits.
  pub write_changes-Delivered :
      (es : List (Incoming D)) (states : IdMap (WriterState D)) (shown : Option ℕ)
      → IsAt feed shown (state_of p states)
      → All (λ e. e.product_id ≡ p → IsFed feed books e) es
      → AsksAtRest p es states
      → Delivered shown (write_changes es states)
  unfolding write_changes
  write_changes-Delivered [] states shown at fed rest = record {
    shown' = shown;
    follows = silent;
    is_at = at;
  }
  write_changes-Delivered (e ∷ es) states shown at fed rest =
      let first = write_change-Delivered e states shown at fed.0 rest.0 in
      let others =
        write_changes-Delivered es (write_change e states).0 first.shown' first.is_at fed.1
          rest.1 in
      record {
        shown' = others.shown';
        follows =
            rw (of_product-append p (write_change e states).1.sent)
              (Follows-append feed books first.follows others.follows);
        is_at = others.is_at;
      }
