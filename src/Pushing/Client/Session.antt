-- ===== src/Pushing/Client/Session.antt =====
-- Subscribing, unsubscribing and closing in pushing/client.go: what a client knows of its channels
-- and what the hub holds agree, and nobody else's subscriptions change.
use cheetah_exchange.Prelude.{
  ℕ, ◌≡◌, ◌≢◌, refl, ap, ◌∙◌, sym, Bool, true, false, none, some, List, [], ◌∷◌, ◌++◌,
  if◌then◌else◌, arith, ◌==◌, inl, inr, Bool-cases,
}
use cheetah_exchange.Prelude.Ids.{lookup, lookup-insert, lookup-erase}
use cheetah_exchange.Pushing.Subscription
use cheetah_exchange.Pushing.Subscription.{Subscribers, subscribed, subscribe_lem, unsubscribe_lem}
use cheetah_exchange.Pushing.Client.{Connection, has_channel, join, leave, leave_all, close}

abbrev pub lists : List ℕ → ℕ → Bool
lists [] n = false
lists (m ∷ ms) n = let rest = lists ms n in if m == n then true else rest

lists-append :
    (xs ys : List ℕ) (n : ℕ) → lists (xs ++ ys) n ≡ (if lists xs n then true else lists ys n)
lists-append [] ys n = refl
lists-append (x ∷ xs) ys n = ground (arith, lists-append xs ys n)

module _ {T : Type 0} where
  abbrev pub follows : ℕ → Connection T → Bool
  follows n c = subscribed n c.client.id c.sub

  -- The client knows exactly the channels that the hub has it in.
  abbrev pub Agrees : Connection T → Type 0
  Agrees c = (n : ℕ) → has_channel n c ≡ follows n c

  -- Exactly the listed channels of the client have been switched on, or off, and no one else's.
  pub record Switched (on : Bool) (names : List ℕ) (c c' : Connection T) : Type 0 where
    pub client : c'.client ≡ c.client
    pub own : (n : ℕ) → follows n c' ≡ (if lists names n then on else follows n c)
    pub others : (n id : ℕ) → c.client.id ≢ id → subscribed n id c'.sub ≡ subscribed n id c.sub
    pub agrees : Agrees c'

  pub Switched-none : (on : Bool) (c : Connection T) → Agrees c → Switched on [] c c
  Switched-none on c a = record {
    client = refl;
    own = λ n. refl;
    others = λ n id h. refl;
    agrees = a;
  }

  pub Switched-append :
      (on : Bool) (xs ys : List ℕ) (c c' c'' : Connection T)
      → Switched on xs c c'
      → Switched on ys c' c''
      → Switched on (xs ++ ys) c c''
  Switched-append on xs ys c c' c'' f g = record {
    client = g.client ∙ f.client;
    own = λ n. ground (arith, lists-append xs ys n, g.own n, f.own n);
    others = λ n id h.
        g.others n id (λ e. h (sym (ap (λ (k : Subscription.Client). k.id) f.client) ∙ e))
        ∙ f.others n id h;
    agrees = g.agrees;
  }

  pub join-Switched : (n : ℕ) (c : Connection T) → Agrees c → Switched true (n ∷ []) c (join n c).1
  unfolding join
  join-Switched n c a = elim (Bool-cases (has_channel n c)) [
    | inl known ↦
        rw (join, known)
          (record {
            client = refl;
            own = λ m. ground (arith, known, a n);
            others = λ m id h. refl;
            agrees = a;
          })
    | inr fresh ↦
        let new : (Subscription.subscribe n c.client c.sub).0 ≡ true =
          ground (arith, fresh, a n, subscribe_lem n n c.client.id c.client c.sub) in
        rw (join, fresh, new)
          (record {
            client = refl;
            own = λ m. ground (arith, subscribe_lem n m c.client.id c.client c.sub);
            others = λ m id h. ground (arith, h, subscribe_lem n m id c.client c.sub);
            agrees = λ m. ground (
              arith,
              a m,
              lookup-insert n m (record {}) c.channels,
              subscribe_lem n m c.client.id c.client c.sub,
            );
          })
  ]

  pub leave-Switched : (n : ℕ) (c : Connection T) → Agrees c → Switched false (n ∷ []) c (leave n c)
  unfolding leave
  leave-Switched n c a = elim (Bool-cases (Subscription.unsubscribe n c.client c.sub).0) [
    | inl known ↦
        rw (leave, known)
          (record {
            client = refl;
            own = λ m. ground (arith, unsubscribe_lem n m c.client.id c.client c.sub);
            others = λ m id h. ground (arith, h, unsubscribe_lem n m id c.client c.sub);
            agrees = λ m. ground (
              arith,
              a m,
              lookup-erase n m c.channels,
              unsubscribe_lem n m c.client.id c.client c.sub,
            );
          })
    | inr absent ↦
        rw (leave, absent)
          (record {
            client = refl;
            own = λ m. ground (arith, unsubscribe_lem n m c.client.id c.client c.sub);
            others = λ m id h. ground (arith, h, unsubscribe_lem n m id c.client c.sub);
            agrees = λ m. ground (
              arith,
              a m,
              absent,
              unsubscribe_lem n n c.client.id c.client c.sub,
              unsubscribe_lem n m c.client.id c.client c.sub,
            );
          })
  ]

  leave_all_lem :
      (ns : List (ℕ × Unit {0})) (c : Connection T) (m id : ℕ)
      → ((leave_all ns c).client ≡ c.client)
        × (subscribed m id (leave_all ns c).sub ≡ (
            if c.client.id == id
            then (elim (lookup m ns) [ none ↦ subscribed m id c.sub | some _ ↦ false ])
            else subscribed m id c.sub))
  unfolding leave_all lookup
  leave_all_lem [] c m id = (refl, ground arith)
  leave_all_lem ((n, u) ∷ ns) c m id =
      let c' : Connection T = record c { sub = (Subscription.unsubscribe n c.client c.sub).1 } in
      let rest = leave_all_lem ns c' m id in
      (rest.0, ground (arith, rest.1, unsubscribe_lem n m id c.client c.sub))

  -- A closed client is in no channel any more, and nobody else has left one.
  pub close_lem :
      (c : Connection T) (n id : ℕ)
      → Agrees c
      → subscribed n id (close c).sub ≡ (if c.client.id == id then false else subscribed n id c.sub)
  unfolding close
  close_lem c n id a = ground (arith, a n, leave_all_lem c.channels c n id)
