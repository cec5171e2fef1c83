-- ===== src/Pushing/Subscription.antt =====
-- pushing/subscription.go: the clients of each channel. A channel is a number that stands for its
-- text; a client is its id with the number of messages that wait in its write channel.
use cheetah_exchange.Prelude.{
  ℕ, ◌+◌, ◌≡◌, refl, Bool, true, false, none, some, [], arith, map, not, if◌then◌else◌, ltb, ◌==◌,
  Option-cases, inl, inr,
}
use cheetah_exchange.Prelude.Ids.{IdMap, lookup, insert, erase, lookup-insert, lookup-erase}

pub record Client : Type 0 where
  pub id : ℕ
  pub waiting : ℕ

abbrev pub Subscribers : Type 0
Subscribers = IdMap (IdMap Client)

-- The clients of a channel, none for one that nobody has subscribed to.
abbrev pub clients_of : ℕ → Subscribers → IdMap Client
clients_of channel s = elim (lookup channel s) [ none ↦ [] | some cs ↦ cs ]

unfoldable pub subscribe : ℕ → Client → Subscribers → Bool × Subscribers
subscribe channel client s =
    let cs = clients_of channel s in
    elim (lookup client.id cs) [
      | none ↦ (true, insert channel (insert client.id client cs) s)
      | some _ ↦ (false, insert channel cs s)
    ]

unfoldable pub unsubscribe : ℕ → Client → Subscribers → Bool × Subscribers
unsubscribe channel client s = elim (lookup channel s) [
  | none ↦ (false, s)
  | some cs ↦ elim (lookup client.id cs) [
    | none ↦ (false, s)
    | some _ ↦ (true, insert channel (erase client.id cs) s)
  ]
]

-- A client whose write channel is full misses the message.
abbrev pub write_message : ℕ → Client → Client
write_message size c = if ltb c.waiting size then record c { waiting = c.waiting + 1 } else c

unfoldable pub publish : ℕ → ℕ → Subscribers → Subscribers
publish size channel s = elim (lookup channel s) [
  | none ↦ s
  | some cs ↦ insert channel (map (λ (e : ℕ × Client). (e.0, write_message size e.1)) cs) s
]

-- Who is subscribed to what.
abbrev pub subscribed : ℕ → ℕ → Subscribers → Bool
subscribed channel id s = elim (lookup id (clients_of channel s)) [ none ↦ false | some _ ↦ true ]

no_client : (id : ℕ) → lookup {V = Client} id [] ≡ none
unfolding lookup
no_client id = refl

-- Subscribing says whether the client was new to the channel; behind it the client is in the
-- channel, and nobody else has come or gone, in any channel.
pub subscribe_lem :
    (channel other id : ℕ) (client : Client) (s : Subscribers)
    → ((subscribe channel client s).0 ≡ not (subscribed channel client.id s))
      × (subscribed other id (subscribe channel client s).1 ≡ (
          if channel == other
          then (if client.id == id then true else subscribed other id s)
          else subscribed other id s))
unfolding subscribe
subscribe_lem channel other id client s = (
  ground arith,
  elim (Option-cases (lookup client.id (clients_of channel s))) [
    | inl fresh ↦
        rw (subscribe, fresh)
          (ground (
            arith,
            fresh,
            lookup-insert channel other (insert client.id client (clients_of channel s)) s,
            lookup-insert client.id id client (clients_of channel s),
          ))
    | inr (old, known) ↦
        rw (subscribe, known)
          (ground (arith, known, lookup-insert channel other (clients_of channel s) s))
  ],
)

-- Unsubscribing says whether the client was in the channel; behind it the client is not, and nobody
-- else has come or gone, in any channel.
pub unsubscribe_lem :
    (channel other id : ℕ) (client : Client) (s : Subscribers)
    → ((unsubscribe channel client s).0 ≡ subscribed channel client.id s)
      × (subscribed other id (unsubscribe channel client s).1 ≡ (
          if channel == other
          then (if client.id == id then false else subscribed other id s)
          else subscribed other id s))
unfolding unsubscribe
unsubscribe_lem channel other id client s = elim (Option-cases (lookup channel s)) [
  | inl nobody ↦
      rw (unsubscribe, nobody) (ground (arith, nobody, no_client client.id, no_client id))
  | inr (cs, found) ↦ elim (Option-cases (lookup client.id cs)) [
    | inl absent ↦ rw (unsubscribe, found, absent) (ground (arith, found, absent))
    | inr (old, present) ↦
        rw (unsubscribe, found, present)
          (ground (
            arith,
            found,
            present,
            lookup-insert channel other (erase client.id cs) s,
            lookup-erase client.id id cs,
          ))
  ]
]
