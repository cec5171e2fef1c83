-- ===== src/Pushing/Client/Requests.antt =====
-- The requests of a connection (pushing/client.go): what `onMessage` does with each.
use Prim.Native.String.{String}
use cheetah_exchange.Prelude.{
  ℕ, ◌≡◌, refl, Bool, true, false, ◌&&◌, not, Option, some, List, [], ◌∷◌, ◌++◌, Bool-cases, inl,
  inr, Option-cases,
}
use cheetah_exchange.Pushing.Client.{
  Channel, ticker, level2, ChannelName, TokenCheck, token_error, no_user, of_user, Request,
  Connection, join, leave, join_channel, on_sub, on_un_sub, on_message, RequestType,
  subscribe_request, unsubscribe_request, other_request, user_id_of, currencies, products,
}
use cheetah_exchange.Pushing.Client.Session.{Agrees, Switched, join-Switched, leave-Switched}
use cheetah_exchange.Pushing.Client.Names.{
  is_nil, has_trade, is_empty, currency_names, products_names, wanted,
}
use cheetah_exchange.Pushing.Client.Switching.{Ends, after, currencies-Switched, products-Ends}

module _ {T : Type 0} (name : ChannelName → ℕ) where
  -- More messages to the client change nothing about its channels.
  told :
      (on : Bool) (names : List ℕ) (c c' : Connection T) (asked : List ℕ) (tickers : List T)
      → Switched on names c c'
      → Switched on names c (record c' { asked = asked; tickers = tickers })
  told on names c c' asked tickers s = record {
    client = s.client;
    own = s.own;
    others = s.others;
    agrees = s.agrees;
  }

  join_channel-Switched :
      (last_ticker : ℕ → Option T) (channel : Channel) (p n : ℕ) (c : Connection T)
      → Agrees c
      → Switched true (n ∷ []) c (join_channel name last_ticker channel p n c)
  unfolding join_channel
  join_channel-Switched last_ticker level2 p n c a = elim (Bool-cases (join n c).0) [
    | inl new ↦ rw (join_channel, new) (told true _ c _ _ _ (join-Switched n c a))
    | inr old ↦ rw (join_channel, old) (join-Switched n c a)
  ]
  join_channel-Switched last_ticker ticker p n c a = elim (Bool-cases (join n c).0) [
    | inl new ↦ elim (Option-cases (last_ticker p)) [
      | inl absent ↦ rw (join_channel, new, absent) (join-Switched n c a)
      | inr (t, present) ↦
          rw (join_channel, new, present) (told true _ c _ _ _ (join-Switched n c a))
    ]
    | inr old ↦ rw (join_channel, old) (join-Switched n c a)
  ]
  join_channel-Switched last_ticker other p n c a = join-Switched n c a

-- The request panics: a product's `trade` channel, and no user.
abbrev pub panics : Request → Bool
panics r = is_nil r.token && has_trade r.channels && not (is_empty r.product_ids)

module _ (name : ChannelName → ℕ) where
  abbrev pub Answers :
      {T : Type 0}
      → RequestType
      → TokenCheck
      → Request
      → Connection T
      → Option (Connection T)
      → Type 0
  Answers subscribe_request token_error r c result = result ≡ some c
  Answers subscribe_request _ r c result = Ends true (panics r) (wanted name r) c result
  Answers unsubscribe_request token_error r c result = result ≡ some c
  Answers unsubscribe_request _ r c result = Ends false (panics r) (wanted name r) c result
  Answers other_request _ r c result = result ≡ some c

  module _ {T : Type 0} where
    sub_lem :
        (last_ticker : ℕ → Option T) (cs ps : List ℕ) (ss : List String) (token : TokenCheck)
        (c : Connection T)
        → Agrees c
        → let first = currencies name (λ n c'. (join n c').1) cs (user_id_of token) ss c in
          Ends true
            (is_nil token && has_trade ss && not (is_empty ps))
            (currency_names name cs (user_id_of token) ss ++ products_names name token ps ss)
            c
            (products name (join_channel name last_ticker) token ps ss first)
    sub_lem last_ticker cs ps ss token c a =
        let first =
          currencies-Switched name true (λ n c'. (join n c').1) join-Switched cs (user_id_of token)
            ss c a in
        after true (is_nil token && has_trade ss && not (is_empty ps)) _ _ c _ _ first (
          products-Ends name true (join_channel name last_ticker)
            (λ ch p n c' a'. join_channel-Switched name last_ticker ch p n c' a') token ps ss _
            first.agrees)

    un_sub_lem :
        (cs ps : List ℕ) (ss : List String) (token : TokenCheck) (c : Connection T)
        → Agrees c
        → let first = currencies name leave cs (user_id_of token) ss c in
          Ends false
            (is_nil token && has_trade ss && not (is_empty ps))
            (currency_names name cs (user_id_of token) ss ++ products_names name token ps ss)
            c
            (products name (λ ch p n c'. leave n c') token ps ss first)
    un_sub_lem cs ps ss token c a =
        let first =
          currencies-Switched name false leave leave-Switched cs (user_id_of token) ss c a in
        after false (is_nil token && has_trade ss && not (is_empty ps)) _ _ c _ _ first (
          products-Ends name false (λ ch p n c'. leave n c')
            (λ ch p n c' a'. leave-Switched n c' a') token ps ss _ first.agrees)

    answer :
        (last_ticker : ℕ → Option T) (k : RequestType) (cs ps : List ℕ) (ss : List String)
        (token : TokenCheck) (c : Connection T)
        → Agrees c
        → let r : Request = record {
          request_type = k;
          currency_ids = cs;
          product_ids = ps;
          channels = ss;
          token = token;
        } in
          Answers k token r c (on_message name last_ticker r c)
    unfolding on_message on_sub on_un_sub
    answer last_ticker subscribe_request cs ps ss token_error c a = refl
    answer last_ticker subscribe_request cs ps ss no_user c a =
        sub_lem last_ticker cs ps ss no_user c a
    answer last_ticker subscribe_request cs ps ss (of_user id) c a =
        sub_lem last_ticker cs ps ss (of_user id) c a
    answer last_ticker unsubscribe_request cs ps ss token_error c a = refl
    answer last_ticker unsubscribe_request cs ps ss no_user c a = un_sub_lem cs ps ss no_user c a
    answer last_ticker unsubscribe_request cs ps ss (of_user id) c a =
        un_sub_lem cs ps ss (of_user id) c a
    answer last_ticker other_request cs ps ss token c a = refl

    pub on_message_switches :
        (last_ticker : ℕ → Option T) (r : Request) (c : Connection T)
        → Agrees c
        → Answers r.request_type r.token r c (on_message name last_ticker r c)
    on_message_switches last_ticker r c a =
        answer last_ticker r.request_type r.currency_ids r.product_ids r.channels r.token c a
