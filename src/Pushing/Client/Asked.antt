-- ===== src/Pushing/Client/Asked.antt =====
-- What a request of pushing/client.go asks for, read off its texts, and that `onMessage` does it.
use Prim.Native.String.{String}
use cheetah_exchange.Prelude.{
  ℕ, ◌≡◌, refl, sym, subst, Bool, true, false, ◌&&◌, ◌||◌, not, Option, none, some, List, [], ◌∷◌,
  ◌++◌, if◌then◌else◌, inl, inr, Bool-cases, All,
}
use cheetah_exchange.Prelude.Codes.{codes}
use text.Mathlib.Text.{◌==◌ as str_eq}
use text.Mathlib.TextEquality.{eq_iff}
use cheetah_exchange.Pushing.Client.{
  ChannelName, TokenCheck, token_error, no_user, of_user, Request, RequestType, subscribe_request,
  unsubscribe_request, other_request, Connection, on_message, channel_of, case_of, printed,
  name_text,
}
use cheetah_exchange.Pushing.Client.Names.{
  is_trade, has_trade, funds_name, funds_names, currency_names, is_empty, product_name,
  product_names, products_names,
}
use cheetah_exchange.Pushing.Client.Session.{Agrees}
use cheetah_exchange.Pushing.Client.Switching.{Ends}
use cheetah_exchange.Pushing.Client.Requests.{Answers, on_message_switches}

-- The channels of a product that anybody may read, by their texts.
abbrev shared_texts : List String
shared_texts =
    "ticker" ∷ "match" ∷ "level2" ∷ "candles_1m" ∷ "candles_3m" ∷ "candles_5m" ∷ "candles_15m"
    ∷ "candles_30m" ∷ "candles_60m" ∷ "candles_120m" ∷ "candles_240m" ∷ "candles_360m"
    ∷ "candles_720m" ∷ "candles_1440m" ∷ []

abbrev pub among : String → List String → Bool
among s [] = false
among s (t ∷ ts) = str_eq s t || among s ts

abbrev known_texts : List String
known_texts = "trade" ∷ "order" ∷ "funds" ∷ shared_texts

-- The user whose channels a request is about: 0 without one.
abbrev token_user : TokenCheck → ℕ
token_user (of_user id) = id
token_user _ = 0

by_text :
    (P : String → Type 0) (s : String) (ts : List String)
    → All P ts
    → (All (λ t. str_eq s t ≡ false) ts → P s)
    → P s
by_text P s [] h other = other tt
by_text P s (t ∷ ts) h other = elim (Bool-cases (str_eq s t)) [
  | inl e ↦ subst P (sym ((eq_iff s t).0 e)) h.0
  | inr n ↦ by_text P s ts h.1 (λ g. other (n, g))
]

-- Whether one of the texts is "trade".
abbrev pub asks_trade : List String → Bool
asks_trade [] = false
asks_trade (s ∷ ss) = str_eq s "trade" || asks_trade ss

no_channel : (s : String) → All (λ t. str_eq s t ≡ false) known_texts → channel_of s ≡ none
unfolding channel_of
no_channel s g =
    rw
      (
        channel_of, g.0, g.1.0, g.1.1.0, g.1.1.1.0, g.1.1.1.1.0, g.1.1.1.1.1.0, g.1.1.1.1.1.1.0,
        g.1.1.1.1.1.1.1.0, g.1.1.1.1.1.1.1.1.0, g.1.1.1.1.1.1.1.1.1.0, g.1.1.1.1.1.1.1.1.1.1.0,
        g.1.1.1.1.1.1.1.1.1.1.1.0, g.1.1.1.1.1.1.1.1.1.1.1.1.0, g.1.1.1.1.1.1.1.1.1.1.1.1.1.0,
        g.1.1.1.1.1.1.1.1.1.1.1.1.1.1.0, g.1.1.1.1.1.1.1.1.1.1.1.1.1.1.1.0,
        g.1.1.1.1.1.1.1.1.1.1.1.1.1.1.1.1.0,
      )
      refl

none_among : (s : String) (ts : List String) → All (λ t. str_eq s t ≡ false) ts → among s ts ≡ false
none_among s [] g = refl
none_among s (t ∷ ts) g = rw (among, g.0) (none_among s ts g.1)

trade_text : (s : String) → is_trade (channel_of s) ≡ str_eq s "trade"
unfolding channel_of
trade_text s =
    by_text (λ s. is_trade (channel_of s) ≡ str_eq s "trade") s known_texts
      (
        refl,
        (
          refl,
          (
            refl,
            (
              refl,
              (
                refl,
                (
                  refl,
                  (
                    refl,
                    (
                      refl,
                      (refl, (refl, (refl, (refl, (refl, (refl, (refl, (refl, (refl, tt))))))))),
                    ),
                  ),
                ),
              ),
            ),
          ),
        ),
      )
      (λ g. rw (no_channel s g, g.0) refl)

trades_lem : (ss : List String) → has_trade ss ≡ asks_trade ss
trades_lem [] = refl
trades_lem (s ∷ ss) = rw (has_trade, trade_text s, trades_lem ss) refl

module _ (key : List ℕ → ℕ) (product_text : ℕ → List ℕ) where
  abbrev pub key_of : ChannelName → ℕ
  key_of n = key (name_text product_text n)

  abbrev pub trade_names : TokenCheck → ℕ → List ℕ
  trade_names (of_user id) p =
      key (codes "trade" ++ codes ":" ++ product_text p ++ codes ":" ++ printed id) ∷ []
  trade_names _ p = []

  -- The channel of a product that a text asks for.
  abbrev pub product_asked : TokenCheck → ℕ → String → List ℕ
  product_asked token p s =
      if str_eq s "trade"
      then trade_names token p
      else if str_eq s "order"
      then key
          (codes "order" ++ codes ":" ++ product_text p ++ codes ":" ++ printed (token_user token))
        ∷ []
      else if among s shared_texts
      then key (codes s ++ codes ":" ++ product_text p) ∷ []
      else []

  abbrev pub funds_asked : ℕ → String → List ℕ
  funds_asked user_id s =
      if str_eq s "funds" then key (codes "funds" ++ codes ":" ++ printed user_id) ∷ [] else []

  product_other :
      (token : TokenCheck) (p : ℕ) (s : String)
      → All (λ t. str_eq s t ≡ false) known_texts
      → product_name key_of token p (channel_of s) ≡ product_asked token p s
  product_other token p s g =
      rw
        (no_channel s g, product_name, product_asked, g.0, g.1.0, none_among s shared_texts g.1.1.1)
        refl

  product_name_lem :
      (token : TokenCheck) (p : ℕ) (s : String)
      → product_name key_of token p (channel_of s) ≡ product_asked token p s
  unfolding channel_of case_of printed
  product_name_lem (of_user id) p s =
      by_text
        (λ s. product_name key_of (of_user id) p (channel_of s) ≡ product_asked (of_user id) p s) s
        known_texts
        (
          refl,
          (
            refl,
            (
              refl,
              (
                refl,
                (
                  refl,
                  (
                    refl,
                    (
                      refl,
                      (
                        refl,
                        (refl, (refl, (refl, (refl, (refl, (refl, (refl, (refl, (refl, tt))))))))),
                      ),
                    ),
                  ),
                ),
              ),
            ),
          ),
        )
        (product_other (of_user id) p s)
  product_name_lem no_user p s =
      by_text (λ s. product_name key_of no_user p (channel_of s) ≡ product_asked no_user p s) s
        known_texts
        (
          refl,
          (
            refl,
            (
              refl,
              (
                refl,
                (
                  refl,
                  (
                    refl,
                    (
                      refl,
                      (
                        refl,
                        (refl, (refl, (refl, (refl, (refl, (refl, (refl, (refl, (refl, tt))))))))),
                      ),
                    ),
                  ),
                ),
              ),
            ),
          ),
        )
        (product_other no_user p s)
  product_name_lem token_error p s =
      by_text
        (λ s. product_name key_of token_error p (channel_of s) ≡ product_asked token_error p s) s
        known_texts
        (
          refl,
          (
            refl,
            (
              refl,
              (
                refl,
                (
                  refl,
                  (
                    refl,
                    (
                      refl,
                      (
                        refl,
                        (refl, (refl, (refl, (refl, (refl, (refl, (refl, (refl, (refl, tt))))))))),
                      ),
                    ),
                  ),
                ),
              ),
            ),
          ),
        )
        (product_other token_error p s)

  funds_name_lem : (u : ℕ) (s : String) → funds_name key_of u (channel_of s) ≡ funds_asked u s
  unfolding channel_of
  funds_name_lem u s =
      by_text (λ s. funds_name key_of u (channel_of s) ≡ funds_asked u s) s known_texts
        (
          refl,
          (
            refl,
            (
              refl,
              (
                refl,
                (
                  refl,
                  (
                    refl,
                    (
                      refl,
                      (
                        refl,
                        (refl, (refl, (refl, (refl, (refl, (refl, (refl, (refl, (refl, tt))))))))),
                      ),
                    ),
                  ),
                ),
              ),
            ),
          ),
        )
        (λ g. rw (no_channel s g, funds_name, funds_asked, g.1.1.0) refl)

  -- The channels that a request asks for: those of funds once for each currency, and for each
  -- product one for each text.
  abbrev pub flat : {A : Type 0} → (A → List ℕ) → List A → List ℕ
  flat f [] = []
  flat f (a ∷ others) = f a ++ flat f others

  abbrev pub asked : TokenCheck → List ℕ → List ℕ → List String → List ℕ
  asked token cs ps ss =
      flat (λ c. flat (funds_asked (token_user token)) ss) cs
      ++ flat (λ p. flat (product_asked token p) ss) ps

  funds_flat : (u : ℕ) (ss : List String) → funds_names key_of u ss ≡ flat (funds_asked u) ss
  funds_flat u [] = refl
  funds_flat u (s ∷ ss) = rw (funds_names, funds_name_lem u s, funds_flat u ss) refl

  product_flat :
      (token : TokenCheck) (p : ℕ) (ss : List String)
      → product_names key_of token p ss ≡ flat (product_asked token p) ss
  product_flat token p [] = refl
  product_flat token p (s ∷ ss) =
      rw (product_names, product_name_lem token p s, product_flat token p ss) refl

  currency_flat :
      (u : ℕ) (cs : List ℕ) (ss : List String)
      → currency_names key_of cs u ss ≡ flat (λ c. flat (funds_asked u) ss) cs
  currency_flat u [] ss = refl
  currency_flat u (c ∷ cs) ss = rw (currency_names, funds_flat u ss, currency_flat u cs ss) refl

  products_flat :
      (token : TokenCheck) (ps : List ℕ) (ss : List String)
      → products_names key_of token ps ss ≡ flat (λ p. flat (product_asked token p) ss) ps
  products_flat token [] ss = refl
  products_flat token (p ∷ ps) ss =
      rw (products_names, product_flat token p ss, products_flat token ps ss) refl

  -- What a request is answered with, by its type and by what its token gives.
  abbrev pub Serves :
      {T : Type 0}
      → RequestType
      → TokenCheck
      → Request
      → Connection T
      → Option (Connection T)
      → Type 0
  Serves subscribe_request no_user r c result =
      Ends true (asks_trade r.channels && not (is_empty r.product_ids))
        (asked no_user r.currency_ids r.product_ids r.channels) c result
  Serves subscribe_request (of_user id) r c result =
      Ends true false (asked (of_user id) r.currency_ids r.product_ids r.channels) c result
  Serves unsubscribe_request no_user r c result =
      Ends false (asks_trade r.channels && not (is_empty r.product_ids))
        (asked no_user r.currency_ids r.product_ids r.channels) c result
  Serves unsubscribe_request (of_user id) r c result =
      Ends false false (asked (of_user id) r.currency_ids r.product_ids r.channels) c result
  Serves _ _ r c result = result ≡ some c

  asked_lem :
      (token : TokenCheck) (cs ps : List ℕ) (ss : List String)
      → currency_names key_of cs (token_user token) ss ++ products_names key_of token ps ss
        ≡ asked token cs ps ss
  asked_lem token cs ps ss =
      rw (currency_flat (token_user token) cs ss, products_flat token ps ss) refl

  module _ {T : Type 0} where
    reads_texts :
        (on nil : Bool) (token : TokenCheck) (cs ps : List ℕ) (ss : List String) (c : Connection T)
        (result : Option (Connection T))
        → Ends on
            (nil && has_trade ss && not (is_empty ps))
            (currency_names key_of cs (token_user token) ss ++ products_names key_of token ps ss)
            c
            result
        → Ends on (nil && asks_trade ss && not (is_empty ps)) (asked token cs ps ss) c result
    reads_texts on nil token cs ps ss c result h =
        subst
          (λ (names : List ℕ). Ends on (nil && asks_trade ss && not (is_empty ps)) names c result)
          (asked_lem token cs ps ss)
          (subst
            (λ (b : Bool).
              Ends on (nil && b && not (is_empty ps))
                (currency_names key_of cs (token_user token) ss
                  ++ products_names key_of token ps ss)
                c result)
            (trades_lem ss) h)

    serves :
        (k : RequestType) (token : TokenCheck) (cs ps : List ℕ) (ss : List String)
        (c : Connection T) (result : Option (Connection T))
        → let r : Request = record {
          request_type = k;
          currency_ids = cs;
          product_ids = ps;
          channels = ss;
          token = token;
        } in
          Answers key_of k token r c result → Serves k token r c result
    serves subscribe_request token_error cs ps ss c result h = h
    serves subscribe_request no_user cs ps ss c result h =
        reads_texts true true no_user cs ps ss c result h
    serves subscribe_request (of_user id) cs ps ss c result h =
        reads_texts true false (of_user id) cs ps ss c result h
    serves unsubscribe_request token_error cs ps ss c result h = h
    serves unsubscribe_request no_user cs ps ss c result h =
        reads_texts false true no_user cs ps ss c result h
    serves unsubscribe_request (of_user id) cs ps ss c result h =
        reads_texts false false (of_user id) cs ps ss c result h
    serves other_request no_user cs ps ss c result h = h
    serves other_request token_error cs ps ss c result h = h
    serves other_request (of_user id) cs ps ss c result h = h

    -- A request to subscribe or to unsubscribe switches on, or off, exactly the channels that its
    -- texts ask for: "funds:USER" for each currency, and for each product "order:PRODUCT:USER",
    -- "trade:PRODUCT:USER", and "TEXT:PRODUCT" for the texts that anybody may ask for; other texts are
    -- passed over. The user is the token's, or 0 if the token gives none; but a request without a
    -- user for the trades of a product panics. The client's other channels and everybody else's stay, and
    -- the client still knows just the channels that the hub has it in, as it must before. A request
    -- whose token is an error, or of another type, changes nothing. Texts are told apart by the hub
    -- by a number, `key`.
    pub on_message_lem :
        (last_ticker : ℕ → Option T) (r : Request) (c : Connection T)
        → Agrees c
        → Serves r.request_type r.token r c (on_message key_of last_ticker r c)
    on_message_lem last_ticker r c a =
        serves r.request_type r.token r.currency_ids r.product_ids r.channels c _
          (on_message_switches key_of last_ticker r c a)
