-- ===== src/Pushing/Client/Switching.antt =====
-- The loops of `onSub` and `onUnSub` (pushing/client.go) over a request's currencies, products and
-- channels: they switch exactly the channels that it names, or panic.
use Prim.Native.String.{String}
use cheetah_exchange.Prelude.{
  ℕ, ◌≡◌, refl, Bool, true, false, ◌&&◌, not, Option, none, some, List, [], ◌∷◌, ◌++◌,
}
use cheetah_exchange.Pushing.Client.{
  Channel, trade, funds, ChannelName, with_user, with_both, TokenCheck, token_error, no_user,
  of_user, Connection, channel_of, named, case_of, funds_channels, currencies, product_channels,
  products,
}
use cheetah_exchange.Pushing.Client.Session.{Agrees, Switched, Switched-none, Switched-append}
use cheetah_exchange.Pushing.Client.Names.{
  is_nil, is_trade, has_trade, is_empty, funds_names, currency_names, product_names, products_names,
}

module _ {T : Type 0} (on : Bool) where
  -- A panic, or the listed channels switched.
  abbrev pub Ends : Bool → List ℕ → Connection T → Option (Connection T) → Type 0
  Ends true names c r = r ≡ none
  Ends false names c r = (c' : Connection T) × (r ≡ some c') × Switched on names c c'

  pub after :
      (panics : Bool) (xs ys : List ℕ) (c c' : Connection T) (r : Option (Connection T))
      → Switched on xs c c'
      → Ends panics ys c' r
      → Ends panics (xs ++ ys) c r
  after true xs ys c c' r h k = k
  after false xs ys c c' r h k = (k.0, k.1, Switched-append on xs ys c c' k.0 h k.2)

module _ (name : ChannelName → ℕ) where
  module _ {T : Type 0} (on : Bool) where
    module _ (act : ℕ → Connection T → Connection T)
        (acts : (n : ℕ) (c : Connection T) → Agrees c → Switched on (n ∷ []) c (act n c)) where
      funds_step :
          (user_id : ℕ) (s : String) (ss : List String) (c : Connection T) (o : Option Channel)
          → Agrees c
          → channel_of s ≡ o
          → ((c' : Connection T)
              → Agrees c'
              → Switched on
                  (funds_names name user_id ss)
                  c'
                  (funds_channels name act user_id ss c'))
          → Switched on
              (funds_names name user_id (s ∷ ss))
              c
              (funds_channels name act user_id (s ∷ ss) c)
      unfolding funds_channels
      funds_step user_id s ss c none a e rest = rw (funds_channels, e) (rest c a)
      funds_step user_id s ss c (some funds) a e rest =
          let first = acts (name (with_user funds user_id)) c a in
          rw (funds_channels, e)
            (Switched-append on (name (with_user funds user_id) ∷ []) (funds_names name user_id ss)
              c _ _ first (rest _ first.agrees))
      funds_step user_id s ss c (some other) a e rest = rw (funds_channels, e) (rest c a)

      funds_channels-Switched :
          (user_id : ℕ) (ss : List String) (c : Connection T)
          → Agrees c
          → Switched on (funds_names name user_id ss) c (funds_channels name act user_id ss c)
      unfolding funds_channels
      funds_channels-Switched user_id [] c a = Switched-none on c a
      funds_channels-Switched user_id (s ∷ ss) c a =
          funds_step user_id s ss c (channel_of s) a refl
            (λ c' a'. funds_channels-Switched user_id ss c' a')

      pub currencies-Switched :
          (ids : List ℕ) (user_id : ℕ) (ss : List String) (c : Connection T)
          → Agrees c
          → Switched on
              (currency_names name ids user_id ss)
              c
              (currencies name act ids user_id ss c)
      unfolding currencies
      currencies-Switched [] user_id ss c a = Switched-none on c a
      currencies-Switched (i ∷ ids) user_id ss c a =
          let first = funds_channels-Switched user_id ss c a in
          Switched-append on _ _ c _ _ first (currencies-Switched ids user_id ss _ first.agrees)

    module _ (act : Channel → ℕ → ℕ → Connection T → Connection T)
        (acts : (channel : Channel) (p n : ℕ) (c : Connection T)
          → Agrees c
          → Switched on (n ∷ []) c (act channel p n c)) where
      -- The case of a channel that has a name.
      named_step :
          (token : TokenCheck) (p : ℕ) (s : String) (ss : List String) (c : Connection T)
          (channel : Channel) (n : ChannelName)
          → Agrees c
          → channel_of s ≡ some channel
          → case_of token p channel ≡ named n
          → is_trade (some channel) ≡ false
          → ((c' : Connection T)
              → Agrees c'
              → Ends on
                  (is_nil token && has_trade ss)
                  (product_names name token p ss)
                  c'
                  (product_channels name act token p ss c'))
          → Ends on
              (is_nil token && has_trade (s ∷ ss))
              (product_names name token p (s ∷ ss))
              c
              (product_channels name act token p (s ∷ ss) c)
      unfolding product_channels
      named_step token p s ss c channel n a e f same rest =
          let first = acts channel p (name n) c a in
          rw (product_channels, e, same, f)
            (after on (is_nil token && has_trade ss) (name n ∷ []) (product_names name token p ss) c
              _ _ first (rest _ first.agrees))

      product_step :
          (token : TokenCheck) (p : ℕ) (s : String) (ss : List String) (c : Connection T)
          (o : Option Channel)
          → Agrees c
          → channel_of s ≡ o
          → ((c' : Connection T)
              → Agrees c'
              → Ends on
                  (is_nil token && has_trade ss)
                  (product_names name token p ss)
                  c'
                  (product_channels name act token p ss c'))
          → Ends on
              (is_nil token && has_trade (s ∷ ss))
              (product_names name token p (s ∷ ss))
              c
              (product_channels name act token p (s ∷ ss) c)
      unfolding product_channels case_of
      product_step token p s ss c none a e rest = rw (product_channels, e) (rest c a)
      product_step token p s ss c (some funds) a e rest = rw (product_channels, e) (rest c a)
      product_step (of_user id) p s ss c (some trade) a e rest =
          let first = acts trade p (name (with_both trade p id)) c a in
          rw (product_channels, e)
            (after on false (name (with_both trade p id) ∷ [])
              (product_names name (of_user id) p ss) c _ _ first (rest _ first.agrees))
      product_step no_user p s ss c (some trade) a e rest = rw (product_channels, e) refl
      product_step token_error p s ss c (some trade) a e rest = rw (product_channels, e) refl
      product_step token p s ss c (some other) a e rest =
          named_step token p s ss c other _ a e refl refl rest

      no_products :
          (nil asks : Bool) (c : Connection T)
          → Agrees c
          → Ends on (nil && asks && false) [] c (some c)
      no_products false asks c a = (c, refl, Switched-none on c a)
      no_products true false c a = (c, refl, Switched-none on c a)
      no_products true true c a = (c, refl, Switched-none on c a)

      products_go :
          (token : TokenCheck) (p : ℕ) (ps : List ℕ) (ss : List String) (c : Connection T)
          → Ends on false (product_names name token p ss) c (product_channels name act token p ss c)
          → ((c' : Connection T)
              → Agrees c'
              → Ends on false
                  (products_names name token ps ss)
                  c'
                  (products name act token ps ss c'))
          → Ends on false
              (products_names name token (p ∷ ps) ss)
              c
              (products name act token (p ∷ ps) ss c)
      unfolding products
      products_go token p ps ss c (c', e, first) rest =
          rw (products, e)
            (after on false (product_names name token p ss) (products_names name token ps ss) c c' _
              first (rest c' first.agrees))

      products_step :
          (nil asks : Bool) (token : TokenCheck) (p : ℕ) (ps : List ℕ) (ss : List String)
          (c : Connection T)
          → Ends on
              (nil && asks)
              (product_names name token p ss)
              c
              (product_channels name act token p ss c)
          → ((c' : Connection T)
              → Agrees c'
              → Ends on
                  (nil && asks && not (is_empty ps))
                  (products_names name token ps ss)
                  c'
                  (products name act token ps ss c'))
          → Ends on
              (nil && asks && true)
              (products_names name token (p ∷ ps) ss)
              c
              (products name act token (p ∷ ps) ss c)
      unfolding products
      products_step true true token p ps ss c first rest = rw (products, first) refl
      products_step true false token p ps ss c first rest = products_go token p ps ss c first rest
      products_step false asks token p ps ss c first rest = products_go token p ps ss c first rest

      product_channels-Ends :
          (token : TokenCheck) (p : ℕ) (ss : List String) (c : Connection T)
          → Agrees c
          → Ends on
              (is_nil token && has_trade ss)
              (product_names name token p ss)
              c
              (product_channels name act token p ss c)
      unfolding product_channels
      product_channels-Ends (of_user id) p [] c a = (c, refl, Switched-none on c a)
      product_channels-Ends no_user p [] c a = (c, refl, Switched-none on c a)
      product_channels-Ends token_error p [] c a = (c, refl, Switched-none on c a)
      product_channels-Ends token p (s ∷ ss) c a =
          product_step token p s ss c (channel_of s) a refl
            (λ c' a'. product_channels-Ends token p ss c' a')

      pub products-Ends :
          (token : TokenCheck) (ps : List ℕ) (ss : List String) (c : Connection T)
          → Agrees c
          → Ends on
              (is_nil token && has_trade ss && not (is_empty ps))
              (products_names name token ps ss)
              c
              (products name act token ps ss c)
      unfolding products
      products-Ends token [] ss c a = no_products (is_nil token) (has_trade ss) c a
      products-Ends token (p ∷ ps) ss c a =
          products_step (is_nil token) (has_trade ss) token p ps ss c
            (product_channels-Ends token p ss c a) (λ c' a'. products-Ends token ps ss c' a')
