-- ===== src/Pushing/Client/Names.antt =====
-- The channels that a request of pushing/client.go names, as one flat list.
use Prim.Native.String.{String}
use cheetah_exchange.Prelude.{ℕ, Bool, true, false, ◌||◌, Option, none, some, List, [], ◌∷◌, ◌++◌}
use cheetah_exchange.Pushing.Client.{
  Channel, trade, funds, ChannelName, with_user, TokenCheck, token_error, no_user, of_user, Request,
  channel_of, user_id_of, named, Case, case_of,
}

abbrev pub is_nil : TokenCheck → Bool
is_nil (of_user id) = false
is_nil no_user = true
is_nil token_error = true

abbrev pub is_trade : Option Channel → Bool
is_trade (some trade) = true
is_trade _ = false

abbrev pub has_trade : List String → Bool
has_trade [] = false
has_trade (s ∷ ss) = is_trade (channel_of s) || has_trade ss

abbrev pub is_empty : List ℕ → Bool
is_empty [] = true
is_empty (x ∷ xs) = false

module _ (name : ChannelName → ℕ) where
  abbrev pub funds_name : ℕ → Option Channel → List ℕ
  funds_name user_id (some funds) = name (with_user funds user_id) ∷ []
  funds_name user_id _ = []

  abbrev pub funds_names : ℕ → List String → List ℕ
  funds_names user_id [] = []
  funds_names user_id (s ∷ ss) = funds_name user_id (channel_of s) ++ funds_names user_id ss

  abbrev pub currency_names : List ℕ → ℕ → List String → List ℕ
  currency_names [] user_id ss = []
  currency_names (_ ∷ ids) user_id ss = funds_names user_id ss ++ currency_names ids user_id ss

  abbrev pub case_names : Case → List ℕ
  case_names (named n) = name n ∷ []
  case_names _ = []

  abbrev pub product_name : TokenCheck → ℕ → Option Channel → List ℕ
  product_name token p none = []
  product_name token p (some channel) = case_names (case_of token p channel)

  abbrev pub product_names : TokenCheck → ℕ → List String → List ℕ
  product_names token p [] = []
  product_names token p (s ∷ ss) = product_name token p (channel_of s) ++ product_names token p ss

  abbrev pub products_names : TokenCheck → List ℕ → List String → List ℕ
  products_names token [] ss = []
  products_names token (p ∷ ps) ss = product_names token p ss ++ products_names token ps ss

  -- The names of all channels that a request is about.
  abbrev pub wanted : Request → List ℕ
  wanted r =
      currency_names r.currency_ids (user_id_of r.token) r.channels
      ++ products_names r.token r.product_ids r.channels
