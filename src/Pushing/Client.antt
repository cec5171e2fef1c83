-- ===== src/Pushing/Client.antt =====
-- The requests of one connection: pushing/client.go, and the channel names of pushing/message.go.
-- The hub knows a channel by a number, `name` of its parts, which is to number their text; a product
-- and a currency are numbers. What `service.CheckToken` gives for the request's token is an argument.
-- `none` is a panic.
use Prim.Native.String.{String}
use cheetah_exchange.Prelude.{
  ℕ, Bool, true, false, Option, none, some, List, [], ◌∷◌, ◌++◌, if◌then◌else◌, zero, suc, ◌+◌, ◌/◌,
  ◌%◌, ltb,
}
use cheetah_exchange.Prelude.Codes.{codes}
use cheetah_exchange.Prelude.Ids.{IdMap, lookup, insert, erase}
use cheetah_exchange.Pushing.Subscription
use cheetah_exchange.Pushing.Subscription.{Subscribers}
use text.Mathlib.Text.{◌==◌ as str_eq}
pub mod Names
pub mod Session
pub mod Switching
pub mod Requests
pub mod Asked

-- The constants of type `Channel`; `candles` has the minutes.
pub data Channel : Type 0 where
  ticker match trade level2 funds order : Channel
  candles : ℕ → Channel

-- `FormatWithProductId`, `FormatWithUserId` and `Format`.
pub data ChannelName : Type 0 where
  with_product : Channel → ℕ → ChannelName
  with_user : Channel → ℕ → ChannelName
  with_both : Channel → ℕ → ℕ → ChannelName

-- A number as `%v` prints it; a 64-bit one has at most twenty digits.
unfoldable digits : ℕ → ℕ → List ℕ → List ℕ
digits zero n later = later
digits (suc fuel) n later =
    let longer = digits fuel (n / 10) ((48 + n % 10) ∷ later) in
    if ltb n 10 then (48 + n) ∷ later else longer

abbrev pub printed : ℕ → List ℕ
unfolding digits
printed n = digits 20 n []

-- The texts of the constants.
abbrev pub channel_text : Channel → List ℕ
channel_text ticker = codes "ticker"
channel_text match = codes "match"
channel_text trade = codes "trade"
channel_text level2 = codes "level2"
channel_text funds = codes "funds"
channel_text order = codes "order"
channel_text (candles minutes) = codes "candles_" ++ printed minutes ++ codes "m"

-- `fmt.Sprintf` of the parts, as code points, for the texts of the products.
abbrev pub name_text : (ℕ → List ℕ) → ChannelName → List ℕ
name_text product_text (with_product channel p) =
    channel_text channel ++ codes ":" ++ product_text p
name_text product_text (with_user channel u) = channel_text channel ++ codes ":" ++ printed u
name_text product_text (with_both channel p u) =
    channel_text channel ++ codes ":" ++ product_text p ++ codes ":" ++ printed u

-- What `CheckToken` gives: an error, no user, or a user's id.
pub data TokenCheck : Type 0 where
  token_error no_user : TokenCheck
  of_user : ℕ → TokenCheck

pub data RequestType : Type 0 where
  subscribe_request unsubscribe_request other_request : RequestType

pub record Request : Type 0 where
  pub request_type : RequestType
  pub currency_ids : List ℕ
  pub product_ids : List ℕ
  pub channels : List String
  pub token : TokenCheck

-- A client with the hub's subscriptions: the channels it knows of, the products for which it has
-- put a change into `l2ChangeCh`, and the tickers it has put into `writeCh`.
pub record Connection (T : Type 0) : Type 0 where
  pub client : Subscription.Client
  pub channels : IdMap (Unit {0})
  pub sub : Subscribers
  pub asked : List ℕ
  pub tickers : List T

-- `Channel(text)`, where the text is one of the constants.
unfoldable pub channel_of : String → Option Channel
channel_of s =
    if str_eq s "ticker"
    then some ticker
    else if str_eq s "match"
    then some match
    else if str_eq s "trade"
    then some trade
    else if str_eq s "level2"
    then some level2
    else if str_eq s "funds"
    then some funds
    else if str_eq s "order"
    then some order
    else if str_eq s "candles_1m"
    then some (candles 1)
    else if str_eq s "candles_3m"
    then some (candles 3)
    else if str_eq s "candles_5m"
    then some (candles 5)
    else if str_eq s "candles_15m"
    then some (candles 15)
    else if str_eq s "candles_30m"
    then some (candles 30)
    else if str_eq s "candles_60m"
    then some (candles 60)
    else if str_eq s "candles_120m"
    then some (candles 120)
    else if str_eq s "candles_240m"
    then some (candles 240)
    else if str_eq s "candles_360m"
    then some (candles 360)
    else if str_eq s "candles_720m"
    then some (candles 720)
    else if str_eq s "candles_1440m"
    then some (candles 1440)
    else none

-- `userId`, 0 where there is no user.
abbrev pub user_id_of : TokenCheck → ℕ
user_id_of token_error = 0
user_id_of no_user = 0
user_id_of (of_user id) = id

-- A case of the switch over a product's channel: passed over, a name, or `user.Id` of no user.
pub data Case : Type 0 where
  passed_over nil_user : Case
  named : ChannelName → Case

unfoldable pub case_of : TokenCheck → ℕ → Channel → Case
case_of (of_user id) product trade = named (with_both trade product id)
case_of no_user product trade = nil_user
case_of token_error product trade = nil_user
case_of token product order = named (with_both order product (user_id_of token))
case_of token product funds = passed_over
case_of token product ticker = named (with_product ticker product)
case_of token product match = named (with_product match product)
case_of token product level2 = named (with_product level2 product)
case_of token product (candles minutes) = named (with_product (candles minutes) product)

module _ {T : Type 0} where
  abbrev pub has_channel : ℕ → Connection T → Bool
  has_channel n c = elim (lookup n c.channels) [ none ↦ false | some _ ↦ true ]

  -- `Client.subscribe`
  unfoldable pub join : ℕ → Connection T → Bool × Connection T
  join n c =
      if has_channel n c
      then (false, c)
      else let (new, sub) = Subscription.subscribe n c.client c.sub in
        if new
        then (true, record c { channels = insert n tt c.channels; sub = sub })
        else (false, record c { sub = sub })

  -- `Client.unsubscribe`
  unfoldable pub leave : ℕ → Connection T → Connection T
  leave n c =
      let (known, sub) = Subscription.unsubscribe n c.client c.sub in
      if known
      then record c { channels = erase n c.channels; sub = sub }
      else record c { sub = sub }

  leave_all : List (ℕ × Unit {0}) → Connection T → Connection T
  leave_all [] c = c
  leave_all ((n, _) ∷ ns) c =
      leave_all ns (record c { sub = (Subscription.unsubscribe n c.client c.sub).1 })

  -- `Client.close`, which keeps what it knows of the channels.
  unfoldable pub close : Connection T → Connection T
  unfolding leave_all
  close c = leave_all c.channels c

module _ {T : Type 0} (name : ChannelName → ℕ) where
  -- `for range currencyIds { for channels }`, for subscribing and for unsubscribing.
  unfoldable pub funds_channels :
      (ℕ → Connection T → Connection T) → ℕ → List String → Connection T → Connection T
  funds_channels act user_id [] c = c
  funds_channels act user_id (s ∷ ss) c = elim (channel_of s) [
    | some funds ↦ funds_channels act user_id ss (act (name (with_user funds user_id)) c)
    | _ ↦ funds_channels act user_id ss c
  ]

  unfoldable pub currencies :
      (ℕ → Connection T → Connection T) → List ℕ → ℕ → List String → Connection T → Connection T
  currencies act [] user_id ss c = c
  currencies act (_ ∷ ids) user_id ss c =
      currencies act ids user_id ss (funds_channels act user_id ss c)

  -- The loop over a product's channels; `act` is what the case of a channel does with its name.
  unfoldable pub product_channels :
      (Channel → ℕ → ℕ → Connection T → Connection T)
      → TokenCheck
      → ℕ
      → List String
      → Connection T
      → Option (Connection T)
  product_channels act token product [] c = some c
  product_channels act token product (s ∷ ss) c = elim (channel_of s) [
    | none ↦ product_channels act token product ss c
    | some channel ↦ elim (case_of token product channel) [
      | passed_over ↦ product_channels act token product ss c
      | nil_user ↦ none
      | named n ↦ product_channels act token product ss (act channel product (name n) c)
    ]
  ]

  unfoldable pub products :
      (Channel → ℕ → ℕ → Connection T → Connection T)
      → TokenCheck
      → List ℕ
      → List String
      → Connection T
      → Option (Connection T)
  products act token [] ss c = some c
  products act token (p ∷ ps) ss c = elim (product_channels act token p ss c) [
    | none ↦ none
    | some c' ↦ products act token ps ss c'
  ]

  -- A case of `onSub`, by its channel.
  unfoldable pub join_channel : (ℕ → Option T) → Channel → ℕ → ℕ → Connection T → Connection T
  join_channel last_ticker level2 product n c =
      let (new, c') = join n c in if new then record c' { asked = c'.asked ++ product ∷ [] } else c'
  join_channel last_ticker ticker product n c =
      let (new, c') = join n c in
      if new
      then elim (last_ticker product) [
        | none ↦ c'
        | some t ↦ record c' { tickers = c'.tickers ++ t ∷ [] }
      ]
      else c'
  join_channel last_ticker channel product n c = (join n c).1

  unfoldable pub on_sub :
      (ℕ → Option T)
      → List ℕ
      → List ℕ
      → List String
      → TokenCheck
      → Connection T
      → Option (Connection T)
  on_sub last_ticker currency_ids product_ids ss token_error c = some c
  on_sub last_ticker currency_ids product_ids ss token c =
      products (join_channel last_ticker) token product_ids ss
        (currencies (λ n c'. (join n c').1) currency_ids (user_id_of token) ss c)

  unfoldable pub on_un_sub :
      List ℕ → List ℕ → List String → TokenCheck → Connection T → Option (Connection T)
  on_un_sub currency_ids product_ids ss token_error c = some c
  on_un_sub currency_ids product_ids ss token c =
      products (λ channel product n c'. leave n c') token product_ids ss
        (currencies leave currency_ids (user_id_of token) ss c)

  unfoldable pub on_message : (ℕ → Option T) → Request → Connection T → Option (Connection T)
  on_message last_ticker r c = elim r.request_type [
    | subscribe_request ↦ on_sub last_ticker r.currency_ids r.product_ids r.channels r.token c
    | unsubscribe_request ↦ on_un_sub r.currency_ids r.product_ids r.channels r.token c
    | other_request ↦ some c
  ]
