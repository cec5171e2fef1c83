-- ===== src/Rest.antt =====
-- rest/order_controller.go: the handlers of orders. What a handler meets is a parameter: the uuid
-- and decimal packages, the rows of the database, and the texts that it compares by number only.
-- The user is the one of the session. An order that goes to `submitOrder` is in `submitted`; whether
-- Kafka takes it is not told to the client.
use Prim.Native.String.{String}
use cheetah_exchange.Prelude.{
  ℕ, ◌≤◌, Bool, true, false, ◌&&◌, ◌||◌, not, Option, none, some, List, [], ◌∷◌, ◌++◌, map,
  if◌then◌else◌, leb, ltb, ◌==◌,
}
use cheetah_exchange.Prelude.Codes.{codes}
use cheetah_exchange.Prelude.Int.{ℤ, pos, negsuc}
use cheetah_exchange.Extern.Decimal.{Decimal}
use cheetah_exchange.Models.{
  Account, Bill, Order, Product, FeeRate, Side, buy, sell, other_side, OrderType, limit, market,
  other_type, TimeInForce, good_till_canceled, immediate_or_cancel, good_till_crossing,
  fill_or_kill, other_force, OrderStatus, new, open_status, cancelling, cancelled, partial, filled,
  other_status, side_of_string, order_status_of_string,
}
use cheetah_exchange.Settle.{Result, done, error, fatal}
use cheetah_exchange.Settle.Place.{PlaceError, Request, place_order}
use cheetah_exchange.Stores.{
  OrderTable, Tables, get_order_by_id, get_order_by_client_oid, get_orders_by_user_id,
}
use text.Mathlib.Text.{◌==◌ as str_eq}
pub mod Cancelling
pub mod Paging
pub mod Lists
pub mod Placing

-- What a handler answers: a status code, with the orders that it shows.
pub data Reply (D : Type 0) : Type 0 where
  bad_request server_error not_found ok_empty : Reply D
  one_order : Order D → Reply D
  page : List (Order D) → ℕ → ℕ → Reply D

pub record Outcome (D : Type 0) : Type 0 where
  pub reply : Reply D
  pub submitted : List (Order D)

-- `placeOrderRequest`
pub record PlaceBody : Type 0 where
  pub client_oid : String
  pub product_id : String
  pub size : String
  pub funds : String
  pub price : String
  pub side : String
  pub order_type : String
  pub time_in_force : String

-- What `PlaceOrder` meets: the packages, the number of a text, and the rows that the service reads,
-- with the id that it draws.
pub record Backend (D : Type 0) : Type 0 where
  pub is_uuid : String → Bool
  pub decimal_of : String → Option D
  pub number_of : String → ℕ
  pub product_of : String → Option (Product D)
  pub fee_rate : Option (FeeRate D)
  pub accounts : ℕ → Option (Account D)
  pub next_id : ℕ

-- `models.Side(text)`, `models.OrderType(text)` and `models.TimeInForceType(text)`, with the
-- defaults for a text that is empty.
unfoldable pub side_or_buy : String → Side
side_or_buy s =
    if str_eq s ""
    then buy
    else if str_eq s "buy"
    then buy
    else if str_eq s "sell"
    then sell
    else other_side

unfoldable pub type_or_limit : String → OrderType
type_or_limit s =
    if str_eq s ""
    then limit
    else if str_eq s "limit"
    then limit
    else if str_eq s "market"
    then market
    else other_type

unfoldable pub force_or_gtc : String → TimeInForce
force_or_gtc s =
    if str_eq s ""
    then good_till_canceled
    else if str_eq s "GTC"
    then good_till_canceled
    else if str_eq s "IOC"
    then immediate_or_cancel
    else if str_eq s "GTX"
    then good_till_crossing
    else if str_eq s "FOK"
    then fill_or_kill
    else other_force

module _ {D : Type 0} where
  abbrev pub replied : Reply D → Outcome D
  replied r = record { reply = r; submitted = [] }

  abbrev pub submit_placed : Result PlaceError (Order D × Account D × Bill D) → Outcome D
  submit_placed (done (o, a, bill)) = record { reply = one_order o; submitted = o ∷ [] }
  submit_placed _ = replied server_error

module _ {D : Type 0} ⦃d : Decimal D⦄ where
  abbrev pub request_of : ℕ → Backend D → PlaceBody → D → D → D → Request D
  request_of user_id k b size price funds = record {
    id = k.next_id;
    client_oid = k.number_of b.client_oid;
    user_id = user_id;
    order_type = type_or_limit b.order_type;
    time_in_force = force_or_gtc b.time_in_force;
    side = side_or_buy b.side;
    size = size;
    price = price;
    funds = funds;
  }

  -- `PlaceOrder` of the controller. `none` is a body that is no JSON of a request.
  unfoldable pub place : ℕ → Backend D → Option PlaceBody → Outcome D
  place user_id k none = replied bad_request
  place user_id k (some b) =
      if not (str_eq b.client_oid "") && not (k.is_uuid b.client_oid)
      then replied bad_request
      else elim (k.decimal_of b.size) [
        | none ↦ replied bad_request
        | some size ↦ elim (k.decimal_of b.price) [
          | none ↦ replied bad_request
          | some price ↦ elim (k.decimal_of b.funds) [
            | none ↦ replied bad_request
            | some funds ↦ submit_placed (
                place_order (request_of user_id k b size price funds) (k.product_of b.product_id)
                  k.fee_rate k.accounts)
          ]
        ]
      ]

-- `strings.HasPrefix(raw, "client:")` and `strings.Split(raw, ":")[1]`, on code points: what
-- stands between the first colon and the next.
unfoldable pub strip : List ℕ → List ℕ → Option (List ℕ)
strip [] cs = some cs
strip (p ∷ ps) [] = none
strip (p ∷ ps) (c ∷ cs) = let rest = strip ps cs in if p == c then rest else none

unfoldable pub until_colon : List ℕ → List ℕ
until_colon [] = []
until_colon (c ∷ cs) = let rest = until_colon cs in if c == b':' then [] else c ∷ rest

-- The order that a path names: a client's own id, a number, or nothing that is one.
pub data Named : Type 0 where
  client_order : List ℕ → Named
  order_number : ℕ → Named
  no_number : Named

unfoldable pub named_order : (String → Option ℕ) → String → Named
unfolding strip until_colon
named_order parse_uint raw = elim (strip (codes "client:") (codes raw)) [
  | some rest ↦ client_order (until_colon rest)
  | none ↦ elim (parse_uint raw) [ none ↦ no_number | some id ↦ order_number id ]
]

abbrev pub may_cancel : OrderStatus → Bool
may_cancel new = true
may_cancel open_status = true
may_cancel partial = true
may_cancel _ = false

abbrev pub as_cancelling : {D : Type 0} → Order D → Order D
as_cancelling o = record o { status = cancelling }

module _ {D : Type 0} where
  -- `CancelOrder` once the order has been looked up.
  unfoldable pub cancel_found : ℕ → Option (Order D) → Outcome D
  cancel_found user_id none = replied not_found
  cancel_found user_id (some o) =
      if not (o.user_id == user_id)
      then replied not_found
      else if not (may_cancel o.status)
      then replied bad_request
      else record { reply = ok_empty; submitted = as_cancelling o ∷ [] }

  abbrev pub reply_found : ℕ → Option (Option (Order D)) → Outcome D
  reply_found user_id none = replied server_error
  reply_found user_id (some found) = cancel_found user_id found

  module _ {T : Type 0} ⦃t : OrderTable D T⦄ where
    -- The look-up of `CancelOrder`; the store may fail.
    unfoldable pub look_up : Bool → ℕ → (List ℕ → ℕ) → Named → Tables T → Option (Option (Order D))
    look_up store_ok user_id oid_of n s = if not store_ok then none else elim n [
      | client_order oid ↦ some (get_order_by_client_oid user_id (oid_of oid) s)
      | order_number id ↦ some (get_order_by_id id s)
      | no_number ↦ some none
    ]

    unfoldable pub cancel_named : Bool → ℕ → (List ℕ → ℕ) → Named → Tables T → Outcome D
    cancel_named store_ok user_id oid_of no_number s = replied bad_request
    cancel_named store_ok user_id oid_of n s =
        reply_found user_id (look_up store_ok user_id oid_of n s)

    -- `CancelOrder`
    unfoldable pub cancel :
        (String → Option ℕ) → (List ℕ → ℕ) → Bool → ℕ → String → Tables T → Outcome D
    unfolding cancel_named
    cancel parse_uint oid_of store_ok user_id raw s =
        cancel_named store_ok user_id oid_of (named_order parse_uint raw) s
