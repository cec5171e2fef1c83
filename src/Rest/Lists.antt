-- ===== src/Rest/Lists.antt =====
-- `GetOrders` and `CancelOrders` of rest/order_controller.go: many orders of one user. Numbers of the
-- query are given as `strconv.ParseInt` gives them, and a product as its number, if its text is not
-- empty.
use Prim.Native.String.{String}
use cheetah_exchange.Prelude.{
  ℕ, Bool, ◌||◌, Option, none, some, List, [], ◌∷◌, map, if◌then◌else◌, leb, ltb,
}
use cheetah_exchange.Prelude.Int.{ℤ, pos, negsuc}
use cheetah_exchange.Models.{
  Order, Side, OrderStatus, new, open_status, side_of_string, order_status_of_string,
}
use cheetah_exchange.Stores.{OrderTable, Tables, get_orders_by_user_id}
use cheetah_exchange.Rest.{
  Outcome, replied, bad_request, server_error, ok_empty, page, as_cancelling,
}
use text.Mathlib.Text.{◌==◌ as str_eq}

pub record OrdersQuery : Type 0 where
  pub product_id : Option ℕ
  pub side : String
  pub statuses : List String
  pub before : ℤ
  pub after : ℤ
  pub limit : ℤ

-- The side of a query: none that is asked for, a known one, or a bad text.
pub data AskedSide : Type 0 where
  any_side bad_side : AskedSide
  one_side : Side → AskedSide

unfoldable pub asked_side : String → AskedSide
asked_side s =
    if str_eq s ""
    then any_side
    else elim (side_of_string s) [ none ↦ bad_side | some side ↦ one_side side ]

abbrev pub side_filter : AskedSide → Option Side
side_filter (one_side s) = some s
side_filter _ = none

unfoldable pub asked_statuses : List String → Option (List OrderStatus)
asked_statuses [] = some []
asked_statuses (s ∷ ss) = elim (order_status_of_string s) [
  | none ↦ none
  | some status ↦ elim (asked_statuses ss) [ none ↦ none | some rest ↦ some (status ∷ rest) ]
]

-- `if limit <= 0 || limit > 100 { limit = 100 }`
abbrev pub clamp_limit : ℤ → ℤ
clamp_limit (pos n) = if leb n 0 || ltb 100 n then pos 100 else pos n
clamp_limit (negsuc n) = pos 100

module _ {D : Type 0} where
  abbrev pub first_id : List (Order D) → ℕ
  first_id [] = 0
  first_id (o ∷ os) = o.id

  abbrev pub last_id : List (Order D) → ℕ
  last_id [] = 0
  last_id (o ∷ []) = o.id
  last_id (o ∷ (p ∷ os)) = last_id (p ∷ os)

  module _ {T : Type 0} ⦃t : OrderTable D T⦄ where
    -- `GetOrders` once its texts have been read.
    unfoldable pub get_page :
        Bool → ℕ → OrdersQuery → Tables T → AskedSide → Option (List OrderStatus) → Outcome D
    get_page store_ok user_id q s bad_side statuses = replied bad_request
    get_page store_ok user_id q s side none = replied bad_request
    get_page store_ok user_id q s side (some statuses) =
        let orders =
          get_orders_by_user_id user_id statuses (side_filter side) q.product_id q.before q.after
            (clamp_limit q.limit) s in
        if store_ok
        then replied (page orders (first_id orders) (last_id orders))
        else replied server_error

    unfoldable pub get_orders : Bool → ℕ → OrdersQuery → Tables T → Outcome D
    unfolding asked_side asked_statuses get_page
    get_orders store_ok user_id q s =
        get_page store_ok user_id q s (asked_side q.side) (asked_statuses q.statuses)

    -- Every order that is new or open is submitted once more, to be cancelled.
    unfoldable pub cancel_orders : Bool → ℕ → Option ℕ → String → Tables T → Outcome D
    unfolding asked_side
    cancel_orders store_ok user_id product_id raw_side s = elim (asked_side raw_side) [
      | bad_side ↦ replied bad_request
      | side ↦
          let orders =
            get_orders_by_user_id user_id (open_status ∷ new ∷ []) (side_filter side) product_id
              (pos 0) (pos 0) (pos 10000) s in
          if store_ok
          then record { reply = ok_empty; submitted = map as_cancelling orders }
          else replied server_error
    ]
