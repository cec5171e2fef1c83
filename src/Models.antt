-- ===== src/Models.antt =====
-- models/models.go and models/const.go: the values that the services exchange. A Go string type is
-- a data type with its declared constants; any other text of that type is `other_…`. Numbers of
-- the database (ids, offsets) are naturals; creation and update times are left out.
use Prim.Native.String.{String}
use cheetah_exchange.Prelude.{ℕ, Bool, Option, none, some, if◌then◌else◌, true, false}
use text.Mathlib.Text.{◌==◌ as str_eq}

abbrev pub table_order_split_count : ℕ
table_order_split_count = 128

pub data Side : Type 0 where
  buy sell other_side : Side

pub data OrderType : Type 0 where
  limit market other_type : OrderType

pub data TimeInForce : Type 0 where
  good_till_canceled immediate_or_cancel good_till_crossing fill_or_kill other_force : TimeInForce

pub data OrderStatus : Type 0 where
  new open_status cancelling cancelled partial filled other_status : OrderStatus

pub data DoneReason : Type 0 where
  reason_filled reason_cancelled other_reason : DoneReason

pub data Liquidity : Type 0 where
  taker maker other_liquidity : Liquidity

abbrev pub same_side : Side → Side → Bool
same_side buy buy = true
same_side sell sell = true
same_side other_side other_side = true
same_side _ _ = false

-- `Side.Opposite`
abbrev pub opposite : Side → Side
opposite buy = sell
opposite _ = buy

-- `NewSideFromString`
unfoldable pub side_of_string : String → Option Side
side_of_string s = if str_eq s "buy" then some buy else if str_eq s "sell" then some sell else none

-- `NewTimeInForceTypeFromString`
unfoldable pub time_in_force_of_string : String → Option TimeInForce
time_in_force_of_string s =
    if str_eq s "GTC"
    then some good_till_canceled
    else if str_eq s "IOC"
    then some immediate_or_cancel
    else if str_eq s "GTX"
    then some good_till_crossing
    else if str_eq s "FOK"
    then some fill_or_kill
    else none

-- `NewOrderStatusFromString`
unfoldable pub order_status_of_string : String → Option OrderStatus
order_status_of_string s =
    if str_eq s "new"
    then some new
    else if str_eq s "open"
    then some open_status
    else if str_eq s "cancelling"
    then some cancelling
    else if str_eq s "cancelled"
    then some cancelled
    else if str_eq s "partial"
    then some partial
    else if str_eq s "filled"
    then some filled
    else none

pub record Product (D : Type 0) : Type 0 where
  pub id : ℕ
  pub base_currency : ℕ
  pub quote_currency : ℕ
  pub base_min_size : D
  pub base_max_size : D
  pub quote_min_size : D
  pub quote_max_size : D
  pub base_scale : ℕ
  pub quote_scale : ℕ
  pub quote_increment : D

pub record Order (D : Type 0) : Type 0 where
  pub id : ℕ
  pub product_id : ℕ
  pub user_id : ℕ
  pub client_oid : ℕ
  pub size : D
  pub funds : D
  pub filled_size : D
  pub executed_value : D
  pub price : D
  pub fill_fees : D
  pub order_type : OrderType
  pub side : Side
  pub time_in_force : TimeInForce
  pub taker_fee_ratio : D
  pub maker_fee_ratio : D
  pub status : OrderStatus
  pub settled : Bool

pub record Account (D : Type 0) : Type 0 where
  pub user_id : ℕ
  pub currency : ℕ
  pub hold : D
  pub available : D

pub record Bill (D : Type 0) : Type 0 where
  pub id : ℕ
  pub user_id : ℕ
  pub currency : ℕ
  pub available : D
  pub hold : D
  pub settled : Bool
  pub notes : ℕ × ℕ

pub record Fill (D : Type 0) : Type 0 where
  pub id : ℕ
  pub trade_seq : ℕ
  pub order_id : ℕ
  pub message_seq : ℕ
  pub product_id : ℕ
  pub size : D
  pub price : D
  pub funds : D
  pub fee : D
  pub liquidity : Liquidity
  pub settled : Bool
  pub side : Side
  pub done : Bool
  pub done_reason : DoneReason
  pub log_offset : ℕ
  pub log_seq : ℕ

pub record Trade (D : Type 0) : Type 0 where
  pub product_id : ℕ
  pub trade_seq : ℕ
  pub taker_order_id : ℕ
  pub taker_user_id : ℕ
  pub maker_order_id : ℕ
  pub maker_user_id : ℕ
  pub price : D
  pub size : D
  pub side : Side
  pub log_offset : ℕ
  pub log_seq : ℕ

pub record Tick (D : Type 0) : Type 0 where
  pub product_id : ℕ
  pub granularity : ℕ
  pub time : ℕ
  pub open_price : D
  pub high : D
  pub low : D
  pub close : D
  pub volume : D
  pub quote_volume : D
  pub log_offset : ℕ
  pub log_seq : ℕ

pub record FeeRate (D : Type 0) : Type 0 where
  pub user_level : ℕ
  pub taker_fee_ratio : D
  pub maker_fee_ratio : D
