-- ===== src/Matching/Log.antt =====
-- matching/log.go: the records that the engine emits, without the time of day that each carries;
-- and `BookOrder` of matching/order_book.go, which they are made from.
pub mod Sequence
use cheetah_exchange.Prelude.{ℕ, ◌+◌, ◌%◌, ◌^◌}
use cheetah_exchange.Models.{Order, Side, OrderType, TimeInForce, DoneReason}

pub record BookOrder (D : Type 0) : Type 0 where
  pub order_id : ℕ
  pub user_id : ℕ
  pub size : D
  pub funds : D
  pub price : D
  pub side : Side
  pub order_type : OrderType
  pub time_in_force : TimeInForce

pub record OpenLog (D : Type 0) : Type 0 where
  pub sequence : ℕ
  pub product_id : ℕ
  pub order_id : ℕ
  pub user_id : ℕ
  pub remaining_size : D
  pub price : D
  pub side : Side
  pub time_in_force : TimeInForce

pub record DoneLog (D : Type 0) : Type 0 where
  pub sequence : ℕ
  pub product_id : ℕ
  pub order_id : ℕ
  pub user_id : ℕ
  pub price : D
  pub remaining_size : D
  pub reason : DoneReason
  pub side : Side
  pub time_in_force : TimeInForce

pub record MatchLog (D : Type 0) : Type 0 where
  pub sequence : ℕ
  pub product_id : ℕ
  pub trade_seq : ℕ
  pub taker_order_id : ℕ
  pub maker_order_id : ℕ
  pub taker_user_id : ℕ
  pub maker_user_id : ℕ
  pub side : Side
  pub price : D
  pub size : D
  pub taker_time_in_force : TimeInForce
  pub maker_time_in_force : TimeInForce

pub data Log (D : Type 0) : Type 0 where
  open_log : OpenLog D → Log D
  done_log : DoneLog D → Log D
  match_log : MatchLog D → Log D

module _ {D : Type 0} where
  -- `GetSeq`
  abbrev pub get_seq : Log D → ℕ
  get_seq (open_log l) = l.sequence
  get_seq (done_log l) = l.sequence
  get_seq (match_log l) = l.sequence

  abbrev pub new_book_order : Order D → BookOrder D
  new_book_order o = record {
    order_id = o.id;
    user_id = o.user_id;
    size = o.size;
    funds = o.funds;
    price = o.price;
    side = o.side;
    order_type = o.order_type;
    time_in_force = o.time_in_force;
  }

  abbrev pub new_open_log : ℕ → ℕ → BookOrder D → OpenLog D
  new_open_log seq product o = record {
    sequence = seq;
    product_id = product;
    order_id = o.order_id;
    user_id = o.user_id;
    remaining_size = o.size;
    price = o.price;
    side = o.side;
    time_in_force = o.time_in_force;
  }

  abbrev pub new_done_log : ℕ → ℕ → BookOrder D → D → DoneReason → DoneLog D
  new_done_log seq product o remaining reason = record {
    sequence = seq;
    product_id = product;
    order_id = o.order_id;
    user_id = o.user_id;
    price = o.price;
    remaining_size = remaining;
    reason = reason;
    side = o.side;
    time_in_force = o.time_in_force;
  }

  abbrev pub new_match_log : ℕ → ℕ → ℕ → BookOrder D → BookOrder D → D → D → MatchLog D
  new_match_log seq product trade_seq taker maker price size = record {
    sequence = seq;
    product_id = product;
    trade_seq = trade_seq;
    taker_order_id = taker.order_id;
    maker_order_id = maker.order_id;
    taker_user_id = taker.user_id;
    maker_user_id = maker.user_id;
    side = maker.side;
    price = price;
    size = size;
    taker_time_in_force = taker.time_in_force;
    maker_time_in_force = maker.time_in_force;
  }
