-- ===== src/Settle/Place.antt =====
-- `PlaceOrder` of service/order_service.go: the checks and roundings, and the hold.
use cheetah_exchange.Prelude.{ℕ, Bool, false, not, ◌&&◌, ◌||◌, Option, none, some, if◌then◌else◌}
use cheetah_exchange.Extern.Decimal.{
  Decimal, is_zero, is_positive, less_than, less_than_or_equal, greater_than_or_equal,
}
use cheetah_exchange.Models.{
  Account, Bill, Order, Product, FeeRate, Side, buy, OrderType, limit, market, TimeInForce, new,
}
use cheetah_exchange.Settle.{Result, done, error, fatal, HoldError, hold_balance}

pub data PlaceError : Type 0 where
  unknown_product unknown_fee_rate invalid_fee_rate size_too_small bad_increment bad_price
        funds_too_small unknown_order_type :
      PlaceError
  cannot_hold : HoldError → PlaceError

-- The size, price and funds of an order, rounded and checked.
pub record Amounts (D : Type 0) : Type 0 where
  pub size : D
  pub price : D
  pub funds : D

-- The request of `PlaceOrder`, with the id that the snowflake node of the user's table gives.
pub record Request (D : Type 0) : Type 0 where
  pub id : ℕ
  pub client_oid : ℕ
  pub user_id : ℕ
  pub order_type : OrderType
  pub time_in_force : TimeInForce
  pub side : Side
  pub size : D
  pub price : D
  pub funds : D

module _ {D : Type 0} ⦃d : Decimal D⦄ where
  -- A ratio of a fee is from 0 up to, but not including, 1.
  abbrev pub bad_ratio : D → Bool
  bad_ratio r = less_than r d.nought || greater_than_or_equal r d.one

  abbrev pub checked_size : Product D → D → Result PlaceError D
  checked_size p size =
      let rounded = d.round size p.base_scale in
      if less_than rounded p.base_min_size then error size_too_small else done rounded

  -- The checks of the rounded price of a limit order, once its size is known.
  abbrev pub limit_checked : Product D → D → Result PlaceError D → Result PlaceError (Amounts D)
  limit_checked p price (done size) =
      if is_positive p.quote_increment && not (is_zero (d.mod_by price p.quote_increment))
      then error bad_increment
      else if less_than_or_equal price d.nought
      then error bad_price
      else done (record { size = size; price = price; funds = d.mul size price })
  limit_checked p price (error e) = error e
  limit_checked p price fatal = fatal

  unfoldable pub limit_amounts : Product D → D → D → Result PlaceError (Amounts D)
  limit_amounts p size price = limit_checked p (d.round price p.quote_scale) (checked_size p size)

  abbrev pub only_size : Result PlaceError D → Result PlaceError (Amounts D)
  only_size (done size) = done (record { size = size; price = d.nought; funds = d.nought })
  only_size (error e) = error e
  only_size fatal = fatal

  unfoldable pub market_amounts : Side → Product D → D → D → Result PlaceError (Amounts D)
  market_amounts buy p size funds =
      let funds' = d.round funds p.quote_scale in
      if less_than funds' p.quote_min_size
      then error funds_too_small
      else done (record { size = d.nought; price = d.nought; funds = funds' })
  market_amounts _ p size funds = only_size (checked_size p size)

  unfoldable pub order_amounts :
      OrderType → Side → Product D → D → D → D → Result PlaceError (Amounts D)
  unfolding limit_amounts market_amounts
  order_amounts limit side p size price funds = limit_amounts p size price
  order_amounts market side p size price funds = market_amounts side p size funds
  order_amounts _ side p size price funds = error unknown_order_type

  abbrev pub hold_currency : Side → Product D → ℕ
  hold_currency buy p = p.quote_currency
  hold_currency _ p = p.base_currency

  abbrev pub hold_size : Side → Amounts D → D
  hold_size buy a = a.funds
  hold_size _ a = a.size

  abbrev pub new_order : Request D → Product D → FeeRate D → Amounts D → Order D
  new_order q p rate a = record {
    id = q.id;
    product_id = p.id;
    user_id = q.user_id;
    client_oid = q.client_oid;
    size = a.size;
    funds = a.funds;
    filled_size = d.nought;
    executed_value = d.nought;
    price = a.price;
    fill_fees = d.nought;
    order_type = q.order_type;
    side = q.side;
    time_in_force = q.time_in_force;
    taker_fee_ratio = rate.taker_fee_ratio;
    maker_fee_ratio = rate.maker_fee_ratio;
    status = new;
    settled = false;
  }

  -- Once the hold has been tried.
  abbrev pub placed :
      Request D
      → Product D
      → FeeRate D
      → Amounts D
      → Result HoldError (Account D × Bill D)
      → Result PlaceError (Order D × Account D × Bill D)
  placed q p rate am (done (a, bill)) = done (new_order q p rate am, a, bill)
  placed q p rate am (error e) = error (cannot_hold e)
  placed q p rate am fatal = fatal

  -- Once the amounts have been checked: the hold of the order.
  abbrev pub hold_for :
      Request D
      → Product D
      → (ℕ → Option (Account D))
      → Amounts D
      → Result HoldError (Account D × Bill D)
  hold_for q p accounts am =
      let currency = hold_currency q.side p in
      hold_balance (accounts currency) q.user_id currency (hold_size q.side am)

  abbrev pub with_amounts :
      Request D
      → Product D
      → FeeRate D
      → (ℕ → Option (Account D))
      → Result PlaceError (Amounts D)
      → Result PlaceError (Order D × Account D × Bill D)
  with_amounts q p rate accounts (done am) = placed q p rate am (hold_for q p accounts am)
  with_amounts q p rate accounts (error e) = error e
  with_amounts q p rate accounts fatal = fatal

  -- `PlaceOrder`, with the rows that it reads: the product, the fee rate of the user's level, and the
  -- account in the currency that a product and a side hold. The id is taken to be of the user's table.
  unfoldable pub place_order :
      Request D
      → Option (Product D)
      → Option (FeeRate D)
      → (ℕ → Option (Account D))
      → Result PlaceError (Order D × Account D × Bill D)
  unfolding order_amounts hold_balance
  place_order q none rate accounts = error unknown_product
  place_order q (some p) none accounts = error unknown_fee_rate
  place_order q (some p) (some rate) accounts =
      if bad_ratio rate.maker_fee_ratio || bad_ratio rate.taker_fee_ratio
      then error invalid_fee_rate
      else with_amounts q p rate accounts
          (order_amounts q.order_type q.side p q.size q.price q.funds)
