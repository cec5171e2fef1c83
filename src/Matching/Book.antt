-- ===== src/Matching/Book.antt =====
-- `orderBook` of matching/order_book.go. A run-time panic and `log.Fatal` are `none`. Sequence
-- numbers are int64, kept as bit patterns, so they wrap at `u64`. The iterator of the maker's queue
-- walks over the entries that the queue had when the loop began: the loop removes from the queue
-- only the entry that the iterator stands on.
pub mod Invariant
use cheetah_exchange.Prelude.{
  ℕ, zero, suc, ◌+◌, ◌/◌, ◌%◌, ◌^◌, ◌≡◌, Bool, true, false, not, ◌&&◌, ◌||◌, Option, none, some,
  List, [], ◌∷◌, ◌++◌, if◌then◌else◌, get_elem?, set, replicate, map, length, ◌==◌,
}
use cheetah_exchange.Prelude.Ids.{lookup}
use cheetah_exchange.Extern.Decimal.{
  Decimal, less_than_or_equal, greater_than, greater_than_or_equal, is_zero, min_of,
}
use cheetah_exchange.Extern.TreeMap.{TreeMap}
use cheetah_exchange.Models.{
  Product, Order, Side, buy, sell, other_side, opposite, OrderType, limit, market, other_type,
  DoneReason, reason_filled, reason_cancelled, table_order_split_count,
}
use cheetah_exchange.Matching.Window.{
  Window, u64, put, PutResult, put_ok, put_err, PutError, expired, existed, out_of_range,
  new_window,
}
use cheetah_exchange.Matching.Log.{
  Log, BookOrder, open_log, done_log, match_log, new_book_order, new_open_log, new_done_log,
  new_match_log,
}
use cheetah_exchange.Matching.Depth.{
  Key, Depth, compare_asc, compare_desc, new_depth, add_order, decr_size,
}

abbrev pub order_id_window_cap : ℕ
order_id_window_cap = 10000

pub record Book (D Q : Type 0) : Type 0 where
  pub product : Product D
  pub bids : Depth D Q
  pub asks : Depth D Q
  pub trade_seq : ℕ
  pub log_seq : ℕ
  pub order_id_windows : List Window

abbrev pub next_seq : ℕ → ℕ
next_seq s = (s + 1) % u64

-- `mysql.GetTableIndexByOrderId`
abbrev pub table_index : ℕ → ℕ
table_index id = id / 2 ^ 12 % table_order_split_count

-- By what a taker is measured: its size, its funds, or (an unknown type or side) nothing.
pub data Measure : Type 0 where
  by_size by_funds by_nothing : Measure

abbrev pub measure : OrderType → Side → Measure
measure limit side = by_size
measure market buy = by_funds
measure market sell = by_size
measure _ _ = by_nothing

-- What `calcTradeSize` returns, with the taker as it leaves it.
pub record Trading (D : Type 0) : Type 0 where
  pub taker : BookOrder D
  pub size : D
  pub funds_consumed : D
  pub taker_exhausted : Bool

module _ {D : Type 0} ⦃d : Decimal D⦄ where
  -- `prepareTakerOrder`
  abbrev pub market_price : OrderType → Side → D → D
  market_price market buy price = d.max_float32
  market_price market _ price = d.nought
  market_price _ _ price = price

  unfoldable pub prepare : BookOrder D → BookOrder D
  prepare o = record o { price = market_price o.order_type o.side o.price }

  abbrev pub prices_cross : Side → D → D → Bool
  prices_cross buy taker maker = greater_than_or_equal taker maker
  prices_cross _ taker maker = less_than_or_equal taker maker

  unfoldable pub size_by_size : BookOrder D → D → Trading D
  size_by_size taker maker_size =
      let size = min_of taker.size maker_size in
      let left = d.sub taker.size size in
      if is_zero taker.size
      then record {
        taker = taker;
        size = d.nought;
        funds_consumed = d.nought;
        taker_exhausted = true;
      }
      else record {
        taker = record taker { size = left };
        size = size;
        funds_consumed = d.nought;
        taker_exhausted = is_zero left;
      }

  unfoldable pub size_by_funds : BookOrder D → D → D → ℕ → Trading D
  size_by_funds taker maker_size maker_price base_scale =
      let taker_size = d.truncate (d.div taker.funds maker_price) base_scale in
      let size = min_of taker_size maker_size in
      let consumed = d.mul size maker_price in
      let left = d.sub taker.funds consumed in
      if is_zero taker.funds || is_zero taker_size
      then record {
        taker = taker;
        size = d.nought;
        funds_consumed = d.nought;
        taker_exhausted = true;
      }
      else record {
        taker = record taker { funds = left };
        size = size;
        funds_consumed = consumed;
        taker_exhausted = is_zero left;
      }

  -- `calcTradeSize`. Division by a zero price panics, unless the taker has no funds.
  unfoldable pub calc_trade_size : BookOrder D → BookOrder D → Product D → Option (Trading D)
  unfolding size_by_size size_by_funds
  calc_trade_size taker maker product = elim (measure taker.order_type taker.side) [
    | by_size ↦ some (size_by_size taker maker.size)
    | by_funds ↦
        if is_zero maker.price && not (is_zero taker.funds)
        then none
        else some (size_by_funds taker maker.size maker.price product.base_scale)
    | by_nothing ↦ none
  ]

  -- The check after a match: the taker has nothing left to trade with.
  abbrev pub exhausted : BookOrder D → Bool
  exhausted o = elim (measure o.order_type o.side) [
    | by_size ↦ is_zero o.size
    | by_funds ↦ is_zero o.funds
    | by_nothing ↦ false
  ]

-- `NewOrderBook`
unfoldable pub new_windows : ℕ → List Window
new_windows n = replicate n (new_window 0 order_id_window_cap)

module _ {D Q : Type 0} ⦃d : Decimal D⦄ ⦃t : TreeMap (Key D) ℕ Q⦄ where
  unfoldable pub new_order_book : Product D → Book D Q
  unfolding new_windows
  new_order_book product = record {
    product = product;
    bids = new_depth compare_desc;
    asks = new_depth compare_asc;
    trade_seq = 0;
    log_seq = 0;
    order_id_windows = new_windows table_order_split_count;
  }

module _ {D Q : Type 0} where
  -- `o.depths[side]`, which is nil for an unknown side.
  abbrev pub depth_of : Side → Book D Q → Option (Depth D Q)
  depth_of buy b = some b.bids
  depth_of sell b = some b.asks
  depth_of _ b = none

  -- `o.depths[side.Opposite()]`, which is never nil.
  abbrev pub makers_of : Side → Book D Q → Depth D Q
  makers_of buy b = b.asks
  makers_of _ b = b.bids

  abbrev pub with_makers : Side → Depth D Q → Book D Q → Book D Q
  with_makers buy m b = record b { asks = m }
  with_makers _ m b = record b { bids = m }

  abbrev pub with_depth : Side → Depth D Q → Book D Q → Book D Q
  with_depth buy m b = record b { bids = m }
  with_depth sell m b = record b { asks = m }
  with_depth _ m b = b
