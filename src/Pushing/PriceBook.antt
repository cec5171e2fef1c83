-- ===== src/Pushing/PriceBook.antt =====
-- `orderBook` of pushing/order_book.go, the price levels that are pushed to clients, and what
-- `runApplier` of pushing/order_book_stream.go does with a log. `none` is a panic. The texts that a
-- change carries are kept as values.
use cheetah_exchange.Prelude.{
  ℕ, zero, suc, ◌+◌, ◌-◌, Bool, true, false, ◌&&◌, Option, none, some, List, [], ◌∷◌, ◌++◌, map,
  Ordering, if◌then◌else◌, ltb,
}
use cheetah_exchange.Prelude.Ids.{IdMap, lookup, insert, erase}
use cheetah_exchange.Extern.Decimal.{Decimal, is_zero, less_than, flip}
use cheetah_exchange.Extern.TreeMap.{TreeMap}
use cheetah_exchange.Models.{
  Side, buy, sell, other_side, limit, other_type, good_till_canceled, other_force,
}
use cheetah_exchange.Matching.Log.{Log, BookOrder, open_log, done_log, match_log, get_seq}
pub mod Levels
pub mod Totals
pub mod Sides
pub mod Moves
pub mod Sums
pub mod Levelled
pub mod Save
pub mod Alike
pub mod Restored

pub record PriceLevel (D : Type 0) : Type 0 where
  pub price : D
  pub size : D
  pub order_count : ℕ

-- `orderBook`, with its two depths. An order of it has a size, a side and a price.
pub record PriceBook (D L : Type 0) : Type 0 where
  pub seq : ℕ
  pub log_offset : ℕ
  pub log_seq : ℕ
  pub bids : L
  pub asks : L
  pub orders : IdMap (BookOrder D)

-- `Level2Change`
pub record Change (D : Type 0) : Type 0 where
  pub seq : ℕ
  pub side : Side
  pub price : D
  pub size : D

pub record Level2Snapshot (D : Type 0) : Type 0 where
  pub seq : ℕ
  pub asks : List (PriceLevel D)
  pub bids : List (PriceLevel D)

pub record FullSnapshot (D : Type 0) : Type 0 where
  pub seq : ℕ
  pub log_offset : ℕ
  pub log_seq : ℕ
  pub orders : List (BookOrder D)

module _ {D : Type 0} ⦃d : Decimal D⦄ where
  -- `utils.DecimalDescComparator`, and `utils.DecimalAscComparator`, which is `Cmp`.
  abbrev pub compare_price_desc : D → D → Ordering
  compare_price_desc a b = flip (d.cmp a b)

  -- An order as `saveOrder` makes it: the fields that it does not set are zero.
  abbrev pub shown_order : ℕ → D → D → Side → BookOrder D
  shown_order id size price side = record {
    order_id = id;
    user_id = 0;
    size = size;
    funds = d.nought;
    price = price;
    side = side;
    order_type = other_type;
    time_in_force = other_force;
  }

module _ {D : Type 0} where
  abbrev pub first_levels : ℕ → List (D × PriceLevel D) → List (PriceLevel D)
  first_levels zero es = []
  first_levels (suc n) [] = []
  first_levels (suc n) (e ∷ es) = e.1 ∷ first_levels n es

module _ {D L : Type 0} ⦃d : Decimal D⦄ ⦃t : TreeMap D (PriceLevel D) L⦄ where
  unfoldable pub new_price_book : PriceBook D L
  new_price_book = record {
    seq = 0;
    log_offset = 0;
    log_seq = 0;
    bids = t.new_with compare_price_desc;
    asks = t.new_with d.cmp;
    orders = [];
  }

  -- A new order at a price: its level grows, or begins.
  unfoldable pub grow_level : D → D → L → PriceLevel D × L
  grow_level price size levels = elim (t.get price levels) [
    | none ↦
        let level : PriceLevel D = record { price = price; size = size; order_count = 1 } in
        (level, t.put price level levels)
    | some old ↦
        let level : PriceLevel D = record old {
          size = d.add old.size size;
          order_count = old.order_count + 1;
        } in
        (level, t.put price level levels)
  ]

  -- An order of a level has become smaller by a size, and may be gone. A level without size goes.
  unfoldable pub shrink_level : D → D → Bool → L → Option (PriceLevel D × L)
  shrink_level price decrease gone levels = elim (t.get price levels) [
    | none ↦ none
    | some old ↦
        let size = d.sub old.size decrease in
        let level : PriceLevel D = record old { size = size } in
        let fewer : PriceLevel D = record level { order_count = old.order_count - 1 } in
        if is_zero size
        then some (level, t.remove price levels)
        else if gone
        then some (fewer, t.put price fewer levels)
        else some (level, t.put price level levels)
  ]

  -- `s.depths[side]`, which is nil for an unknown side.
  abbrev pub levels_of : Side → PriceBook D L → Option L
  levels_of buy b = some b.bids
  levels_of sell b = some b.asks
  levels_of _ b = none

  abbrev pub with_levels : Side → L → PriceBook D L → PriceBook D L
  with_levels buy l b = record b { bids = l }
  with_levels sell l b = record b { asks = l }
  with_levels _ l b = b

  -- The end of `saveOrder`.
  abbrev pub changed :
      ℕ
      → ℕ
      → Side
      → PriceLevel D
      → L
      → IdMap (BookOrder D)
      → PriceBook D L
      → Option (Change D) × PriceBook D L
  changed offset log_seq side level levels orders b = (
    some (record { seq = b.seq + 1; side = side; price = level.price; size = level.size }),
    record (with_levels side levels b) {
      seq = b.seq + 1;
      log_offset = offset;
      log_seq = log_seq;
      orders = orders;
    },
  )

  unfoldable pub save_new :
      ℕ → ℕ → ℕ → D → D → Side → L → PriceBook D L → Option (Change D) × PriceBook D L
  unfolding grow_level
  save_new offset log_seq id size price side levels b =
      let (level, levels') = grow_level price size levels in
      let orders = insert id (shown_order id size price side) b.orders in
      changed offset log_seq side level levels' orders b

  unfoldable pub save_known :
      ℕ
      → ℕ
      → BookOrder D
      → D
      → D
      → Side
      → L
      → PriceBook D L
      → Option (Option (Change D) × PriceBook D L)
  unfolding shrink_level
  save_known offset log_seq o size price side levels b =
      let orders =
        if is_zero size
        then erase o.order_id b.orders
        else insert o.order_id (record o { size = size }) b.orders in
      elim (shrink_level price (d.sub o.size size) (is_zero size) levels) [
        | none ↦ none
        | some (level, levels') ↦ some (changed offset log_seq side level levels' orders b)
      ]

  -- `saveOrder`. A nil depth panics as soon as it is used.
  unfoldable pub save_order :
      ℕ → ℕ → ℕ → D → D → Side → PriceBook D L → Option (Option (Change D) × PriceBook D L)
  unfolding save_new save_known
  save_order offset log_seq id size price side b =
      if less_than size d.nought then none else elim (lookup id b.orders) [
        | none ↦ if is_zero size then some (none, b) else elim (levels_of side b) [
          | none ↦ none
          | some levels ↦ some (save_new offset log_seq id size price side levels b)
        ]
        | some o ↦ elim (levels_of side b) [
          | none ↦ none
          | some levels ↦ save_known offset log_seq o size price side levels b
        ]
      ]

  -- What the applier does with a log: a log that ends an order which is not shown is passed over,
  -- and a trade of a maker that is not shown panics.
  unfoldable pub on_shown_log :
      ℕ → Log D → PriceBook D L → Option (Option (Change D) × PriceBook D L)
  unfolding save_order
  on_shown_log offset (done_log l) b = elim (lookup l.order_id b.orders) [
    | none ↦ some (none, b)
    | some o ↦
        save_order offset l.sequence l.order_id (d.sub o.size l.remaining_size) l.price l.side b
  ]
  on_shown_log offset (open_log l) b =
      save_order offset l.sequence l.order_id l.remaining_size l.price l.side b
  on_shown_log offset (match_log l) b = elim (lookup l.maker_order_id b.orders) [
    | none ↦ none
    | some o ↦ save_order offset l.sequence l.maker_order_id (d.sub o.size l.size) l.price l.side b
  ]

  unfoldable pub snapshot_level2 : ℕ → PriceBook D L → Level2Snapshot D
  snapshot_level2 levels b = record {
    seq = b.seq;
    asks = first_levels levels (t.entries b.asks);
    bids = first_levels levels (t.entries b.bids);
  }

  -- Go gives the orders of the map in any order.
  unfoldable pub snapshot_full : PriceBook D L → FullSnapshot D
  snapshot_full b = record {
    seq = b.seq;
    log_offset = b.log_offset;
    log_seq = b.log_seq;
    orders = map (λ e. e.1) b.orders;
  }

  unfoldable pub save_all : List (BookOrder D) → PriceBook D L → Option (PriceBook D L)
  unfolding save_order
  save_all [] b = some b
  save_all (o ∷ os) b = elim (save_order 0 0 o.order_id o.size o.price o.side b) [
    | none ↦ none
    | some r ↦ save_all os r.1
  ]

  unfoldable pub restore_price_book : FullSnapshot D → PriceBook D L → Option (PriceBook D L)
  unfolding save_all
  restore_price_book s b = elim (save_all s.orders b) [
    | none ↦ none
    | some b' ↦ some (record b' { seq = s.seq; log_offset = s.log_offset; log_seq = s.log_seq })
  ]
