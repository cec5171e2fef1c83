-- ===== src/Tests/Books.antt =====
-- A small book: two sellers, in windows that have seen every id below 10; and orders that meet it.
use cheetah_exchange.Prelude.{
  ℕ, ◌<◌, ◌≤◌, refl, subst, some_inj, false, List, arith, inl, replicate, get_elem?-replicate,
  length-replicate, All-replicate, sym, ◌∙◌,
}
use cheetah_exchange.Prelude.Ids.{lookup, insert}
use cheetah_exchange.Prelude.Int.{ℤ, pos}
use cheetah_exchange.Extern.TreeMap.{IsTreeMap}
use cheetah_exchange.Extern.TreeMap.Sorted.{IsOrder}
use cheetah_exchange.Models.{
  Product, Order, buy, sell, limit, good_till_canceled, new, table_order_split_count,
}
use cheetah_exchange.Matching.Window.{Window, new_window}
use cheetah_exchange.Matching.Window.Put.{IsWindow}
use cheetah_exchange.Matching.Window.Seen.{Seen, new_window_lem}
use cheetah_exchange.Matching.Log.{BookOrder}
use cheetah_exchange.Matching.Depth.{Key, Depth, compare_asc, compare_desc, new_depth, add_order}
use cheetah_exchange.Matching.Depth.Order.{compare_asc-IsOrder, compare_desc-IsOrder}
use cheetah_exchange.Matching.Book.{Book, table_index}
use cheetah_exchange.Matching.Book.Invariant.{IsResting, IsBook, new_depth-IsSide}
use cheetah_exchange.Matching.Apply.Admit.{SeenIn}
use cheetah_exchange.Matching.Apply.Settle.{add_order-IsSide}
use cheetah_exchange.Matching.Apply.Submit.{IsValidOrder}
use cheetah_exchange.Tests.Instances.{
  integers, integers-IsExact, ListMap, list_map, list_map-IsTreeMap,
}

abbrev pub Queue : Type 0
Queue = ListMap (Key ℤ) ℕ

abbrev pub a_product : Product ℤ
a_product = record {
  id = 1;
  base_currency = 1;
  quote_currency = 2;
  base_min_size = pos 1;
  base_max_size = pos 1000;
  quote_min_size = pos 1;
  quote_max_size = pos 1000;
  base_scale = 0;
  quote_scale = 0;
  quote_increment = pos 1;
}

abbrev pub seller : ℕ → ℕ → ℕ → BookOrder ℤ
seller id price size = record {
  order_id = id;
  user_id = 1;
  size = pos size;
  funds = pos 0;
  price = pos price;
  side = sell;
  order_type = limit;
  time_in_force = good_till_canceled;
}

abbrev pub old_windows : List Window
old_windows = replicate table_order_split_count (new_window 10 10010)

abbrev pub two_sellers : Depth ℤ Queue
two_sellers = add_order (seller 6 11 4) (add_order (seller 5 10 3) (new_depth compare_asc))

abbrev pub a_book : Book ℤ Queue
a_book = record {
  product = a_product;
  bids = new_depth compare_desc;
  asks = two_sellers;
  trade_seq = 0;
  log_seq = 0;
  order_id_windows = old_windows;
}

abbrev pub buyer : ℕ → ℕ → ℕ → Order ℤ
buyer id price size = record {
  id = id;
  product_id = 1;
  user_id = 2;
  client_oid = 0;
  size = pos size;
  funds = pos 0;
  filled_size = pos 0;
  executed_value = pos 0;
  price = pos price;
  fill_fees = pos 0;
  order_type = limit;
  side = buy;
  time_in_force = good_till_canceled;
  taker_fee_ratio = pos 0;
  maker_fee_ratio = pos 0;
  status = new;
  settled = false;
}

pub old_seen : (id : ℕ) → id < 10 → SeenIn old_windows id
old_seen id h = (
  new_window 10 10010,
  get_elem?-replicate table_order_split_count (table_index id) (new_window 10 10010) (omega arith),
  ((new_window_lem 10 10010 (omega arith) (omega arith)).1 id).1 h,
)

pub seller-IsResting :
    (id price size : ℕ)
    → id < 10
    → 0 < price
    → IsResting (list_map-IsTreeMap (Key ℤ) ℕ) old_windows sell id (seller id price size)
seller-IsResting id price size h p = record {
  seen = old_seen id h;
  on_side = refl;
  is_limit = refl;
  priced = ground arith;
}

pub a_book-IsBook : IsBook (list_map-IsTreeMap (Key ℤ) ℕ) a_book
unfolding add_order new_depth lookup insert
a_book-IsBook = record {
  bids_ok =
      new_depth-IsSide tm compare_desc (compare_desc-IsOrder integers-IsExact) buy old_windows;
  asks_ok =
      add_order-IsSide tm compare_asc asc sell old_windows (seller 6 11 4) _
        (add_order-IsSide tm compare_asc asc sell old_windows (seller 5 10 3)
          (new_depth compare_asc) (new_depth-IsSide tm compare_asc asc sell old_windows) refl refl
          (seller-IsResting 5 10 3 (omega arith) (omega arith)))
        refl refl (seller-IsResting 6 11 4 (omega arith) (omega arith));
  are_windows = record {
    enough = length-replicate table_order_split_count (new_window 10 10010);
    each =
        All-replicate IsWindow table_order_split_count (new_window 10 10010)
          (new_window_lem 10 10010 (omega arith) (omega arith)).0;
  };
}
  where
    tm : IsTreeMap (list_map {K = Key ℤ} {V = ℕ})
    tm = list_map-IsTreeMap (Key ℤ) ℕ

    asc : IsOrder {K = Key ℤ} compare_asc
    asc = compare_asc-IsOrder integers-IsExact

pub buyer-IsValidOrder :
    (id price size : ℕ) → 0 < price → id < 1000 → IsValidOrder (buyer id price size)
buyer-IsValidOrder id price size p h = record {
  known_side = inl refl;
  known_type = inl refl;
  has_price = λ e. ground arith;
  small_id = omega arith;
}

pub old_unseen : (id : ℕ) → 10 ≤ id → ¬ SeenIn old_windows id
old_unseen id h (w, e, s) =
    let at =
      get_elem?-replicate table_order_split_count (table_index id) (new_window 10 10010)
        (omega arith) in
    let low =
      ((new_window_lem 10 10010 (omega arith) (omega arith)).1 id).0
        (subst (λ (z : Window). Seen z id) (some_inj (sym e ∙ at)) s) in
    omega arith
