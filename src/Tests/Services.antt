-- ===== src/Tests/Services.antt =====
-- The theorems on the services, the workers and the pushed order book, at small rows.
use cheetah_exchange.Prelude.{
  ℕ, ◌≡◌, ◌≢◌, refl, Bool, true, false, none, some, List, [], ◌∷◌, ◌++◌, arith, All, Option,
}
use cheetah_exchange.Prelude.Ids.{lookup}
use cheetah_exchange.Prelude.Int.{ℤ, pos, negsuc, ◌+ℤ◌}
use cheetah_exchange.Models.{
  Account, Bill, Order, Fill, Side, buy, sell, good_till_canceled, open_status, taker,
  reason_filled,
}
use cheetah_exchange.Matching.Log.{MatchLog}
use cheetah_exchange.Settle.{done, settle_trade, settle_fills}
use cheetah_exchange.Settle.Bills.{
  BillTable, IsBillTable, bill_limit, first_pending, write_row, execute_bill_rows, Executes,
  execute_bill_rows-Executes,
}
use cheetah_exchange.Settle.Trade.{net, IsTradeOf, settle_trade_conserves}
use cheetah_exchange.Settle.Release.{held_by, on_hold, still_held, any_done, settle_fills_release}
use cheetah_exchange.Pushing.PriceBook.{PriceBook, PriceLevel, Change, new_price_book, save_order}
use cheetah_exchange.Pushing.PriceBook.Levels.{Saved, save_order_lem}
use cheetah_exchange.Workers.Makers.{flush_all, flush_all_lem, items_of}
use cheetah_exchange.Workers.Ticks.{IsTick, AreTicks, make_ticks, make_ticks-IsTick, minutes}
use cheetah_exchange.Tests.Instances.{integers, integers-IsExact, ListMap, list_map}
use cheetah_exchange.Tests.Books.{a_product, buyer}

abbrev pub rich : Account ℤ
rich = record { user_id = 2; currency = 2; hold = pos 0; available = pos 70 }

abbrev pub a_bill : ℤ → ℤ → Bill ℤ
a_bill available hold = record {
  id = 0;
  user_id = 2;
  currency = 2;
  available = available;
  hold = hold;
  settled = false;
  notes = (0, 0);
}

-- A table of bills as the list of its rows.
instance abbrev bill_rows : BillTable ℤ (List (Bill ℤ))
bill_rows = record {
  unsettled_bills = λ user currency r. first_pending user currency bill_limit r;
  update_bill = λ b r. write_row b r;
}

abbrev bill_rows-IsBillTable : IsBillTable bill_rows
bill_rows-IsBillTable = record {
  rows = λ r. r;
  finds = λ user currency r. refl;
  writes = λ b r. refl;
}

abbrev two_bills : List (Bill ℤ)
two_bills =
    record (a_bill (pos 3) (pos 0)) { id = 1 } ∷ record (a_bill (pos 1) (negsuc 1)) { id = 2 } ∷ []

execute_bill_rows-Executes_example :
    Executes integers-IsExact 2 2 bill_rows-IsBillTable
      (some rich)
      two_bills
      (execute_bill_rows (some rich) 2 2 two_bills)
execute_bill_rows-Executes_example =
    execute_bill_rows-Executes integers-IsExact 2 2 bill_rows-IsBillTable (some rich) two_bills
      (((λ e. omega (arith, e)), tt), (tt, tt))

abbrev pub a_fill : ℕ → Side → Bool → Fill ℤ
a_fill order side ends = record {
  id = order;
  trade_seq = 1;
  order_id = order;
  message_seq = 1;
  product_id = 1;
  size = pos 3;
  price = pos 10;
  funds = pos 0;
  fee = pos 0;
  liquidity = taker;
  settled = false;
  side = side;
  done = ends;
  done_reason = reason_filled;
  log_offset = 1;
  log_seq = 1;
}

abbrev pub bid : Order ℤ
bid = record (buyer 20 10 5) { funds = pos 50; status = open_status }

abbrev pub ask : Order ℤ
ask = record (buyer 21 10 3) { side = sell; status = open_status }

pub currencies_apart : a_product.base_currency ≢ a_product.quote_currency
currencies_apart = omega arith

bid-IsTradeOf : IsTradeOf bid (a_fill 20 buy false)
bid-IsTradeOf = record {
  known_liquidity = λ e. cc;
  sized = refl;
  valued = refl;
  taker_ratio = refl;
  maker_ratio = refl;
}

ask-IsTradeOf : IsTradeOf ask (a_fill 21 sell false)
ask-IsTradeOf = record {
  known_liquidity = λ e. cc;
  sized = refl;
  valued = refl;
  taker_ratio = refl;
  maker_ratio = refl;
}

settle_trade_conserves_example :
    (r : Order ℤ × Fill ℤ × List (Bill ℤ)) × (s : Order ℤ × Fill ℤ × List (Bill ℤ)) × (settle_trade
        a_product bid
        (a_fill 20 buy false)
      ≡ done r)
    × (settle_trade a_product ask (a_fill 21 sell false) ≡ done s)
    × (net 1 (r.2 ++ s.2) ≡ pos 0)
    × (net 2 (r.2 ++ s.2) ≡ pos 0)
settle_trade_conserves_example =
    settle_trade_conserves integers-IsExact a_product currencies_apart bid ask (a_fill 20 buy false)
      (a_fill 21 sell false) refl refl bid-IsTradeOf ask-IsTradeOf refl refl

-- The fills of the buyer: a trade of three at ten, and the end.
abbrev two_fills : List (Fill ℤ)
two_fills = a_fill 20 buy false ∷ a_fill 20 buy true ∷ []

abbrev settled_bid : Order ℤ × List (Fill ℤ) × List (Bill ℤ)
unfolding settle_fills settle_trade
settled_bid = elim (settle_fills a_product bid two_fills) [ done r ↦ r | _ ↦ (bid, [], []) ]

settle_fills_release_example :
    on_hold buy bid +ℤ held_by 2 settled_bid.2
    ≡ still_held (any_done two_fills) (on_hold buy settled_bid.0)
unfolding settle_fills settle_trade settled_bid
settle_fills_release_example =
    settle_fills_release integers-IsExact a_product currencies_apart bid settled_bid.0 two_fills
      settled_bid.1 settled_bid.2 refl

abbrev Levels : Type 0
Levels = ListMap ℤ (PriceLevel ℤ)

abbrev empty_book : PriceBook ℤ Levels
unfolding new_price_book
empty_book = new_price_book

abbrev saved : Option (Option (Change ℤ) × PriceBook ℤ Levels)
saved = save_order 4 2 5 (pos 3) (pos 10) sell empty_book

abbrev saved_pair : Option (Change ℤ) × PriceBook ℤ Levels
unfolding saved
saved_pair = elim saved [ none ↦ (none, empty_book) | some r ↦ r ]

save_order_lem_example : Saved empty_book 5 (pos 3) saved_pair.0 saved_pair.1
unfolding save_order saved_pair empty_book lookup new_price_book
save_order_lem_example =
    save_order_lem 4 2 5 (pos 3) (pos 10) sell empty_book (λ id o e. cc) saved_pair.0 saved_pair.1
      refl

abbrev three_items : List (ℕ × ℕ)
three_items = (1, 2) ∷ (2, 1) ∷ (3, 0) ∷ []

flush_all_lem_example :
    (flush_all [] three_items).0 ++ (flush_all [] three_items).1 ≡ items_of three_items
flush_all_lem_example = flush_all_lem [] three_items

abbrev pub a_match : MatchLog ℤ
a_match = record {
  sequence = 1;
  product_id = 1;
  trade_seq = 1;
  taker_order_id = 20;
  maker_order_id = 5;
  taker_user_id = 2;
  maker_user_id = 1;
  side = buy;
  price = pos 10;
  size = pos 3;
  taker_time_in_force = good_till_canceled;
  maker_time_in_force = good_till_canceled;
}

no_ticks : AreTicks {D = ℤ} []
unfolding lookup
no_ticks g k e = cc

make_ticks-IsTick_example :
    All (λ k. IsTick k) (make_ticks 4 7200 a_match minutes []).0
    × AreTicks (make_ticks 4 7200 a_match minutes []).1
make_ticks-IsTick_example = make_ticks-IsTick integers-IsExact 4 7200 a_match minutes [] no_ticks
