-- ===== src/Tests/Placing.antt =====
-- The theorems on placing an order and on the fills of a trade, at small rows.
use cheetah_exchange.Prelude.{ℕ, ◌≡◌, refl, Option, some, [], ◌∷◌, inl, false}
use cheetah_exchange.Prelude.Int.{ℤ, pos}
use cheetah_exchange.Models.{Account, Bill, Fill, Order, FeeRate, buy, limit, good_till_canceled}
use cheetah_exchange.Matching.Log.{match_log}
use cheetah_exchange.Settle.{Result, done, hold_balance}
use cheetah_exchange.Settle.Place.{PlaceError, Request, place_order, order_amounts, limit_amounts}
use cheetah_exchange.Settle.Accept.{Accepted, place_order_lem}
use cheetah_exchange.Workers.Makers.{fills_of_log}
use cheetah_exchange.Workers.Settlement.{CancelsOut, HasRatios, fills_of_log_conserve}
use cheetah_exchange.Tests.Instances.{integers, integers-IsExact}
use cheetah_exchange.Tests.Books.{a_product}
use cheetah_exchange.Tests.Services.{rich, bid, ask, currencies_apart, a_match}

abbrev a_request : Request ℤ
a_request = record {
  id = 30;
  client_oid = 0;
  user_id = 2;
  order_type = limit;
  time_in_force = good_till_canceled;
  side = buy;
  size = pos 5;
  price = pos 10;
  funds = pos 0;
}

abbrev pub a_rate : FeeRate ℤ
a_rate = record { user_level = 0; taker_fee_ratio = pos 0; maker_fee_ratio = pos 0 }

abbrev pub accounts : ℕ → Option (Account ℤ)
accounts currency = some rich

abbrev Placed : Type 0
Placed = Order ℤ × Account ℤ × Bill ℤ

abbrev or_else : Result PlaceError Placed → Placed → Placed
or_else (done r) other = r
or_else _ other = other

abbrev placing : Result PlaceError Placed
placing = place_order a_request (some a_product) (some a_rate) accounts

abbrev nothing : Placed
nothing = (
  bid,
  rich,
  record {
    id = 0;
    user_id = 0;
    currency = 0;
    available = pos 0;
    hold = pos 0;
    settled = false;
    notes = (0, 0);
  },
)

place_order_lem_example :
    Accepted integers-IsExact accounts a_request a_product
      (or_else placing nothing).0
      (or_else placing nothing).1
      (or_else placing nothing).2
unfolding place_order order_amounts limit_amounts hold_balance
place_order_lem_example =
    place_order_lem integers-IsExact a_request a_product a_rate accounts (or_else placing nothing).0
      (or_else placing nothing).1 (or_else placing nothing).2 refl

bid-HasRatios : HasRatios bid
bid-HasRatios = record { taker_ratio = refl; maker_ratio = refl }

ask-HasRatios : HasRatios ask
ask-HasRatios = record { taker_ratio = refl; maker_ratio = refl }

fills_of_log_conserve_example :
    (f : Fill ℤ) × (g : Fill ℤ) × (fills_of_log 4 (match_log a_match) ≡ f ∷ g ∷ [])
    × (f.order_id ≡ 20)
    × (g.order_id ≡ 5)
    × CancelsOut integers-IsExact a_product currencies_apart bid ask f g
fills_of_log_conserve_example =
    fills_of_log_conserve integers-IsExact a_product currencies_apart 4 a_match bid ask refl refl
      bid-HasRatios ask-HasRatios (inl (refl, refl))
