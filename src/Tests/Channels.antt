-- ===== src/Tests/Channels.antt =====
-- The theorem on the requests of a client, with a number for each text.
use cheetah_exchange.Prelude.{ℕ, ◌+◌, ◌*◌, refl, Option, none, List, [], ◌∷◌}
use cheetah_exchange.Prelude.Codes.{codes}
use cheetah_exchange.Prelude.Ids.{lookup}
use cheetah_exchange.Pushing.Client.{of_user, Request, subscribe_request, Connection, on_message}
use cheetah_exchange.Pushing.Client.Session.{Agrees}
use cheetah_exchange.Pushing.Client.Asked.{Serves, key_of, on_message_lem}

-- A text as a number, and one product.
abbrev key : List ℕ → ℕ
key [] = 0
key (c ∷ cs) = c + 1 + 1114113 * key cs

abbrev product_text : ℕ → List ℕ
product_text p = codes "BTC-USDT"

abbrev no_ticker : ℕ → Option ℕ
no_ticker p = none

abbrev fresh : Connection ℕ
fresh = record {
  client = record { id = 7; waiting = 0 };
  channels = [];
  sub = [];
  asked = [];
  tickers = [];
}

fresh-Agrees : Agrees fresh
unfolding lookup
fresh-Agrees n = refl

-- A user's request for its orders and trades of a product, and for the changes of its book.
abbrev a_request : Request
a_request = record {
  request_type = subscribe_request;
  currency_ids = 2 ∷ [];
  product_ids = 1 ∷ [];
  channels = "order" ∷ "level2" ∷ "funds" ∷ "trade" ∷ [];
  token = of_user 5;
}

on_message_lem_example :
    Serves key product_text subscribe_request
      (of_user 5)
      a_request
      fresh
      (on_message (key_of key product_text) no_ticker a_request fresh)
on_message_lem_example = on_message_lem key product_text no_ticker a_request fresh fresh-Agrees
