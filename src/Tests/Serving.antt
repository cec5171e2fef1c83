-- ===== src/Tests/Serving.antt =====
-- The theorems on the handlers of orders and on the store behind them. A table of orders is the list
-- of its rows, the last one written first.
use Prim.Native.String.{String}
use cheetah_exchange.Prelude.{
  ℕ, ◌-◌, ◌≤◌, ◌≡◌, refl, true, false, ◌&&◌, Option, none, some, List, [], ◌∷◌, arith, inl, inr,
  length, All, if◌then◌else◌, ◌==◌, Bool-cases, Option-cases, ==→≡, subst, some_inj,
}
use cheetah_exchange.Prelude.Int.{ℤ, pos, negsuc}
use cheetah_exchange.Models.{Order, OrderStatus, new, open_status, cancelled}
use cheetah_exchange.Stores.{
  OrderTable, IsOrderTable, Tables, has_status, get_order_by_id, add_order, update_order,
  update_order_status,
}
use cheetah_exchange.Stores.Routes.{Reads, orders_round_trip}
use cheetah_exchange.Rest.{PlaceBody, Backend, place, cancel, look_up, named_order}
use cheetah_exchange.Rest.Lists.{OrdersQuery, get_orders}
use cheetah_exchange.Rest.Cancelling.{Cancels, cancel-Cancels}
use cheetah_exchange.Rest.Paging.{IsLimited, Pages, get_orders-Pages}
use cheetah_exchange.Rest.Placing.{Submits, place-Submits}
use cheetah_exchange.Tests.Instances.{integers, integers-IsExact}
use cheetah_exchange.Tests.Books.{a_product, buyer}
use cheetah_exchange.Tests.Placing.{accounts, a_rate}
use text.Mathlib.Text.{◌==◌ as str_eq}

abbrev Rows : Type 0
Rows = List (Order ℤ)

abbrev find : ℕ → Rows → Option (Order ℤ)
find id [] = none
find id (o ∷ os) = if o.id == id then some o else find id os

abbrev find_oid : ℕ → ℕ → Rows → Option (Order ℤ)
find_oid user oid [] = none
find_oid user oid (o ∷ os) =
    if (o.user_id == user) && (o.client_oid == oid) then some o else find_oid user oid os

abbrev of_user : ℕ → Rows → Rows
of_user user [] = []
of_user user (o ∷ os) = let rest = of_user user os in if o.user_id == user then o ∷ rest else rest

abbrev first : ℕ → Rows → Rows
first n [] = []
first n (o ∷ os) = let rest = first (n - 1) os in if n == 0 then [] else o ∷ rest

abbrev set_row : OrderStatus → OrderStatus → Option (Order ℤ) → Rows → Rows × ℕ
set_row old status none os = (os, 0)
set_row old status (some o) os =
    if has_status o.status old then (record o { status = status } ∷ os, 1) else (os, 0)

instance abbrev rows : OrderTable ℤ Rows
rows = record {
  by_id = find;
  by_client_oid = find_oid;
  select = λ q os. first q.limit (of_user q.user_id os);
  create = λ o os. elim (find o.id os) [ none ↦ some (o ∷ os) | some p ↦ none ];
  save = λ o os. o ∷ os;
  set_status = λ id old status os. set_row old status (find id os) os;
}

find_own : (id : ℕ) (os : Rows) (o : Order ℤ) → find id os ≡ some o → o.id ≡ id
find_own id [] o e = cc
find_own id (p ∷ os) o e = elim (Bool-cases (p.id == id)) [
  | inl here ↦
      let same : p ≡ o = some_inj (ground (arith, e, here)) in
      subst (λ (z : Order ℤ). z.id ≡ id) same (==→≡ p.id id here)
  | inr away ↦ find_own id os o (ground (arith, e, away))
]

sets_row :
    (id : ℕ) (old status : OrderStatus) (os : Rows) (o : Order ℤ)
    → find id os ≡ some o
    → has_status o.status old ≡ true
    → ((j : ℕ)
        → find j (set_row old status (find id os) os).0
          ≡ (if id == j then some (record o { status = status }) else find j os))
      × ((set_row old status (find id os) os).1 ≡ 1)
sets_row id old status os o found same =
    (λ j. rw (found, set_row, same, find_own id os o found) refl, rw (found, set_row, same) refl)

skips_row :
    (id : ℕ) (old status : OrderStatus) (os : Rows)
    → ((o : Order ℤ) → find id os ≡ some o → has_status o.status old ≡ false)
    → ((j : ℕ) → find j (set_row old status (find id os) os).0 ≡ find j os)
      × ((set_row old status (find id os) os).1 ≡ 0)
skips_row id old status os other = elim (Option-cases (find id os)) [
  | inl absent ↦ (λ j. rw (absent, set_row) refl, rw (absent, set_row) refl)
  | inr (o, found) ↦
      (λ j. rw (found, set_row, other o found) refl, rw (found, set_row, other o found) refl)
]

rows-IsOrderTable : IsOrderTable rows
rows-IsOrderTable = record {
  creates = λ o os absent. (o ∷ os, rw (rows, absent) refl, λ j. refl);
  saves = λ o os j. refl;
  sets = sets_row;
  skips = skips_row;
}

first_short : (n : ℕ) (os : Rows) → length (first n os) ≤ n
first_short n [] = omega arith
first_short n (o ∷ os) = ground (arith, first_short (n - 1) os)

first_own :
    (n user : ℕ) (os : Rows)
    → All (λ o. o.user_id ≡ user) os
    → All (λ o. o.user_id ≡ user) (first n os)
first_own n user [] h = tt
first_own n user (o ∷ os) h = ground (arith, h.0, first_own (n - 1) user os h.1)

of_user_own : (user : ℕ) (os : Rows) → All (λ o. o.user_id ≡ user) (of_user user os)
of_user_own user [] = tt
of_user_own user (o ∷ os) = elim (Bool-cases (o.user_id == user)) [
  | inl own ↦ rw (of_user, own) (==→≡ o.user_id user own, of_user_own user os)
  | inr other ↦ rw (of_user, other) (of_user_own user os)
]

rows-IsLimited : IsLimited rows
rows-IsLimited = record {
  at_most = λ q os. first_short q.limit (of_user q.user_id os);
  owned = λ q os. first_own q.limit q.user_id _ (of_user_own q.user_id os);
}

-- The user of the order has table 2, and so has the node that the id is from.
abbrev an_order : Order ℤ
an_order = buyer 8195 10 5

abbrev no_rows : Tables Rows
no_rows table = []

orders_round_trip_example :
    (s' : Tables Rows) × (add_order an_order no_rows ≡ some s')
    × Reads rows-IsOrderTable an_order no_rows s'
    × Reads rows-IsOrderTable
        (record an_order { status = open_status })
        s'
        (update_order_status ℤ 8195 new open_status s').0
    × ((update_order_status ℤ 8195 new open_status s').1 ≡ true)
    × Reads rows-IsOrderTable
        (record an_order { status = cancelled })
        s'
        (update_order (record an_order { status = cancelled }) s')
unfolding get_order_by_id
orders_round_trip_example =
    orders_round_trip rows-IsOrderTable an_order (record an_order { status = cancelled }) no_rows
      new open_status refl refl refl refl

-- Two orders of one user, in its table.
abbrev two_orders : Tables Rows
two_orders table =
    if table == 2 then an_order ∷ record (buyer 8196 10 5) { status = cancelled } ∷ [] else []

abbrev parse : String → Option ℕ
parse raw = some 8195

abbrev oid : List ℕ → ℕ
oid cs = 0

cancel-Cancels_example :
    Cancels {D = ℤ} 2
      (look_up true 2 oid (named_order parse "8195") two_orders)
      (cancel parse oid true 2 "8195" two_orders)
cancel-Cancels_example = cancel-Cancels parse oid true 2 "8195" two_orders

abbrev a_query : OrdersQuery
a_query = record {
  product_id = some 1;
  side = "buy";
  statuses = "new" ∷ [];
  before = pos 0;
  after = pos 0;
  limit = negsuc 4;
}

get_orders-Pages_example :
    Pages rows-IsLimited true 2 a_query two_orders (get_orders true 2 a_query two_orders)
get_orders-Pages_example = get_orders-Pages rows-IsLimited true 2 a_query two_orders

abbrev a_body : PlaceBody
a_body = record {
  client_oid = "";
  product_id = "BTC-USDT";
  size = "5";
  funds = "";
  price = "10";
  side = "buy";
  order_type = "";
  time_in_force = "";
}

abbrev decimal : String → Option ℤ
decimal s =
    if str_eq s "5" then some (pos 5) else if str_eq s "10" then some (pos 10) else some (pos 0)

abbrev a_backend : Backend ℤ
a_backend = record {
  is_uuid = λ s. true;
  decimal_of = decimal;
  number_of = λ s. 0;
  product_of = λ s. some a_product;
  fee_rate = some a_rate;
  accounts = accounts;
  next_id = 8195;
}

place-Submits_example :
    Submits integers-IsExact 2 a_backend (some a_body) (place 2 a_backend (some a_body))
place-Submits_example = place-Submits integers-IsExact 2 a_backend (some a_body) (omega arith)
