-- ===== src/Stores.antt =====
-- models/mysql/order_store.go: the store of orders, which are spread over the tables g_order_0 to
-- g_order_127 by their user. A table of the database and the statements that gorm sends to it are
-- parameters; creation and update times are left out, and so are transactions.
use cheetah_exchange.Prelude.{
  ℕ, ◌%◌, ◌/◌, ◌^◌, ◌≡◌, Bool, true, false, Option, none, some, List, [], ◌∷◌, if◌then◌else◌, ◌==◌,
  ltb,
}
use cheetah_exchange.Prelude.Int.{ℤ, pos, negsuc}
use cheetah_exchange.Models.{
  Order, OrderStatus, new, open_status, cancelling, cancelled, partial, filled, other_status, Side,
  table_order_split_count,
}
use cheetah_exchange.Matching.Book.{table_index}
pub mod Routes

-- The conditions of a query for orders, and how many it may give.
pub record OrderQuery : Type 0 where
  pub user_id : ℕ
  pub statuses : List OrderStatus
  pub product_id : Option ℕ
  pub side : Option Side
  pub above_id : Option ℕ
  pub below_id : Option ℕ
  pub limit : ℕ

-- The statements on one table of orders. `create` fails on an id that is taken.
pub record OrderTable (D T : Type 0) : Type 0 where
  pub by_id : ℕ → T → Option (Order D)
  pub by_client_oid : ℕ → ℕ → T → Option (Order D)
  pub select : OrderQuery → T → List (Order D)
  pub create : Order D → T → Option T
  pub save : Order D → T → T
  pub set_status : ℕ → OrderStatus → OrderStatus → T → T × ℕ

abbrev pub status_code : OrderStatus → ℕ
status_code new = 0
status_code open_status = 1
status_code cancelling = 2
status_code cancelled = 3
status_code partial = 4
status_code filled = 5
status_code other_status = 6

abbrev pub has_status : OrderStatus → OrderStatus → Bool
has_status a b = status_code a == status_code b

-- What the database documents: a primary key finds the row last written under it.
pub record IsOrderTable {D T : Type 0} (t : OrderTable D T) : Type 0 where
  pub creates :
      (o : Order D) (r : T)
      → t.by_id o.id r ≡ none
      → (r' : T) × (t.create o r ≡ some r')
        × ((j : ℕ) → t.by_id j r' ≡ (if o.id == j then some o else t.by_id j r))
  pub saves :
      (o : Order D) (r : T) (j : ℕ)
      → t.by_id j (t.save o r) ≡ (if o.id == j then some o else t.by_id j r)
  pub sets :
      (id : ℕ) (old status : OrderStatus) (r : T) (o : Order D)
      → t.by_id id r ≡ some o
      → has_status o.status old ≡ true
      → ((j : ℕ)
          → t.by_id j (t.set_status id old status r).0
            ≡ (if id == j then some (record o { status = status }) else t.by_id j r))
        × ((t.set_status id old status r).1 ≡ 1)
  pub skips :
      (id : ℕ) (old status : OrderStatus) (r : T)
      → ((o : Order D) → t.by_id id r ≡ some o → has_status o.status old ≡ false)
      → ((j : ℕ) → t.by_id j (t.set_status id old status r).0 ≡ t.by_id j r)
        × ((t.set_status id old status r).1 ≡ 0)

-- `GetTableIndexByUserId`; `GetTableIndexByOrderId` is `table_index` of the matching.
abbrev pub user_table : ℕ → ℕ
user_table user_id = user_id % table_order_split_count

abbrev pub positive_part : ℤ → Option ℕ
positive_part (pos n) = if ltb 0 n then some n else none
positive_part (negsuc n) = none

-- A limit that is not positive is 100.
abbrev pub limit_or_100 : ℤ → ℕ
limit_or_100 (pos n) = if ltb 0 n then n else 100
limit_or_100 (negsuc n) = 100

-- The tables by their index.
abbrev pub Tables : Type 0 → Type 0
Tables T = ℕ → T

abbrev pub write_table : {T : Type 0} → ℕ → T → Tables T → Tables T
write_table i r s = λ j. if i == j then r else s j

module _ {D T : Type 0} ⦃t : OrderTable D T⦄ where
  unfoldable pub get_order_by_id : ℕ → Tables T → Option (Order D)
  get_order_by_id id s = t.by_id id (s (table_index id))

  unfoldable pub get_order_by_client_oid : ℕ → ℕ → Tables T → Option (Order D)
  get_order_by_client_oid user_id oid s = t.by_client_oid user_id oid (s (user_table user_id))

  unfoldable pub get_orders_by_user_id :
      ℕ → List OrderStatus → Option Side → Option ℕ → ℤ → ℤ → ℤ → Tables T → List (Order D)
  get_orders_by_user_id user_id statuses side product before after limit s =
      t.select
        (record {
          user_id = user_id;
          statuses = statuses;
          product_id = product;
          side = side;
          above_id = positive_part before;
          below_id = positive_part after;
          limit = limit_or_100 limit;
        })
        (s (user_table user_id))

  unfoldable pub add_order : Order D → Tables T → Option (Tables T)
  add_order o s = elim (t.create o (s (user_table o.user_id))) [
    | none ↦ none
    | some r ↦ some (write_table (user_table o.user_id) r s)
  ]

  unfoldable pub update_order : Order D → Tables T → Tables T
  update_order o s = write_table (user_table o.user_id) (t.save o (s (user_table o.user_id))) s

module _ (D : Type 0) {T : Type 0} ⦃t : OrderTable D T⦄ where
  unfoldable pub update_order_status : ℕ → OrderStatus → OrderStatus → Tables T → Tables T × Bool
  update_order_status id old status s =
      let (r, rows) = t.set_status id old status (s (table_index id)) in
      (write_table (table_index id) r s, ltb 0 rows)
