-- ===== src/Stores/Routes.antt =====
-- An order is written to the table of its user and read from the table of its id: with ids from the
-- node of the user's table (service/order_service.go) they are one table, so what
-- models/mysql/order_store.go writes it reads back.
use cheetah_exchange.Prelude.{
  ℕ, ◌%◌, ◌/◌, ◌^◌, ◌≡◌, refl, sym, ap, subst, ◌∙◌, true, Option, none, some, arith, if◌then◌else◌,
  ◌==◌, ==_refl, ==→≡, ==→≢, ≢→==, Bool-cases, inl, inr,
}
use cheetah_exchange.Models.{Order, OrderStatus}
use cheetah_exchange.Matching.Book.{table_index}
use cheetah_exchange.Stores.{
  OrderTable, IsOrderTable, Tables, user_table, write_table, has_status, get_order_by_id, add_order,
  update_order, update_order_status,
}

-- What github.com/bwmarrin/snowflake documents of an id of a node: bits 12 to 21 are the node's.
abbrev pub IsOfNode : ℕ → ℕ → Type 0
IsOfNode node id = id / 2 ^ 12 % 2 ^ 10 ≡ node

-- The id of an order is from the node that `GetTableNodeByUserId` gives for its user.
abbrev pub IsRouted : {D : Type 0} → Order D → Type 0
IsRouted o = IsOfNode (user_table o.user_id) o.id

same_table : (user id : ℕ) → IsOfNode (user_table user) id → table_index id ≡ user_table user
same_table user id h = omega (arith, h)

module _ {D T : Type 0} ⦃t : OrderTable D T⦄ (laws : IsOrderTable t) where
  -- A table whose row of one id has changed, among the others.
  written :
      (i id : ℕ) (r : T) (s : Tables T) (row : Option (Order D))
      → table_index id ≡ i
      → ((j : ℕ) → t.by_id j r ≡ (if id == j then row else t.by_id j (s i)))
      → (j : ℕ)
      → get_order_by_id j (write_table i r s) ≡ (if id == j then row else get_order_by_id j s)
  unfolding get_order_by_id
  written i id r s row at h j = elim (Bool-cases (i == table_index j)) [
    | inl here ↦
        rw (get_order_by_id, here)
          (h j ∙ ap (λ (k : ℕ). if id == j then row else t.by_id j (s k)) (==→≡ i _ here))
    | inr away ↦
        rw
          (
            get_order_by_id,
            away,
            ≢→== id j (λ e. ==→≢ i (table_index j) away (sym at ∙ ap table_index e)),
          )
          refl
  ]

  -- What one reads of every id behind a write of the order.
  abbrev pub Reads : Order D → Tables T → Tables T → Type 0
  Reads o s s' =
      (j : ℕ) → get_order_by_id j s' ≡ (if o.id == j then some o else get_order_by_id j s)

  home : (o : Order D) → IsRouted o → table_index o.id ≡ user_table o.user_id
  home o routed = same_table o.user_id o.id routed

  add_order-get :
      (o : Order D) (s : Tables T)
      → IsRouted o
      → get_order_by_id {D = D} o.id s ≡ none
      → (s' : Tables T) × (add_order o s ≡ some s') × Reads o s s'
  unfolding add_order get_order_by_id
  add_order-get o s routed absent =
      let (r, created, reads) =
        laws.creates o (s (user_table o.user_id))
          (subst (λ (k : ℕ). t.by_id o.id (s k) ≡ none) (home o routed) absent) in
      (
        write_table (user_table o.user_id) r s,
        rw (add_order, created) refl,
        written (user_table o.user_id) o.id r s (some o) (home o routed) reads,
      )

  update_order-get : (o : Order D) (s : Tables T) → IsRouted o → Reads o s (update_order o s)
  unfolding update_order
  update_order-get o s routed =
      written (user_table o.user_id) o.id _ s (some o) (home o routed)
        (λ j. laws.saves o (s (user_table o.user_id)) j)

  update_order_status-get :
      (o : Order D) (s : Tables T) (old status : OrderStatus)
      → get_order_by_id o.id s ≡ some o
      → has_status o.status old ≡ true
      → Reads (record o { status = status }) s (update_order_status D o.id old status s).0
        × ((update_order_status D o.id old status s).1 ≡ true)
  unfolding update_order_status get_order_by_id
  update_order_status-get o s old status found same =
      let (reads, rows) = laws.sets o.id old status (s (table_index o.id)) o found same in
      (
        written (table_index o.id) o.id _ s (some (record o { status = status })) refl reads,
        ground (arith, rows),
      )

  -- The life of an order whose id is new and from the node of its user's table: it can be added and
  -- is then read back by its id; its status can be changed from the one it has, and the order is
  -- read back with the new one and nothing else changed; and an order that is saved instead, with
  -- its id too from the node of its user's table, is read back as it was saved. Each of the three
  -- leaves what every other id reads.
  pub orders_round_trip :
      (o saved : Order D) (s : Tables T) (old status : OrderStatus)
      → IsRouted o
      → IsRouted saved
      → get_order_by_id {D = D} o.id s ≡ none
      → has_status o.status old ≡ true
      → (s' : Tables T) × (add_order o s ≡ some s')
        × Reads o s s'
        × Reads (record o { status = status }) s' (update_order_status D o.id old status s').0
        × ((update_order_status D o.id old status s').1 ≡ true)
        × Reads saved s' (update_order saved s')
  orders_round_trip o saved s old status routed routed' absent same =
      let (s', added, reads) = add_order-get o s routed absent in
      let found : get_order_by_id o.id s' ≡ some o = rw (reads o.id, ==_refl) refl in
      let (changed, flag) = update_order_status-get o s' old status found same in
      (s', added, reads, changed, flag, update_order-get saved s' routed')
