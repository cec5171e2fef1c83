-- ===== src/Matching/Depth.antt =====
-- `depth` of matching/order_book.go: one side of the book, a Go map of orders by id and a treemap
-- that queues their ids by price and then by id.
pub mod Order
pub mod Invariant
pub mod Shrink
use cheetah_exchange.Prelude.{
  ℕ, ◌≡◌, Bool, true, false, Option, none, some, List, [], if◌then◌else◌, Ordering,
}
use Prim.Native.Nat.{compare}
use cheetah_exchange.Prelude.Ids.{IdMap, lookup, insert, erase}
use cheetah_exchange.Extern.Decimal.{Decimal, flip, less_than, is_zero}
use cheetah_exchange.Extern.TreeMap.{TreeMap}
use cheetah_exchange.Matching.Log.{BookOrder}

pub record Key (D : Type 0) : Type 0 where
  pub price : D
  pub order_id : ℕ

pub record Depth (D Q : Type 0) : Type 0 where
  pub orders : IdMap (BookOrder D)
  pub queue : Q

module _ {D : Type 0} ⦃d : Decimal D⦄ where
  -- `priceOrderIdKeyAscComparator`
  unfoldable pub compare_asc : Key D → Key D → Ordering
  compare_asc a b = elim (d.cmp a.price b.price) [
    | Ordering.eq ↦ compare a.order_id b.order_id
    | x ↦ x
  ]

  -- `priceOrderIdKeyDescComparator`
  unfoldable pub compare_desc : Key D → Key D → Ordering
  compare_desc a b = elim (d.cmp a.price b.price) [
    | Ordering.eq ↦ compare a.order_id b.order_id
    | x ↦ flip x
  ]

  abbrev pub key_of : BookOrder D → Key D
  key_of o = record { price = o.price; order_id = o.order_id }

module _ {D Q : Type 0} ⦃d : Decimal D⦄ ⦃t : TreeMap (Key D) ℕ Q⦄ where
  unfoldable pub new_depth : (Key D → Key D → Ordering) → Depth D Q
  new_depth c = record { orders = []; queue = t.new_with c }

  unfoldable pub add_order : BookOrder D → Depth D Q → Depth D Q
  add_order o b = record {
    orders = insert o.order_id o b.orders;
    queue = t.put (key_of o) o.order_id b.queue;
  }

  -- `decrSize` on the order that the map holds: the order is shared, so its new size is seen
  -- through every pointer to it, and it is returned here. `none` is the error.
  unfoldable pub shrink : BookOrder D → ℕ → D → Depth D Q → Option (BookOrder D × Depth D Q)
  shrink o id size b =
      let o' = record o { size = d.sub o.size size } in
      if less_than o.size size
      then none
      else if is_zero o'.size
      then some (o', record { orders = erase id b.orders; queue = t.remove (key_of o') b.queue })
      else some (o', record b { orders = insert id o' b.orders })

  unfoldable pub decr_size : ℕ → D → Depth D Q → Option (BookOrder D × Depth D Q)
  unfolding shrink
  decr_size id size b = elim (lookup id b.orders) [ none ↦ none | some o ↦ shrink o id size b ]
