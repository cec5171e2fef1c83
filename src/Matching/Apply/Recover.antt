-- ===== src/Matching/Apply/Recover.antt =====
-- `Snapshot` and `Restore` of matching/order_book.go.
pub mod Listing
pub mod Restore
use cheetah_exchange.Prelude.{
  ℕ, Option, none, some, List, [], ◌∷◌, ◌++◌, if◌then◌else◌, map, length, ◌==◌,
}
use cheetah_exchange.Prelude.Ids.{IdMap}
use cheetah_exchange.Extern.Decimal.{Decimal}
use cheetah_exchange.Extern.TreeMap.{TreeMap}
use cheetah_exchange.Models.{table_order_split_count}
use cheetah_exchange.Matching.Window.{Window}
use cheetah_exchange.Matching.Log.{BookOrder}
use cheetah_exchange.Matching.Depth.{Key, add_order}
use cheetah_exchange.Matching.Book.{Book, depth_of, with_depth, new_windows}

-- `orderBookSnapshot`, without the product's id, which `Snapshot` leaves empty.
pub record BookSnapshot (D : Type 0) : Type 0 where
  pub orders : List (BookOrder D)
  pub trade_seq : ℕ
  pub log_seq : ℕ
  pub order_id_windows : List Window

abbrev pub values {ℓ} : {V : Type ℓ} → IdMap V → List V
values = map λ e. e.1

module _ {D Q : Type 0} ⦃d : Decimal D⦄ ⦃t : TreeMap (Key D) ℕ Q⦄ where
  -- `Snapshot`: sellers first. Go gives the orders of each map in any order.
  unfoldable pub snapshot : Book D Q → BookSnapshot D
  snapshot b = record {
    orders = values b.asks.orders ++ values b.bids.orders;
    trade_seq = b.trade_seq;
    log_seq = b.log_seq;
    order_id_windows = b.order_id_windows;
  }

  unfoldable pub restore_orders : Book D Q → List (BookOrder D) → Option (Book D Q)
  restore_orders b [] = some b
  restore_orders b (o ∷ os) = elim (depth_of o.side b) [
    | none ↦ none
    | some m ↦ restore_orders (with_depth o.side (add_order o m) b) os
  ]

  -- `Restore`: windows of another number are thrown away.
  unfoldable pub restore : Book D Q → BookSnapshot D → Option (Book D Q)
  unfolding restore_orders new_windows
  restore b s =
      let windows =
        if length s.order_id_windows == table_order_split_count
        then s.order_id_windows
        else new_windows table_order_split_count in
      restore_orders
        (record b { log_seq = s.log_seq; trade_seq = s.trade_seq; order_id_windows = windows })
        s.orders
