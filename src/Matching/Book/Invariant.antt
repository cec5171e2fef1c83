-- ===== src/Matching/Book/Invariant.antt =====
-- What `orderBook` of matching/order_book.go keeps between its operations.
use cheetah_exchange.Prelude.{ℕ, ◌≡◌, false, some, List, Ordering}
use cheetah_exchange.Prelude.Ids.{lookup}
use cheetah_exchange.Extern.Decimal.{Decimal, IsExact, is_zero}
use cheetah_exchange.Extern.TreeMap.{TreeMap, IsTreeMap}
use cheetah_exchange.Extern.TreeMap.Sorted.{IsOrder}
use cheetah_exchange.Models.{Product, Side, buy, sell, limit}
use cheetah_exchange.Matching.Window.{Window}
use cheetah_exchange.Matching.Log.{BookOrder}
use cheetah_exchange.Matching.Depth.{Key, Depth, compare_asc, compare_desc, new_depth}
use cheetah_exchange.Matching.Depth.Order.{compare_asc-IsOrder, compare_desc-IsOrder}
use cheetah_exchange.Matching.Depth.Invariant.{IsDepth, new_depth-IsDepth}
use cheetah_exchange.Matching.Book.{Book, new_order_book}
use cheetah_exchange.Matching.Apply.Admit.{AreWindows, SeenIn, new_windows-AreWindows}

module _ {D Q : Type 0} ⦃d : Decimal D⦄ ⦃t : TreeMap (Key D) ℕ Q⦄ (m : IsTreeMap t) where
  -- An order of one side: its id has been seen, it is of that side, a limit order, at a price.
  pub record IsResting (ws : List Window) (side : Side) (id : ℕ) (o : BookOrder D) : Type 0 where
    pub seen : SeenIn ws id
    pub on_side : o.side ≡ side
    pub is_limit : o.order_type ≡ limit
    pub priced : is_zero o.price ≡ false

  pub record IsSide (c : Key D → Key D → Ordering) (side : Side) (ws : List Window) (b : Depth D Q)
      : Type 0 where
    pub is_depth : IsDepth m c b
    pub resting : (id : ℕ) (o : BookOrder D) → lookup id b.orders ≡ some o → IsResting ws side id o

  pub record IsBook (b : Book D Q) : Type 0 where
    pub bids_ok : IsSide compare_desc buy b.order_id_windows b.bids
    pub asks_ok : IsSide compare_asc sell b.order_id_windows b.asks
    pub are_windows : AreWindows b.order_id_windows

  pub new_depth-IsSide :
      (c : Key D → Key D → Ordering) (o : IsOrder c) (side : Side) (ws : List Window)
      → IsSide c side ws (new_depth c)
  unfolding new_depth lookup
  new_depth-IsSide c o side ws = record {
    is_depth = new_depth-IsDepth m c o;
    resting = λ id e h. cc;
  }

  -- A new book is well formed.
  pub new_order_book-IsBook : IsExact D → (p : Product D) → IsBook (new_order_book p)
  unfolding new_order_book
  new_order_book-IsBook x p = record {
    bids_ok = new_depth-IsSide compare_desc (compare_desc-IsOrder x) buy _;
    asks_ok = new_depth-IsSide compare_asc (compare_asc-IsOrder x) sell _;
    are_windows = new_windows-AreWindows;
  }
