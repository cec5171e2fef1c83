-- ===== src/Matching/Apply/Settle.antt =====
-- The end of `ApplyOrder` in matching/order_book.go: the taker rests on the book or is done.
use cheetah_exchange.Prelude.{
  ℕ, ◌≡◌, refl, subst, Bool, true, false, ◌&&◌, Option, none, some, List, [], ◌∷◌, arith, Ordering,
  ◌⊎◌, inl, inr, Bool-cases, ◌==◌, if◌then◌else◌, some_inj, ==→≡,
}
use cheetah_exchange.Prelude.Ids.{lookup, lookup-insert}
use cheetah_exchange.Extern.Decimal.{Decimal, IsExact, is_zero, is_positive}
use cheetah_exchange.Extern.TreeMap.{TreeMap, IsTreeMap}
use cheetah_exchange.Extern.TreeMap.Sorted.{IsOrder}
use cheetah_exchange.Models.{Side, buy, sell, limit}
use cheetah_exchange.Matching.Window.{Window}
use cheetah_exchange.Matching.Log.{Log, BookOrder, open_log, new_open_log}
use cheetah_exchange.Matching.Log.Sequence.{Numbered, last_seq}
use cheetah_exchange.Matching.Depth.{Key, Depth, compare_asc, compare_desc, add_order}
use cheetah_exchange.Matching.Depth.Order.{compare_asc-IsOrder, compare_desc-IsOrder}
use cheetah_exchange.Matching.Depth.Invariant.{add_order-IsDepth}
use cheetah_exchange.Matching.Book.{Book, next_seq}
use cheetah_exchange.Matching.Book.Invariant.{IsResting, IsSide, IsBook}
use cheetah_exchange.Matching.Apply.{rest_on_book, finish, settle_taker, is_limit, taker_done}
use cheetah_exchange.Matching.Apply.Admit.{SeenIn}

abbrev pub is_buy : Side → Bool
is_buy buy = true
is_buy _ = false

abbrev pub is_sell : Side → Bool
is_sell sell = true
is_sell _ = false

-- What a side answers for an id once a taker may have come to rest on it.
abbrev pub joined :
    {D : Type 0} ⦃d : Decimal D⦄
    → Bool
    → BookOrder D
    → ℕ
    → Option (BookOrder D)
    → Option (BookOrder D)
joined own a j old =
    if own && (is_limit a.order_type && is_positive a.size) && (a.order_id == j)
    then some a
    else old

module _ {D Q : Type 0} ⦃d : Decimal D⦄ ⦃t : TreeMap (Key D) ℕ Q⦄ (m : IsTreeMap t) where
  -- A side of the book takes in an order that it does not have.
  pub add_order-IsSide :
      (c : Key D → Key D → Ordering) (o : IsOrder c) (side : Side) (ws : List Window)
      (e : BookOrder D) (b : Depth D Q)
      → IsSide m c side ws b
      → lookup e.order_id b.orders ≡ none
      → is_positive e.size ≡ true
      → IsResting m ws side e.order_id e
      → IsSide m c side ws (add_order e b)
  unfolding add_order
  add_order-IsSide c o side ws e b v fresh pos rests = record {
    is_depth = add_order-IsDepth m c o e b v.is_depth fresh pos;
    resting = λ id a h. elim (Bool-cases (e.order_id == id)) [
      | inl same ↦
          let found : some e ≡ some a =
            ground (arith, h, same, lookup-insert e.order_id id e b.orders) in
          subst (IsResting m ws side id) (some_inj found)
            (subst (λ (i : ℕ). IsResting m ws side i e) (==→≡ e.order_id id same) rests)
      | inr other ↦
          v.resting id a (ground (arith, h, other, lookup-insert e.order_id id e b.orders))
    ];
  }

  -- How the order ends: what is written, and the book that is left.
  pub record Settled (b : Book D Q) (taker : BookOrder D) : Type 0 where
    pub log : Log D
    pub book : Book D Q
    pub settles : settle_taker b taker ≡ some (log ∷ [], book)
    pub written : log ≡ (
        if is_limit taker.order_type && is_positive taker.size
        then open_log (new_open_log (next_seq b.log_seq) b.product.id taker)
        else taker_done (next_seq b.log_seq) b.product.id taker)
    pub is_book : IsBook m book
    pub numbered : (Numbered b.log_seq (log ∷ [])) × (book.log_seq ≡ last_seq b.log_seq (log ∷ []))
    pub same_trades : (book.trade_seq ≡ b.trade_seq) × (book.product ≡ b.product)
    pub same_windows : book.order_id_windows ≡ b.order_id_windows
    pub bids_joined :
        (j : ℕ)
        → lookup j book.bids.orders ≡ joined (is_buy taker.side) taker j (lookup j b.bids.orders)
    pub asks_joined :
        (j : ℕ)
        → lookup j book.asks.orders ≡ joined (is_sell taker.side) taker j (lookup j b.asks.orders)

  -- An order that may rest: no side has its id, the windows have seen it, and it has a price.
  pub record MayRest (b : Book D Q) (o : BookOrder D) : Type 0 where
    pub not_bid : lookup o.order_id b.bids.orders ≡ none
    pub not_ask : lookup o.order_id b.asks.orders ≡ none
    pub seen : SeenIn b.order_id_windows o.order_id
    pub priced : o.order_type ≡ limit → is_zero o.price ≡ false

  module _ (x : IsExact D) (b : Book D Q) (v : IsBook m b) where
    taker-IsResting :
        (side : Side) (a : BookOrder D)
        → MayRest b a
        → is_limit a.order_type ≡ true
        → a.side ≡ side
        → IsResting m b.order_id_windows side a.order_id a
    taker-IsResting side a may lim on = record {
      seen = may.seen;
      on_side = on;
      is_limit = ground arith;
      priced = may.priced (ground arith);
    }

    settle_done :
        (a : BookOrder D) → (is_limit a.order_type && is_positive a.size) ≡ false → Settled b a
    unfolding settle_taker finish
    settle_done a over = record {
      bids_joined = λ j. ground (arith, over);
      asks_joined = λ j. ground (arith, over);
      log = taker_done (next_seq b.log_seq) b.product.id a;
      book = record b { log_seq = next_seq b.log_seq };
      settles = rw (over, settle_taker);
      written = rw over;
      is_book = record { bids_ok = v.bids_ok; asks_ok = v.asks_ok; are_windows = v.are_windows };
      numbered = ((refl, tt), refl);
      same_trades = (refl, refl);
      same_windows = refl;
    }

    settle_rest :
        (a : BookOrder D)
        → MayRest b a
        → (is_limit a.order_type && is_positive a.size) ≡ true
        → (a.side ≡ buy) ⊎ (a.side ≡ sell)
        → Settled b a
    unfolding settle_taker rest_on_book add_order
    settle_rest a may stays (inl on) = record {
      bids_joined = λ j. ground (arith, on, stays, lookup-insert a.order_id j a b.bids.orders);
      asks_joined = λ j. ground (arith, on, stays);
      log = open_log (new_open_log (next_seq b.log_seq) b.product.id a);
      book = record b { log_seq = next_seq b.log_seq; bids = add_order a b.bids };
      settles = rw (stays, settle_taker, on);
      written = rw stays;
      is_book = record {
        bids_ok =
            add_order-IsSide compare_desc (compare_desc-IsOrder x) buy b.order_id_windows a b.bids
              v.bids_ok may.not_bid (ground (arith, stays))
              (taker-IsResting buy a may (ground (arith, stays)) on);
        asks_ok = v.asks_ok;
        are_windows = v.are_windows;
      };
      numbered = ((refl, tt), refl);
      same_trades = (refl, refl);
      same_windows = refl;
    }
    settle_rest a may stays (inr on) = record {
      bids_joined = λ j. ground (arith, on, stays);
      asks_joined = λ j. ground (arith, on, stays, lookup-insert a.order_id j a b.asks.orders);
      log = open_log (new_open_log (next_seq b.log_seq) b.product.id a);
      book = record b { log_seq = next_seq b.log_seq; asks = add_order a b.asks };
      settles = rw (stays, settle_taker, on);
      written = rw stays;
      is_book = record {
        bids_ok = v.bids_ok;
        asks_ok =
            add_order-IsSide compare_asc (compare_asc-IsOrder x) sell b.order_id_windows a b.asks
              v.asks_ok may.not_ask (ground (arith, stays))
              (taker-IsResting sell a may (ground (arith, stays)) on);
        are_windows = v.are_windows;
      };
      numbered = ((refl, tt), refl);
      same_trades = (refl, refl);
      same_windows = refl;
    }

    pub settle_total :
        (a : BookOrder D) → MayRest b a → (a.side ≡ buy) ⊎ (a.side ≡ sell) → Settled b a
    settle_total a may known = elim (Bool-cases (is_limit a.order_type && is_positive a.size)) [
      | inl stays ↦ settle_rest a may stays known
      | inr over ↦ settle_done a over
    ]
