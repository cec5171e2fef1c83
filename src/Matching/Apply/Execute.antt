-- ===== src/Matching/Apply/Execute.antt =====
-- `ApplyOrder` in matching/order_book.go behind the window: the loop, then the end of the taker.
use cheetah_exchange.Prelude.{
  ℕ, ◌≡◌, ◌≢◌, refl, sym, ap, subst, ◌∙◌, Bool, true, false, ◌&&◌, Option, none, some, List, [],
  ◌∷◌, ◌++◌, Ordering, ◌⊎◌, inl, inr, if◌then◌else◌, All,
}
use cheetah_exchange.Prelude.Ids.{lookup}
use cheetah_exchange.Extern.Decimal.{Decimal, IsExact, is_positive}
use cheetah_exchange.Extern.TreeMap.{TreeMap, IsTreeMap}
use cheetah_exchange.Extern.TreeMap.Sorted.{IsOrder}
use cheetah_exchange.Models.{Product, Side, buy, sell}
use cheetah_exchange.Matching.Log.{Log, BookOrder, open_log, new_open_log}
use cheetah_exchange.Matching.Log.Sequence.{Numbered, last_seq, Numbered-append, last_seq-append}
use cheetah_exchange.Matching.Depth.{Key, compare_asc, compare_desc}
use cheetah_exchange.Matching.Depth.Order.{compare_asc-IsOrder, compare_desc-IsOrder}
use cheetah_exchange.Matching.Book.{Book, by_nothing, next_seq, makers_of}
use cheetah_exchange.Matching.Book.Invariant.{IsBook}
use cheetah_exchange.Matching.Walk.{
  Fill, Listed, walk, logs_of, log_seq_of, trade_seq_of, found_after,
}
use cheetah_exchange.Matching.Walk.Queue.{InOrder}
use cheetah_exchange.Matching.Walk.Logs.{logs_of-Numbered}
use cheetah_exchange.Matching.Walk.Trades.{measure_of, SameOrder, Walks, Walks-SameOrder}
use cheetah_exchange.Matching.Apply.{execute, start_run, after_run, prepend, is_limit, taker_done}
use cheetah_exchange.Matching.Apply.Loop.{Looped, loop_total}
use cheetah_exchange.Matching.Apply.Settle.{Settled, MayRest, settle_total, is_buy, is_sell, joined}

-- The comparator of the makers' side.
abbrev pub makers_order : {D : Type 0} ⦃d : Decimal D⦄ → Side → Key D → Key D → Ordering
makers_order buy = compare_asc
makers_order _ = compare_desc

-- The last log of a taker: it rests on the book, or it is done.
abbrev pub last_log : {D : Type 0} ⦃d : Decimal D⦄ → ℕ → ℕ → BookOrder D → Log D
last_log seq product a =
    if is_limit a.order_type && is_positive a.size
    then open_log (new_open_log seq product a)
    else taker_done seq product a

-- What a side answers for an id once a taker has traded, if that side has the makers.
abbrev pub traded_away :
    {D : Type 0} ⦃d : Decimal D⦄
    → Bool
    → List (Fill D)
    → ℕ
    → Option (BookOrder D)
    → Option (BookOrder D)
traded_away true fills j old = found_after fills j old
traded_away false fills j old = old

module _ {D Q : Type 0} ⦃d : Decimal D⦄ ⦃t : TreeMap (Key D) ℕ Q⦄ (x : IsExact D)
    (m : IsTreeMap t) where
  unfoldable pub makers_order-IsOrder : (s : Side) → IsOrder (makers_order {D = D} s)
  makers_order-IsOrder buy = compare_asc-IsOrder x
  makers_order-IsOrder _ = compare_desc-IsOrder x

  -- What the execution of a taker on a book comes to.
  pub record Executed (b : Book D Q) (taker : BookOrder D) : Type 0 where
    pub orders : List (BookOrder D)
    pub left : BookOrder D
    pub fills : List (Fill D)
    pub last : Log D
    pub book : Book D Q
    pub executes :
        execute b taker ≡ some (logs_of b.product.id b.log_seq b.trade_seq fills ++ last ∷ [], book)
    pub in_order : InOrder m (makers_order taker.side) (makers_order-IsOrder taker.side) orders
    pub held : All (λ a. lookup a.order_id (makers_of taker.side b).orders ≡ some a) orders
    pub listed : Listed (makers_of taker.side b) (t.entries (makers_of taker.side b).queue) orders
    pub walked : walk b.product taker orders ≡ some (left, fills)
    pub walks : Walks b.product taker orders left fills
    pub seq : ℕ
    pub written : last ≡ last_log seq b.product.id left
    pub is_book : IsBook m book
    pub numbered :
        Numbered b.log_seq (logs_of b.product.id b.log_seq b.trade_seq fills ++ last ∷ [])
        × (book.log_seq
            ≡ last_seq b.log_seq (logs_of b.product.id b.log_seq b.trade_seq fills ++ last ∷ []))
    pub trades : book.trade_seq ≡ trade_seq_of b.trade_seq fills
    pub same_windows : book.order_id_windows ≡ b.order_id_windows
    pub bids_found :
        (j : ℕ)
        → lookup j book.bids.orders
          ≡ joined
              (is_buy taker.side)
              left
              j
              (traded_away (is_sell taker.side) fills j (lookup j b.bids.orders))
    pub asks_found :
        (j : ℕ)
        → lookup j book.asks.orders
          ≡ joined
              (is_sell taker.side)
              left
              j
              (traded_away (is_buy taker.side) fills j (lookup j b.asks.orders))

  module _ (b : Book D Q) (a : BookOrder D) (side : Side)
      (l : Looped x m
        (makers_order a.side)
        (makers_order-IsOrder a.side)
        side
        b.order_id_windows
        b.product
        (start_run b a)) where
    abbrev behind : Book D Q
    behind = after_run a.side l.run b

    -- The loop and the end of the taker, put together.
    assemble :
        Settled m behind l.run.taker
        → behind.product ≡ b.product
        → behind.log_seq ≡ l.run.log_seq
        → behind.trade_seq ≡ l.run.trade_seq
        → behind.order_id_windows ≡ b.order_id_windows
        → a.side ≡ l.run.taker.side
        → ((j : ℕ)
            → lookup j behind.bids.orders
              ≡ traded_away (is_sell a.side) l.fills j (lookup j b.bids.orders))
        → ((j : ℕ)
            → lookup j behind.asks.orders
              ≡ traded_away (is_buy a.side) l.fills j (lookup j b.asks.orders))
        → Executed b a
    unfolding execute
    assemble s same_product same_seq same_trade same_window same_side bids asks = record {
      bids_found = λ j.
          s.bids_joined j
          ∙ ap (λ (z : Side). joined (is_buy z) l.run.taker j (lookup j behind.bids.orders))
              (sym same_side)
          ∙ ap (λ (z : BookOrder D). joined (is_buy a.side) z j (lookup j behind.bids.orders))
              l.ran.took
          ∙ ap (joined (is_buy a.side) l.taker j) (bids j);
      asks_found = λ j.
          s.asks_joined j
          ∙ ap (λ (z : Side). joined (is_sell z) l.run.taker j (lookup j behind.asks.orders))
              (sym same_side)
          ∙ ap (λ (z : BookOrder D). joined (is_sell a.side) z j (lookup j behind.asks.orders))
              l.ran.took
          ∙ ap (joined (is_sell a.side) l.taker j) (asks j);
      orders = l.orders;
      left = l.taker;
      fills = l.fills;
      last = s.log;
      book = s.book;
      executes =
          rw (l.matches, execute, s.settles, prepend)
            (ap (λ (z : List (Log D)). some (z ++ s.log ∷ [], s.book)) l.ran.logged);
      in_order = l.in_order;
      held = l.held;
      listed = l.listed;
      walked = l.walked;
      walks = l.walks;
      seq = next_seq behind.log_seq;
      written =
          subst (λ (z : BookOrder D). s.log ≡ last_log (next_seq behind.log_seq) b.product.id z)
            l.ran.took
            (subst (λ (q : Product D). s.log ≡ last_log (next_seq behind.log_seq) q.id l.run.taker)
              same_product s.written);
      is_book = s.is_book;
      numbered = (
        Numbered-append b.log_seq trade_logs (s.log ∷ []) counted.0
            (subst (λ (q : ℕ). Numbered q (s.log ∷ [])) reached s.numbered.0),
        s.numbered.1
            ∙ (ap (λ (q : ℕ). last_seq q (s.log ∷ [])) reached
                ∙ sym (last_seq-append b.log_seq trade_logs (s.log ∷ []))),
      );
      trades = s.same_trades.0 ∙ (same_trade ∙ l.ran.trade_seq);
      same_windows = s.same_windows ∙ same_window;
    }
      where
        trade_logs : List (Log D)
        trade_logs = logs_of b.product.id b.log_seq b.trade_seq l.fills

        counted :
            Numbered b.log_seq trade_logs
            × (last_seq b.log_seq trade_logs ≡ log_seq_of b.log_seq l.fills)
        counted = logs_of-Numbered b.product.id b.log_seq b.trade_seq l.fills

        reached : behind.log_seq ≡ last_seq b.log_seq trade_logs
        reached = same_seq ∙ (l.ran.log_seq ∙ sym counted.1)

  -- A taker that trading has changed may rest where the taker that came in might.
  left-MayRest :
      (b b' : Book D Q) (a left : BookOrder D)
      → MayRest m b a
      → SameOrder a left
      → b'.order_id_windows ≡ b.order_id_windows
      → lookup a.order_id b'.bids.orders ≡ none
      → lookup a.order_id b'.asks.orders ≡ none
      → MayRest m b' left
  left-MayRest b b' a left may s windows no_bid no_ask = record {
    not_bid = rw s.order_id no_bid;
    not_ask = rw s.order_id no_ask;
    seen = rw (windows, s.order_id) may.seen;
    priced = λ e. rw s.price (may.priced (sym s.order_type ∙ e));
  }

  module _ (b : Book D Q) (v : IsBook m b) (a : BookOrder D) (may : MayRest m b a) where
    execute_buy : a.side ≡ buy → measure_of a ≢ by_nothing → Executed b a
    unfolding makers_order-IsOrder
    execute_buy on known = subst (Executed b) (sym same) core
      where
        a' : BookOrder D
        a' = record a { side = buy }

        same : a ≡ a'
        same = ap (λ (s : Side). record a { side = s }) on

        known' : measure_of a' ≢ by_nothing
        known' = subst (λ (z : BookOrder D). measure_of z ≢ by_nothing) same known

        l :
            Looped x m compare_asc
              (compare_asc-IsOrder x)
              sell
              b.order_id_windows
              b.product
              (start_run b a')
        l =
            loop_total x m compare_asc (compare_asc-IsOrder x) sell b.order_id_windows b.product
              (start_run b a') v.asks_ok known'

        b' : Book D Q
        b' = after_run buy l.run b

        ok : IsBook m b'
        ok = record { bids_ok = v.bids_ok; asks_ok = l.is_side; are_windows = v.are_windows }

        s : SameOrder a' l.run.taker
        s = subst (SameOrder a') (sym l.ran.took) (Walks-SameOrder l.walks)

        rests : MayRest m b' l.run.taker
        rests =
            left-MayRest b b' a' l.run.taker (subst (MayRest m b) same may) s refl may.not_bid
              (l.still_fresh a.order_id may.not_ask)

        core : Executed b a'
        core =
            assemble b a' sell l (settle_total m x b' ok l.run.taker rests (inl s.side)) refl refl
              refl refl (sym s.side) (λ j. refl) l.ran.looks_up

    execute_sell : a.side ≡ sell → measure_of a ≢ by_nothing → Executed b a
    unfolding makers_order-IsOrder
    execute_sell on known = subst (Executed b) (sym same) core
      where
        a' : BookOrder D
        a' = record a { side = sell }

        same : a ≡ a'
        same = ap (λ (s : Side). record a { side = s }) on

        known' : measure_of a' ≢ by_nothing
        known' = subst (λ (z : BookOrder D). measure_of z ≢ by_nothing) same known

        l :
            Looped x m compare_desc
              (compare_desc-IsOrder x)
              buy
              b.order_id_windows
              b.product
              (start_run b a')
        l =
            loop_total x m compare_desc (compare_desc-IsOrder x) buy b.order_id_windows b.product
              (start_run b a') v.bids_ok known'

        b' : Book D Q
        b' = after_run sell l.run b

        ok : IsBook m b'
        ok = record { bids_ok = l.is_side; asks_ok = v.asks_ok; are_windows = v.are_windows }

        s : SameOrder a' l.run.taker
        s = subst (SameOrder a') (sym l.ran.took) (Walks-SameOrder l.walks)

        rests : MayRest m b' l.run.taker
        rests =
            left-MayRest b b' a' l.run.taker (subst (MayRest m b) same may) s refl
              (l.still_fresh a.order_id may.not_bid) may.not_ask

        core : Executed b a'
        core =
            assemble b a' buy l (settle_total m x b' ok l.run.taker rests (inr s.side)) refl refl
              refl refl (sym s.side) l.ran.looks_up (λ j. refl)

    -- A limit or market order of a known side that may rest is executed without a crash, and the
    -- book stays well formed.
    pub execute_total : (a.side ≡ buy) ⊎ (a.side ≡ sell) → measure_of a ≢ by_nothing → Executed b a
    execute_total (inl on) known = execute_buy on known
    execute_total (inr on) known = execute_sell on known
