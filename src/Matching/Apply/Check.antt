-- ===== src/Matching/Apply/Check.antt =====
-- `IsOrderWillNotMatch` and `IsOrderWillFullMatch` of matching/order_book.go on a well-formed book.
use cheetah_exchange.Prelude.{
  ℕ, ◌≡◌, ◌≢◌, refl, sym, ap, subst, Bool, true, not, ◌&&◌, none, some, List, [], ◌∷◌, arith, ◌⊎◌,
  inl, inr, some_inj,
}
use cheetah_exchange.Prelude.Ids.{lookup}
use cheetah_exchange.Extern.Decimal.{Decimal, IsExact, is_positive}
use cheetah_exchange.Extern.TreeMap.{TreeMap, IsTreeMap, first_of_list, last_of_list}
use cheetah_exchange.Models.{Product, Order, Side, buy, sell, other_side}
use cheetah_exchange.Matching.Window.{Window}
use cheetah_exchange.Matching.Log.{BookOrder}
use cheetah_exchange.Matching.Depth.{Key, Depth, compare_asc, compare_desc}
use cheetah_exchange.Matching.Depth.Order.{compare_asc-IsOrder, compare_desc-IsOrder}
use cheetah_exchange.Matching.Book.{Book, by_nothing, makers_of, prepare, prices_cross}
use cheetah_exchange.Matching.Book.Invariant.{IsBook}
use cheetah_exchange.Matching.Walk.{Fill, walk, Listed, nobody, next}
use cheetah_exchange.Matching.Walk.Queue.{queue_orders}
use cheetah_exchange.Matching.Walk.Refine.{count_all-walk}
use cheetah_exchange.Matching.Walk.Trades.{measure_of}
use cheetah_exchange.Matching.Apply.{
  end_check, checked_end, is_limit, start_run, is_order_will_full_match, is_order_will_not_match,
}
use cheetah_exchange.Matching.Apply.Loop.{loop_total}
use cheetah_exchange.Matching.Apply.Submit.{taker_of, noted}

module _ {D : Type 0} ⦃d : Decimal D⦄ where
  -- What the check of a buyer comes to on the makers in order: none of them, or the first of them
  -- at a price that the buyer's does not cross.
  abbrev pub no_match : Side → D → List (BookOrder D) → Bool
  no_match side price [] = true
  no_match side price (o ∷ os) = not (prices_cross side price o.price)

  -- Such a taker does not trade.
  pub no_match-walk :
      (p : Product D) (taker left : BookOrder D) (os : List (BookOrder D)) (fills : List (Fill D))
      → no_match taker.side taker.price os ≡ true
      → walk p taker os ≡ some (left, fills)
      → fills ≡ []
  unfolding walk
  no_match-walk p taker left [] fills h w =
      sym (ap (λ (z : BookOrder D × List (Fill D)). z.1) (some_inj w))
  no_match-walk p taker left (o ∷ os) fills h w = ground (arith, h, w)

module _ {D Q : Type 0} ⦃d : Decimal D⦄ ⦃t : TreeMap (Key D) ℕ Q⦄ where
  pub makers_of-noted :
      (s : Side) (b : Book D Q) (ws : List Window) → makers_of s (noted b ws) ≡ makers_of s b
  makers_of-noted buy b ws = refl
  makers_of-noted sell b ws = refl
  makers_of-noted other_side b ws = refl

  -- The last entry of a listing stands for an order of the map.
  Listed-last :
      {b : Depth D Q} {es : List (Key D × ℕ)} {os : List (BookOrder D)}
      → Listed b es os
      → (last_of_list es ≡ none)
        ⊎ ((e : Key D × ℕ) × (o : BookOrder D) × (last_of_list es ≡ some e)
            × (lookup e.1 b.orders ≡ some o))
  Listed-last nobody = inl refl
  Listed-last (next {k = k} {id = id} {o = o} held named apart nobody) =
      inr ((k, id), o, refl, held)
  Listed-last (next held named apart (next h n a rest)) = Listed-last (next h n a rest)

module _ {D Q : Type 0} ⦃d : Decimal D⦄ ⦃t : TreeMap (Key D) ℕ Q⦄ (x : IsExact D) (m : IsTreeMap t)
    (b : Book D Q) (v : IsBook m b) (o : Order D) where
  first_check :
      (es : List (Key D × ℕ)) (os : List (BookOrder D))
      → Listed b.asks es os
      → end_check buy (taker_of o).price b.asks (first_of_list es)
        ≡ some (no_match buy (taker_of o).price os)
  first_check [] [] nobody = refl
  first_check (e ∷ es) [] l = elim l [ ]
  first_check es (a ∷ os) (next held named apart rest) = rw (held, end_check)

  check_on :
      (side : Side) (r : Bool)
      → o.side ≡ side
      → end_check side
          (taker_of o).price
          (makers_of side b)
          (checked_end side (makers_of side b).queue)
        ≡ some r
      → is_order_will_not_match b o ≡ some r
  unfolding is_order_will_not_match prepare
  check_on side r on e =
      subst
        (λ (s : Side).
          end_check s (taker_of o).price (makers_of s b) (checked_end s (makers_of s b).queue)
          ≡ some r)
        (sym on) e

  -- A buyer's check is that at the best price.
  pub buy_no_match :
      (os : List (BookOrder D))
      → o.side ≡ buy
      → Listed b.asks (t.entries b.asks.queue) os
      → is_order_will_not_match b o ≡ some (no_match buy (taker_of o).price os)
  buy_no_match os on l =
      check_on buy _ on
        (rw (m.min-entries b.asks.queue) (first_check (t.entries b.asks.queue) os l))

  sell_check_total :
      (r : Bool) × (end_check sell (taker_of o).price b.bids (last_of_list (t.entries b.bids.queue))
        ≡ some r)
  sell_check_total =
      let (os, l, _, _) =
        queue_orders m compare_desc (compare_desc-IsOrder x) b.bids v.bids_ok.is_depth in
      elim (Listed-last l) [
        | inl e ↦ (true, rw e)
        | inr (e, a, at, held) ↦
            (not (prices_cross sell (taker_of o).price a.price), rw (at, end_check, held))
      ]

  -- `IsOrderWillNotMatch` never crashes.
  pub not_match_total :
      (o.side ≡ buy) ⊎ (o.side ≡ sell) → (r : Bool) × (is_order_will_not_match b o ≡ some r)
  not_match_total (inl on) =
      let (os, l, _, _) =
        queue_orders m compare_asc (compare_asc-IsOrder x) b.asks v.asks_ok.is_depth in
      (no_match buy (taker_of o).price os, buy_no_match os on l)
  not_match_total (inr on) =
      let (r, e) = sell_check_total in (r, check_on sell r on (rw (m.max-entries b.bids.queue) e))

  -- `IsOrderWillFullMatch` asks what the taker has left once the makers in order have been walked.
  pub full_match_walk :
      (os : List (BookOrder D)) (left : BookOrder D) (fills : List (Fill D))
      → Listed (makers_of (taker_of o).side b) (t.entries (makers_of (taker_of o).side b).queue) os
      → walk b.product (taker_of o) os ≡ some (left, fills)
      → is_order_will_full_match b o
        ≡ some (not (is_limit left.order_type && is_positive left.size))
  unfolding is_order_will_full_match
  full_match_walk os left fills l w = rw (
    is_order_will_full_match,
    count_all-walk b.product (makers_of (taker_of o).side b) (taker_of o) l,
    w,
  )

  full_match_on :
      (a : BookOrder D)
      → a ≡ taker_of o
      → (os : List (BookOrder D)) (left : BookOrder D) (fills : List (Fill D))
      → Listed (makers_of a.side b) (t.entries (makers_of a.side b).queue) os
      → walk b.product a os ≡ some (left, fills)
      → (r : Bool) × (is_order_will_full_match b o ≡ some r)
  full_match_on a same os left fills l w = (
    not (is_limit left.order_type && is_positive left.size),
    full_match_walk os left fills
        (subst
          (λ (z : BookOrder D).
            Listed (makers_of z.side b) (t.entries (makers_of z.side b).queue) os)
          same l)
        (subst (λ (z : BookOrder D). walk b.product z os ≡ some (left, fills)) same w),
  )

  module _ (known : measure_of (taker_of o) ≢ by_nothing) where
    measured : (a : BookOrder D) → a ≡ taker_of o → measure_of a ≢ by_nothing
    measured a same = subst (λ (z : BookOrder D). measure_of z ≢ by_nothing) (sym same) known

    full_match_buy : o.side ≡ buy → (r : Bool) × (is_order_will_full_match b o ≡ some r)
    unfolding prepare
    full_match_buy on =
        let a : BookOrder D = record (taker_of o) { side = buy } in
        let same : a ≡ taker_of o = ap (λ (s : Side). record (taker_of o) { side = s }) (sym on) in
        let l =
          loop_total x m compare_asc (compare_asc-IsOrder x) sell b.order_id_windows b.product
            (start_run b a) v.asks_ok (measured a same) in
        full_match_on a same l.orders l.taker l.fills l.listed l.walked

    full_match_sell : o.side ≡ sell → (r : Bool) × (is_order_will_full_match b o ≡ some r)
    unfolding prepare
    full_match_sell on =
        let a : BookOrder D = record (taker_of o) { side = sell } in
        let same : a ≡ taker_of o = ap (λ (s : Side). record (taker_of o) { side = s }) (sym on) in
        let l =
          loop_total x m compare_desc (compare_desc-IsOrder x) buy b.order_id_windows b.product
            (start_run b a) v.bids_ok (measured a same) in
        full_match_on a same l.orders l.taker l.fills l.listed l.walked

    pub full_match_total :
        (o.side ≡ buy) ⊎ (o.side ≡ sell) → (r : Bool) × (is_order_will_full_match b o ≡ some r)
    full_match_total (inl on) = full_match_buy on
    full_match_total (inr on) = full_match_sell on
