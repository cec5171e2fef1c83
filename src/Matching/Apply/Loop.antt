-- ===== src/Matching/Apply/Loop.antt =====
-- The loop of `ApplyOrder` in matching/order_book.go on a well-formed side of the book.
use cheetah_exchange.Prelude.{
  ℕ, ◌≡◌, ◌≢◌, refl, sym, subst, ◌∙◌, false, Option, none, some, List, [], ◌∷◌, arith, Ordering,
  inl, inr, Option-cases, Bool-cases, All, ◌==◌, ==→≡, if◌then◌else◌,
}
use cheetah_exchange.Prelude.Ids.{lookup}
use cheetah_exchange.Extern.Decimal.{Decimal, IsExact, is_zero}
use cheetah_exchange.Extern.TreeMap.{TreeMap, IsTreeMap}
use cheetah_exchange.Extern.TreeMap.Sorted.{IsOrder}
use cheetah_exchange.Models.{Product, Side}
use cheetah_exchange.Matching.Window.{Window}
use cheetah_exchange.Matching.Log.{BookOrder}
use cheetah_exchange.Matching.Depth.{Key, Depth}
use cheetah_exchange.Matching.Book.{by_nothing, calc_trade_size}
use cheetah_exchange.Matching.Match.{Run, match_all}
use cheetah_exchange.Matching.Walk.{Fill, maker_left, walk, found_after, Listed}
use cheetah_exchange.Matching.Walk.Refine.{Ran, match_all-walk}
use cheetah_exchange.Matching.Walk.Queue.{InOrder, queue_orders}
use cheetah_exchange.Matching.Walk.Trades.{
  measure_of, calc_trade_size-SameOrder, Walks, ended, uncrossed, dry, used_up, goes_on, Walks-walk,
}
use cheetah_exchange.Matching.Book.Invariant.{IsResting, IsSide}

module _ {D : Type 0} ⦃d : Decimal D⦄ where
  -- With a known measure and a maker that has a price, sizing a trade does not crash.
  calc_trade_size-total :
      (a o : BookOrder D) (p : Product D)
      → measure_of a ≢ by_nothing
      → is_zero o.price ≡ false
      → calc_trade_size a o p ≢ none
  unfolding calc_trade_size
  calc_trade_size-total a o p known priced e = ground arith

  abbrev pub Priced : List (BookOrder D) → Type 0
  Priced = All λ o. is_zero o.price ≡ false

  walk-total :
      (p : Product D) (a : BookOrder D) (os : List (BookOrder D))
      → measure_of a ≢ by_nothing
      → Priced os
      → walk p a os ≢ none
  unfolding walk
  walk-total p a [] known priced e = cc
  walk-total p a (o ∷ os) known priced e = elim (Option-cases (calc_trade_size a o p)) [
    | inl crashed ↦ calc_trade_size-total a o p known priced.0 crashed
    | inr (g, sized) ↦
        let s = calc_trade_size-SameOrder a o p g sized in
        ground (
          arith,
          sized,
          walk-total p g.taker os (λ q. known (rw (← s.order_type, ← s.side) q)) priced.1,
        )
  ]

module _ {D Q : Type 0} ⦃d : Decimal D⦄ ⦃t : TreeMap (Key D) ℕ Q⦄ (x : IsExact D) (m : IsTreeMap t)
    (c : Key D → Key D → Ordering) (o : IsOrder c) (side : Side) (ws : List Window) where
  -- An order is one of the given side, but for its size.
  abbrev pub Origin : Depth D Q → ℕ → BookOrder D → Type 0
  Origin b j a =
      (e : BookOrder D) × (lookup j b.orders ≡ some e) × (size : D) × (a ≡ record e { size = size })

  abbrev pub AllHeld : Depth D Q → List (Fill D) → Type 0
  AllHeld b = All λ f. lookup (f.maker).order_id b.orders ≡ some f.maker

  pub found_after-Origin :
      (b : Depth D Q) (fs : List (Fill D)) (j : ℕ) (old : Option (BookOrder D))
      → AllHeld b fs
      → ((a : BookOrder D) → old ≡ some a → Origin b j a)
      → (a : BookOrder D) → found_after fs j old ≡ some a
      → Origin b j a
  unfolding found_after
  found_after-Origin b [] j old h before a e = before a e
  found_after-Origin b (f ∷ fs) j old h before a e = found_after-Origin b fs j _ h.1 now a e
    where
      now :
          (a : BookOrder D)
          → (if (f.maker).order_id == j
              then (if is_zero (maker_left f).size then none else some (maker_left f))
              else old)
            ≡ some a
          → Origin b j a
      now a q = elim (Bool-cases ((f.maker).order_id == j)) [
        | inr other ↦ before a (ground (arith, q, other))
        | inl same ↦
            let e = ==→≡ (f.maker).order_id j same in
            (
              f.maker,
              subst (λ (i : ℕ). lookup i b.orders ≡ some f.maker) e h.0,
              d.sub (f.maker).size f.size,
              ground (arith, q, same),
            )
      ]

  pub Walks-All :
      (P : BookOrder D → Type 0) {p : Product D} {a b : BookOrder D} {os : List (BookOrder D)}
      {fs : List (Fill D)}
      → Walks p a os b fs
      → All P os
      → All (λ f. P f.maker) fs
  Walks-All P (ended a) h = tt
  Walks-All P (uncrossed n) h = tt
  Walks-All P (dry cross e z) h = tt
  Walks-All P (used_up cross e z u) h = (h.0, tt)
  Walks-All P (goes_on cross e z u w) h = (h.0, Walks-All P w h.1)

  All-map :
      (P R : BookOrder D → Type 0) (os : List (BookOrder D))
      → ((a : BookOrder D) → P a → R a)
      → All P os
      → All R os
  All-map P R [] f h = tt
  All-map P R (a ∷ os) f h = (f a h.0, All-map P R os f h.1)

  -- What the loop does on a well-formed side, to a taker with a known measure.
  pub record Looped (p : Product D) (r : Run D Q) : Type 0 where
    pub orders : List (BookOrder D)
    pub taker : BookOrder D
    pub fills : List (Fill D)
    pub run : Run D Q
    pub in_order : InOrder m c o orders
    pub held : All (λ a. lookup a.order_id r.makers.orders ≡ some a) orders
    pub listed : Listed r.makers (t.entries r.makers.queue) orders
    pub walked : walk p r.taker orders ≡ some (taker, fills)
    pub walks : Walks p r.taker orders taker fills
    pub matches : match_all p r (t.entries r.makers.queue) ≡ some run
    pub ran : Ran x m c o p r taker fills run
    pub is_side : IsSide m c side ws run.makers
    pub still_fresh : (j : ℕ) → lookup j r.makers.orders ≡ none → lookup j run.makers.orders ≡ none

  module _ (p : Product D) (r : Run D Q) (v : IsSide m c side ws r.makers) where
    run-IsResting :
        (taker : BookOrder D) (fills : List (Fill D)) (r' : Run D Q)
        → AllHeld r.makers fills
        → Ran x m c o p r taker fills r'
        → (id : ℕ) (a : BookOrder D) → lookup id r'.makers.orders ≡ some a
        → IsResting m ws side id a
    run-IsResting taker fills r' h n id a e =
        let old = lookup id r.makers.orders in
        let (a', found, size, same) =
          found_after-Origin r.makers fills id old h (λ z q. (z, q, z.size, refl)) a
            (sym (n.looks_up id) ∙ e) in
        let rests = v.resting id a' found in
        subst (IsResting m ws side id) (sym same) (record {
          seen = rests.seen;
          on_side = rests.on_side;
          is_limit = rests.is_limit;
          priced = rests.priced;
        })

    stays_fresh :
        (taker : BookOrder D) (fills : List (Fill D)) (r' : Run D Q)
        → AllHeld r.makers fills
        → Ran x m c o p r taker fills r'
        → (j : ℕ) → lookup j r.makers.orders ≡ none
        → lookup j r'.makers.orders ≡ none
    stays_fresh taker fills r' h n j e = elim (Option-cases (lookup j r'.makers.orders)) [
      | inl q ↦ q
      | inr (a, q) ↦
          let (a', found, _, _) =
            found_after-Origin r.makers fills j (lookup j r.makers.orders) h
              (λ z k. (z, k, z.size, refl)) a (sym (n.looks_up j) ∙ q) in
          absurd (cc (e, found))
    ]

    -- The loop ends without a crash.
    pub loop_total : measure_of r.taker ≢ by_nothing → Looped p r
    loop_total known =
        let (os, l, in_order, held) = queue_orders m c o r.makers v.is_depth in
        elim (match_all-walk x m c o p r os v.is_depth l) [
          | inl (crashed, _) ↦ absurd (
              walk-total p r.taker os known
                (All-map (λ a. lookup a.order_id r.makers.orders ≡ some a)
                  (λ a. is_zero a.price ≡ false) os (λ a q. (v.resting a.order_id a q).priced) held)
                crashed)
          | inr (taker, fills, run, walked, matches, n) ↦
              let w = Walks-walk p r.taker taker os fills walked in
              let made = Walks-All (λ a. lookup a.order_id r.makers.orders ≡ some a) w held in
              record {
                orders = os;
                taker = taker;
                fills = fills;
                run = run;
                in_order = in_order;
                held = held;
                listed = l;
                walked = walked;
                walks = w;
                matches = matches;
                ran = n;
                still_fresh = stays_fresh taker fills run made n;
                is_side = record {
                  is_depth = n.is_depth;
                  resting = run-IsResting taker fills run made n;
                };
              }
        ]
