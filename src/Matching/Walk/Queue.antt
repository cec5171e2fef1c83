-- ===== src/Matching/Walk/Queue.antt =====
-- A well-formed side of the book, read as the list of its orders: best price first, then oldest id.
use cheetah_exchange.Prelude.{
  ℕ, ◌≡◌, ◌≢◌, refl, sym, ap, subst, ◌∙◌, Option, none, some, List, [], ◌∷◌, arith, Ordering,
  some_inj, All,
}
use cheetah_exchange.Prelude.Ids.{lookup}
use cheetah_exchange.Extern.Decimal.{Decimal}
use cheetah_exchange.Extern.TreeMap.{TreeMap, IsTreeMap, get_sorted}
use cheetah_exchange.Extern.TreeMap.Sorted.{IsOrder, Sorted, Before, Found, Sorted-Found}
use cheetah_exchange.Matching.Log.{BookOrder}
use cheetah_exchange.Matching.Depth.{Key, Depth, key_of}
use cheetah_exchange.Matching.Depth.Invariant.{IsDepth, expected}
use cheetah_exchange.Matching.Walk.{Listed, nobody, next}

module _ {D Q : Type 0} ⦃d : Decimal D⦄ ⦃t : TreeMap (Key D) ℕ Q⦄ (m : IsTreeMap t)
    (c : Key D → Key D → Ordering) (o : IsOrder c) where
  -- Orders in the order of the comparator.
  abbrev pub Ahead : BookOrder D → List (BookOrder D) → Type 0
  Ahead a [] = Unit
  Ahead a (e ∷ es) = (c (key_of a) (key_of e) ≡ Ordering.lt) × Ahead a es

  abbrev pub InOrder : List (BookOrder D) → Type 0
  InOrder [] = Unit
  InOrder (a ∷ es) = Ahead a es × InOrder es

  module _ (b : Depth D Q) (v : IsDepth m c b) where
    -- The order that an entry of the queue stands for.
    entry_order :
        (k : Key D) (id : ℕ)
        → get_sorted c k (t.entries b.queue) ≡ some id
        → (a : BookOrder D) × (lookup id b.orders ≡ some a) × (k ≡ key_of a)
    entry_order k id e = go (lookup k.order_id b.orders) refl
      where
        answer : expected m c b.orders k ≡ some id
        answer = sym (v.queued k) ∙ e

        go :
            (r : Option (BookOrder D))
            → lookup k.order_id b.orders ≡ r
            → (a : BookOrder D) × (lookup id b.orders ≡ some a) × (k ≡ key_of a)
        go none h = absurd (ground (arith, answer))
        go (some a) h = (a, ground (arith, answer), o.same k (key_of a) (ground (arith, answer)))

    abbrev Held : List (BookOrder D) → Type 0
    Held = All λ a. lookup a.order_id b.orders ≡ some a

    abbrev Behind : Key D → List (BookOrder D) → Type 0
    Behind k = All λ a. c k (key_of a) ≡ Ordering.lt

    apart :
        (a : BookOrder D) (os : List (BookOrder D))
        → lookup a.order_id b.orders ≡ some a
        → Held os
        → Behind (key_of a) os
        → All (λ p. p.order_id ≢ a.order_id) os
    apart a [] h hs bs = tt
    apart a (p ∷ os) h hs bs = (λ e. differ (same_order e), apart a os h hs.1 bs.1)
      where
        same_order : p.order_id ≡ a.order_id → p ≡ a
        same_order e = some_inj (sym hs.0 ∙ (ap (λ (i : ℕ). lookup i b.orders) e ∙ h))

        differ : p ≡ a → ⊥
        differ e = cc (
          o.itself (key_of a),
          subst (λ (z : BookOrder D). c (key_of a) (key_of z) ≡ Ordering.lt) e bs.0,
        )

    Behind→Ahead : (a : BookOrder D) (os : List (BookOrder D)) → Behind (key_of a) os → Ahead a os
    Behind→Ahead a [] h = tt
    Behind→Ahead a (p ∷ os) h = (h.0, Behind→Ahead a os h.1)

    list_from :
        (es : List (Key D × ℕ))
        → Sorted c es
        → Found c (t.entries b.queue) es
        → (os : List (BookOrder D)) × Listed b es os
          × InOrder os
          × Held os
          × ((j : Key D) → Before c j es → Behind j os)
    list_from [] s f = ([], nobody, tt, tt, λ j h. tt)
    list_from ((k, id) ∷ es) s f =
        let (os, l, in_order, held_all, behind) = list_from es s.1 f.1 in
        let (a, held, key) = entry_order k id f.0 in
        let named : a.order_id ≡ id = v.keyed id a held in
        let own : lookup a.order_id b.orders ≡ some a =
          subst (λ (i : ℕ). lookup i b.orders ≡ some a) (sym named) held in
        let far : Behind (key_of a) os = subst (λ (z : Key D). Behind z os) key (behind k s.0) in
        (
          a ∷ os,
          next held named (apart a os own held_all far) l,
          (Behind→Ahead a os far, in_order),
          (own, held_all),
          λ j h. (subst (λ (z : Key D). c j z ≡ Ordering.lt) key h.0, behind j h.1),
        )

    -- The queue lists orders of the map, each once, in the order of the comparator.
    pub queue_orders :
        (os : List (BookOrder D)) × Listed b (t.entries b.queue) os × InOrder os × Held os
    queue_orders =
        let (os, l, in_order, held, _) =
          list_from (t.entries b.queue) v.sorted (Sorted-Found c o (t.entries b.queue) v.sorted) in
        (os, l, in_order, held)
