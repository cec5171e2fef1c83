-- ===== src/Matching/Walk/Cover.antt =====
-- Which orders a taker leaves on the makers' side: every order of the side stands in its queue, and
-- one that is still there after all trades filled their makers was no maker of them.
use cheetah_exchange.Prelude.{
  ℕ, ◌≡◌, ◌≢◌, refl, sym, ap, subst, ◌∙◌, true, Option, some, List, [], ◌∷◌, ◌++◌, map, arith,
  Ordering, ◌⊎◌, inl, inr, All, ◌==◌, Bool-cases, ==→≢, some_inj,
}
use cheetah_exchange.Prelude.Ids.{lookup}
use cheetah_exchange.Extern.Decimal.{Decimal, is_zero}
use cheetah_exchange.Extern.TreeMap.{TreeMap, IsTreeMap, get_sorted}
use cheetah_exchange.Extern.TreeMap.Sorted.{IsOrder}
use cheetah_exchange.Matching.Log.{BookOrder}
use cheetah_exchange.Matching.Depth.{Key, Depth, key_of}
use cheetah_exchange.Matching.Depth.Invariant.{IsDepth}
use cheetah_exchange.Matching.Walk.{Fill, Listed, nobody, next, maker_left, found_after}
use cheetah_exchange.Matching.Walk.Queue.{Ahead, InOrder}

module _ {D : Type 0} where
  abbrev pub Among : BookOrder D → List (BookOrder D) → Type 0
  Among a [] = ⊥
  Among a (o ∷ os) = (a ≡ o) ⊎ Among a os

  -- An order that is no maker of the trades is left over.
  pub Among-rest :
      (a : BookOrder D) (fs : List (Fill D)) (rest : List (BookOrder D))
      → Among a (map (λ f. f.maker) fs ++ rest)
      → All (λ f. (f.maker).order_id ≢ a.order_id) fs
      → Among a rest
  Among-rest a [] rest h n = h
  Among-rest a (f ∷ fs) rest (inl e) n = absurd (n.0 (ap (λ (z : BookOrder D). z.order_id) (sym e)))
  Among-rest a (f ∷ fs) rest (inr h) n = Among-rest a fs rest h n.1

module _ {D : Type 0} ⦃d : Decimal D⦄ where
  -- What is found behind trades that filled all their makers was there before, and is no maker.
  pub found_after_filled :
      (fs : List (Fill D)) (j : ℕ) (old : Option (BookOrder D)) (p : BookOrder D)
      → All (λ f. is_zero (maker_left f).size ≡ true) fs
      → found_after fs j old ≡ some p
      → (old ≡ some p) × All (λ f. (f.maker).order_id ≢ j) fs
  unfolding found_after
  found_after_filled [] j old p h e = (e, tt)
  found_after_filled (f ∷ fs) j old p h e =
      let rest = found_after_filled fs j _ p h.1 e in
      elim (Bool-cases ((f.maker).order_id == j)) [
        | inl same ↦ absurd (ground (arith, rest.0, same, h.0))
        | inr other ↦ (ground (arith, rest.0, other), (==→≢ _ _ other, rest.1))
      ]

module _ {D Q : Type 0} ⦃d : Decimal D⦄ ⦃t : TreeMap (Key D) ℕ Q⦄ (m : IsTreeMap t)
    (c : Key D → Key D → Ordering) (o : IsOrder c) where
  pub InOrder-suffix : (xs ys : List (BookOrder D)) → InOrder m c o (xs ++ ys) → InOrder m c o ys
  InOrder-suffix [] ys h = h
  InOrder-suffix (a ∷ xs) ys h = InOrder-suffix xs ys h.1

  Ahead-Among :
      (a p : BookOrder D) (os : List (BookOrder D))
      → Ahead m c o a os
      → Among p os
      → c (key_of a) (key_of p) ≡ Ordering.lt
  Ahead-Among a p [] h k = elim k [ ]
  Ahead-Among a p (e ∷ os) h (inl q) =
      subst (λ (z : BookOrder D). c (key_of a) (key_of z) ≡ Ordering.lt) (sym q) h.0
  Ahead-Among a p (e ∷ os) h (inr k) = Ahead-Among a p os h.1 k

  -- The first order of a queue is the best.
  pub head_first :
      (a p : BookOrder D) (os : List (BookOrder D))
      → InOrder m c o (a ∷ os)
      → Among p (a ∷ os)
      → (p ≡ a) ⊎ (c (key_of a) (key_of p) ≡ Ordering.lt)
  head_first a p os h (inl q) = inl q
  head_first a p os h (inr k) = inr (Ahead-Among a p os h.0 k)

  Listed-get :
      (b : Depth D Q) {es : List (Key D × ℕ)} {os : List (BookOrder D)} (k : Key D) (id : ℕ)
      → Listed b es os
      → get_sorted c k es ≡ some id
      → (a : BookOrder D) × Among a os × (lookup id b.orders ≡ some a)
  Listed-get b k id nobody e = cc
  Listed-get b k id (next {k = k'} {id = id'} {o = a} {es = es} {os = os} held named apart l) e =
      at (c k k') refl (λ r. Listed-get b k id l r)
    where
      at :
          (q : Ordering)
          → c k k' ≡ q
          → (get_sorted c k es ≡ some id
              → (z : BookOrder D) × Among z os × (lookup id b.orders ≡ some z))
          → (z : BookOrder D) × Among z (a ∷ os) × (lookup id b.orders ≡ some z)
      at Ordering.eq q later =
          (a, inl refl, subst (λ (i : ℕ). lookup i b.orders ≡ some a) (ground (arith, e, q)) held)
      at Ordering.lt q later =
          let (z, among, found) = later (ground (arith, e, q)) in (z, inr among, found)
      at Ordering.gt q later =
          let (z, among, found) = later (ground (arith, e, q)) in (z, inr among, found)

  -- Every order of a side stands in the list of its queue.
  pub Listed-all :
      (b : Depth D Q) (os : List (BookOrder D)) (j : ℕ) (p : BookOrder D)
      → IsDepth m c b
      → Listed b (t.entries b.queue) os
      → lookup j b.orders ≡ some p
      → Among p os
  Listed-all b os j p v l e =
      let named = v.keyed j p e in
      let own : lookup p.order_id b.orders ≡ some p =
        subst (λ (i : ℕ). lookup i b.orders ≡ some p) (sym named) e in
      let stands : get_sorted c (key_of p) (t.entries b.queue) ≡ some p.order_id =
        v.queued (key_of p) ∙ ground (arith, own, o.itself (key_of p)) in
      let (a, among, found) = Listed-get b (key_of p) p.order_id l stands in
      subst (λ (z : BookOrder D). Among z os) (some_inj (sym found ∙ own)) among
