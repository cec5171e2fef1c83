-- ===== src/Pushing/PriceBook/Sides.antt =====
-- The price levels of a side in pushing/order_book.go, under a write and a removal of one of them.
use cheetah_exchange.Prelude.{
  ℕ, ◌≡◌, ◌≢◌, refl, sym, ap, ◌∙◌, true, Option, none, some, if◌then◌else◌, arith, ◌⊎◌, inl, inr,
  Ordering, ◌==◌,
}
use cheetah_exchange.Prelude.Ids.{IdMap, lookup}
use cheetah_exchange.Extern.Decimal.{Decimal, IsExact, is_positive}
use cheetah_exchange.Extern.TreeMap.{TreeMap, IsTreeMap, get_sorted}
use cheetah_exchange.Extern.TreeMap.Sorted.{
  IsOrder, Sorted, Sorted-put, Sorted-remove, get-put, get-remove, pick,
}
use cheetah_exchange.Models.{Side}
use cheetah_exchange.Matching.Log.{BookOrder}
use cheetah_exchange.Pushing.PriceBook.{PriceLevel, compare_price_desc}
use cheetah_exchange.Pushing.PriceBook.Totals.{sum_at, count_at}

module _ {D : Type 0} ⦃d : Decimal D⦄ where
  -- The level that a price has, if any order is there.
  abbrev pub level_at : Side → D → IdMap (BookOrder D) → Option (PriceLevel D)
  level_at side price os =
      if count_at side price os == 0
      then none
      else some (record {
        price = price;
        size = sum_at side price os;
        order_count = count_at side price os;
      })

  -- What holds of every order of the map.
  abbrev pub Every : (BookOrder D → Type 0) → IdMap (BookOrder D) → Type 0
  Every P os = (id : ℕ) (o : BookOrder D) → lookup id os ≡ some o → P o

  abbrev pub AllPositive : IdMap (BookOrder D) → Type 0
  AllPositive = Every λ o. is_positive o.size ≡ true

  module _ (x : IsExact D) where
    pub cmp-IsOrder : IsOrder {K = D} d.cmp
    cmp-IsOrder = record {
      same = x.cmp_eq;
      itself = x.cmp_self;
      turned = x.cmp_flip;
      chained = x.cmp_trans;
    }

    pub compare_price_desc-IsOrder : IsOrder {K = D} compare_price_desc
    compare_price_desc-IsOrder = record {
      same = λ a b h. x.cmp_eq a b (ground arith);
      itself = λ a. ground (arith, x.cmp_self a);
      turned = λ a b. ground (arith, x.cmp_flip a b);
      chained = λ a b e h k.
          ground (arith, x.cmp_flip a b, x.cmp_flip b e, x.cmp_flip a e, x.cmp_trans e b a);
    }

same_or_not : (o : Ordering) → (o ≡ Ordering.eq) ⊎ (o ≢ Ordering.eq)
same_or_not Ordering.eq = inl refl
same_or_not Ordering.lt = inr (λ e. cc)
same_or_not Ordering.gt = inr (λ e. cc)

pick_second : {A : Type 0} (o : Ordering) → o ≢ Ordering.eq → (a b : A) → pick o a b ≡ b
pick_second Ordering.eq n a b = absurd (n refl)
pick_second Ordering.lt n a b = refl
pick_second Ordering.gt n a b = refl

module _ {D L : Type 0} ⦃d : Decimal D⦄ ⦃t : TreeMap D (PriceLevel D) L⦄ (m : IsTreeMap t) where
  -- The levels of a side are those of its orders.
  pub record AreLevels (c : D → D → Ordering) (side : Side) (os : IdMap (BookOrder D)) (levels : L)
      : Type 0 where
    pub compares : m.comparator levels ≡ c
    pub sorted : Sorted c (t.entries levels)
    pub shows : (price : D) → t.get price levels ≡ level_at side price os

  module _ (c : D → D → Ordering) (r : IsOrder c) (side : Side) (os os' : IdMap (BookOrder D))
      (levels : L) (v : AreLevels c side os levels) where
    seen : (p : D) → get_sorted c p (t.entries levels) ≡ t.get p levels
    seen p = rw (m.get-entries p levels, v.compares) refl

    got_put :
        (p price : D) (level : PriceLevel D)
        → t.get p (t.put price level levels) ≡ pick (c p price) (some level) (t.get p levels)
    got_put p price level =
        rw
          (
            m.get-entries p (t.put price level levels),
            m.entries-put,
            m.comparator-put,
            v.compares,
            sym (seen p),
          )
          (get-put c r p price level (t.entries levels))

    got_remove :
        (p price : D) → t.get p (t.remove price levels) ≡ pick (c p price) none (t.get p levels)
    got_remove p price =
        rw
          (
            m.get-entries p (t.remove price levels),
            m.entries-remove,
            m.comparator-remove,
            v.compares,
            sym (seen p),
          )
          (get-remove c r p price (t.entries levels) v.sorted)

    by_price :
        (price : D) (new : Option (PriceLevel D))
        → level_at side price os' ≡ new
        → ((p : D) → c p price ≢ Ordering.eq → level_at side p os' ≡ level_at side p os)
        → (p : D) → pick (c p price) new (t.get p levels) ≡ level_at side p os'
    by_price price new own others p = elim (same_or_not (c p price)) [
      | inl same ↦
          rw same (sym own ∙ ap (λ (z : D). level_at side z os') (sym (r.same p price same)))
      | inr apart ↦ pick_second (c p price) apart _ _ ∙ v.shows p ∙ sym (others p apart)
    ]

    -- Where the level of one price is written, and no other price's orders have changed.
    pub put-AreLevels :
        (price : D) (level : PriceLevel D)
        → level_at side price os' ≡ some level
        → ((p : D) → c p price ≢ Ordering.eq → level_at side p os' ≡ level_at side p os)
        → AreLevels c side os' (t.put price level levels)
    put-AreLevels price level own others = record {
      compares = m.comparator-put price level levels ∙ v.compares;
      sorted = rw (m.entries-put, v.compares) (Sorted-put c r price level _ v.sorted);
      shows = λ p. got_put p price level ∙ by_price price (some level) own others p;
    }

    pub remove-AreLevels :
        (price : D)
        → level_at side price os' ≡ none
        → ((p : D) → c p price ≢ Ordering.eq → level_at side p os' ≡ level_at side p os)
        → AreLevels c side os' (t.remove price levels)
    remove-AreLevels price own others = record {
      compares = m.comparator-remove price levels ∙ v.compares;
      sorted = rw (m.entries-remove, v.compares) (Sorted-remove c r price _ v.sorted);
      shows = λ p. got_remove p price ∙ by_price price none own others p;
    }
