-- ===== src/Pushing/PriceBook/Levelled.antt =====
-- A pushed book (pushing/order_book.go) whose price levels are the numbers and the sums of the orders
-- that are shown there.
use cheetah_exchange.Prelude.{
  ℕ, ◌≡◌, refl, sym, ap, subst, ◌∙◌, Bool, false, Option, none, some, [], if◌then◌else◌, arith, ◌⊎◌,
  inl, inr, Ordering, some_inj,
}
use cheetah_exchange.Prelude.Ids.{IdMap, lookup, insert, erase, IsMap}
use cheetah_exchange.Extern.Decimal.{Decimal, IsExact, is_zero, less_than}
use cheetah_exchange.Extern.TreeMap.{TreeMap, IsTreeMap}
use cheetah_exchange.Extern.TreeMap.Sorted.{IsOrder}
use cheetah_exchange.Models.{Side, buy, sell, other_side, same_side}
use cheetah_exchange.Matching.Log.{BookOrder}
use cheetah_exchange.Pushing.PriceBook.{
  PriceBook, PriceLevel, new_price_book, levels_of, shrink_level, save_new, save_known, save_order,
  changed, compare_price_desc,
}
use cheetah_exchange.Matching.Apply.Recover.Listing.{HasDepth}
use cheetah_exchange.Pushing.PriceBook.Levels.{IsKeyed}
use cheetah_exchange.Pushing.PriceBook.Sides.{
  level_at, AllPositive, Every, AreLevels, cmp-IsOrder, compare_price_desc-IsOrder,
}

module _ {D : Type 0} ⦃d : Decimal D⦄ where
  -- The comparator of a side's levels.
  abbrev pub order_of : Side → D → D → Ordering
  order_of buy a b = compare_price_desc a b
  order_of _ a b = d.cmp a b

  pub order_of-IsOrder : (x : IsExact D) (side : Side) → IsOrder {K = D} (order_of side)
  order_of-IsOrder x buy = compare_price_desc-IsOrder x
  order_of-IsOrder x sell = cmp-IsOrder x
  order_of-IsOrder x other_side = cmp-IsOrder x

  pub order_of_same :
      (side : Side) (a b : D) → d.cmp a b ≡ Ordering.eq → order_of side a b ≡ Ordering.eq
  order_of_same buy a b e = ground (arith, e)
  order_of_same sell a b e = e
  order_of_same other_side a b e = e

module _ {D L : Type 0} ⦃d : Decimal D⦄ ⦃t : TreeMap D (PriceLevel D) L⦄ (m : IsTreeMap t) where
  -- A pushed book: each order is there once, under its id and of a positive size, and the levels of
  -- both sides are the numbers and the sums of the orders at their prices.
  pub record IsLevelled (b : PriceBook D L) : Type 0 where
    pub single : IsMap b.orders
    pub positive : AllPositive b.orders
    pub keyed : IsKeyed b
    pub sided : Every HasDepth b.orders
    pub bids_ok : AreLevels m (order_of buy) buy b.orders b.bids
    pub asks_ok : AreLevels m (order_of sell) sell b.orders b.asks

  fresh-AreLevels : (c : D → D → Ordering) (side : Side) → AreLevels m c side [] (t.new_with c)
  fresh-AreLevels c side = record {
    compares = m.comparator-new c;
    sorted = rw (m.entries-new c) tt;
    shows = λ p. m.get-entries p _ ∙ rw (m.entries-new c) refl;
  }

  pub new_price_book-IsLevelled : IsLevelled new_price_book
  unfolding new_price_book lookup
  new_price_book-IsLevelled = record {
    single = tt;
    positive = λ id o e. cc;
    keyed = λ id o e. cc;
    sided = λ id o e. cc;
    bids_ok = fresh-AreLevels compare_price_desc buy;
    asks_ok = fresh-AreLevels d.cmp sell;
  }

  pub levels_ok :
      (side : Side) (b : PriceBook D L) (levels : L)
      → IsLevelled b
      → levels_of side b ≡ some levels
      → AreLevels m (order_of side) side b.orders levels
  levels_ok buy b levels v e =
      subst (λ (z : L). AreLevels m (order_of buy) buy b.orders z) (some_inj e) v.bids_ok
  levels_ok sell b levels v e =
      subst (λ (z : L). AreLevels m (order_of sell) sell b.orders z) (some_inj e) v.asks_ok
  levels_ok other_side b levels v e = absurd (cc (e))

  kept-AreLevels :
      (c : D → D → Ordering) (side : Side) (os os' : IdMap (BookOrder D)) (levels : L)
      → AreLevels m c side os levels
      → ((p : D) → level_at side p os' ≡ level_at side p os)
      → AreLevels m c side os' levels
  kept-AreLevels c side os os' levels v same = record {
    compares = v.compares;
    sorted = v.sorted;
    shows = λ p. v.shows p ∙ sym (same p);
  }

  pub changed-IsLevelled :
      (side : Side) (offset log_seq : ℕ) (level : PriceLevel D) (levels' : L)
      (os' : IdMap (BookOrder D)) (b : PriceBook D L)
      → IsLevelled b
      → (side ≡ buy) ⊎ (side ≡ sell)
      → IsMap os'
      → AllPositive os'
      → Every HasDepth os'
      → IsKeyed (changed offset log_seq side level levels' os' b).1
      → AreLevels m (order_of side) side os' levels'
      → ((other : Side)
          → same_side side other ≡ false
          → (p : D) → level_at other p os' ≡ level_at other p b.orders)
      → IsLevelled (changed offset log_seq side level levels' os' b).1
  changed-IsLevelled buy offset log_seq level levels' os' b v known single positive sided keyed own
        across =
      record {
        single = single;
        positive = positive;
        keyed = keyed;
        sided = sided;
        bids_ok = own;
        asks_ok =
            kept-AreLevels (order_of sell) sell b.orders os' b.asks v.asks_ok (across sell refl);
      }
  changed-IsLevelled sell offset log_seq level levels' os' b v known single positive sided keyed own
        across =
      record {
        single = single;
        positive = positive;
        keyed = keyed;
        sided = sided;
        bids_ok = kept-AreLevels (order_of buy) buy b.orders os' b.bids v.bids_ok (across buy refl);
        asks_ok = own;
      }
  changed-IsLevelled other_side offset log_seq level levels' os' b v (inl e) single positive sided
        keyed own across =
      absurd cc
  changed-IsLevelled other_side offset log_seq level levels' os' b v (inr e) single positive sided
        keyed own across =
      absurd cc

  pub levels_known :
      (side : Side) (b : PriceBook D L)
      → (side ≡ buy) ⊎ (side ≡ sell)
      → (levels : L) × (levels_of side b ≡ some levels)
  levels_known buy b known = (b.bids, refl)
  levels_known sell b known = (b.asks, refl)
  levels_known other_side b (inl e) = absurd cc
  levels_known other_side b (inr e) = absurd cc

  pub fresh_runs :
      (offset log_seq id : ℕ) (size price : D) (side : Side) (b : PriceBook D L) (levels : L)
      → levels_of side b ≡ some levels
      → less_than size d.nought ≡ false
      → lookup id b.orders ≡ none
      → is_zero size ≡ false
      → save_order offset log_seq id size price side b
        ≡ some (save_new offset log_seq id size price side levels b)
  unfolding save_order
  fresh_runs offset log_seq id size price side b levels on fine fresh some_size =
      rw (save_order, fine, fresh, some_size, on) refl

  pub known_runs :
      (offset log_seq : ℕ) (o : BookOrder D) (size price : D) (side : Side) (levels : L)
      (b : PriceBook D L) (gone : Bool) (level : PriceLevel D) (levels' : L)
      → is_zero size ≡ gone
      → shrink_level price (d.sub o.size size) gone levels ≡ some (level, levels')
      → save_known offset log_seq o size price side levels b
        ≡ some (
            changed offset log_seq side level levels'
              (if gone
                then erase o.order_id b.orders
                else insert o.order_id (record o { size = size }) b.orders)
              b)
  unfolding save_known
  known_runs offset log_seq o size price side levels b gone level levels' z shrinks = rw (sym z) (
      ap
        (λ (r : Option (PriceLevel D × L)). elim r [
          | none ↦ none
          | some q ↦ some (
              changed offset log_seq side q.0 q.1
                (if is_zero size
                  then erase o.order_id b.orders
                  else insert o.order_id (record o { size = size }) b.orders)
                b)
        ])
        (subst
          (λ (g : Bool). shrink_level price (d.sub o.size size) g levels ≡ some (level, levels'))
          (sym z) shrinks))
