-- ===== src/Pushing/PriceBook/Save.antt =====
-- `saveOrder` of pushing/order_book.go keeps every price level of the book equal to the number and
-- the sum of the orders that are shown there.
use cheetah_exchange.Prelude.{
  ℕ, ◌≡◌, refl, sym, subst, ◌∙◌, true, false, Option, none, some, arith, ◌⊎◌, inl, inr, Bool-cases,
  Option-cases,
}
use cheetah_exchange.Prelude.Ids.{lookup, insert, erase, insert-IsMap, erase-IsMap}
use cheetah_exchange.Extern.Decimal.{Decimal, IsExact, is_positive, is_zero, less_than}
use cheetah_exchange.Extern.TreeMap.{TreeMap, IsTreeMap}
use cheetah_exchange.Models.{Side, buy, sell, same_side}
use cheetah_exchange.Matching.Log.{BookOrder}
use cheetah_exchange.Pushing.PriceBook.{
  PriceBook, PriceLevel, Change, shown_order, levels_of, grow_level, save_new, save_known,
  save_order, changed,
}
use cheetah_exchange.Matching.Apply.Recover.Listing.{HasDepth}
use cheetah_exchange.Pushing.PriceBook.Levels.{IsKeyed, save_order_lem}
use cheetah_exchange.Pushing.PriceBook.Totals.{is_at}
use cheetah_exchange.Pushing.PriceBook.Moves.{
  away-insert_new, away-insert, away-erase, is_at-own, is_at-across,
}
use cheetah_exchange.Pushing.PriceBook.Sums.{
  insert-Every, erase-Every, HasSize, grow-AreLevels, shrink-AreLevels, erase-AreLevels,
}
use cheetah_exchange.Pushing.PriceBook.Levelled.{
  order_of, order_of-IsOrder, order_of_same, IsLevelled, levels_ok, changed-IsLevelled,
  levels_known, known_runs, fresh_runs,
}

module _ {D L : Type 0} ⦃d : Decimal D⦄ ⦃t : TreeMap D (PriceLevel D) L⦄ (m : IsTreeMap t) where
  module _ (x : IsExact D) (offset log_seq id : ℕ) (size price : D) (side : Side)
      (b : PriceBook D L) (v : IsLevelled m b) (known : (side ≡ buy) ⊎ (side ≡ sell)) where
    abbrev Step : Type 0
    Step = Option (Change D) × PriceBook D L

    -- The book goes on, and stays levelled.
    abbrev pub GoesOn : Option Step → Type 0
    GoesOn r = (c : Option (Change D)) × (b' : PriceBook D L) × (r ≡ some (c, b')) × IsLevelled m b'

    abbrev saving : Option Step
    saving = save_order offset log_seq id size price side b

    IsKeyed-after :
        (c : Option (Change D)) (b' : PriceBook D L) → saving ≡ some (c, b') → IsKeyed b'
    IsKeyed-after c b' e = (save_order_lem offset log_seq id size price side b v.keyed c b' e).keyed

    module _ (levels : L) (on : levels_of side b ≡ some levels)
        (fine : less_than size d.nought ≡ false) where
      saves_new :
          lookup id b.orders ≡ none → is_zero size ≡ false → is_positive size ≡ true → GoesOn saving
      unfolding save_order save_new
      saves_new fresh some_size above =
          let o = shown_order id size price side in
          let own : is_at side price o ≡ true = is_at-own x side o price known refl refl in
          let runs =
            fresh_runs m offset log_seq id size price side b levels on fine fresh some_size in
          (
            _,
            _,
            runs,
            changed-IsLevelled m side offset log_seq (grow_level price size levels).0
                (grow_level price size levels).1 (insert id o b.orders) b v known
                (insert-IsMap id o b.orders v.single)
                (insert-Every HasSize id o b.orders above v.positive)
                (insert-Every HasDepth id o b.orders known v.sided) (IsKeyed-after _ _ runs)
                (grow-AreLevels x m (order_of side) (order_of-IsOrder x side) (order_of_same side)
                  side b.orders levels v.single v.positive (levels_ok m side b levels v on) price id
                  o fresh refl own)
                (λ other apart p.
                  away-insert_new x other p id o b.orders (is_at-across x other o p apart) fresh),
          )

      module _ (o : BookOrder D) (found : lookup id b.orders ≡ some o) (o_side : o.side ≡ side)
          (at : o.price ≡ price) where
        own : is_at side price o ≡ true
        own = is_at-own x side o price known o_side at

        held : lookup o.order_id b.orders ≡ some o
        held = subst (λ (i : ℕ). lookup i b.orders ≡ some o) (sym (v.keyed id o found)) found

        across : (other : Side) → same_side side other ≡ false → same_side o.side other ≡ false
        across other h = subst (λ (z : Side). same_side z other ≡ false) (sym o_side) h

        saves_known : is_zero size ≡ false → is_positive size ≡ true → GoesOn saving
        unfolding save_order save_known
        saves_known some_size above =
            let os' = insert o.order_id (record o { size = size }) b.orders in
            let (level, levels', shrinks, levelled) =
              shrink-AreLevels x m (order_of side) (order_of-IsOrder x side) (order_of_same side)
                side b.orders levels v.single v.positive (levels_ok m side b levels v on) price
                o.order_id o size held at own some_size above in
            let runs : saving ≡ some (changed offset log_seq side level levels' os' b) =
              rw (save_order, fine, found, on) refl
              ∙ known_runs m offset log_seq o size price side levels b false level levels' some_size
                  shrinks in
            (
              _,
              _,
              runs,
              changed-IsLevelled m side offset log_seq level levels' os' b v known
                  (insert-IsMap o.order_id _ b.orders v.single)
                  (insert-Every HasSize o.order_id _ b.orders above v.positive)
                  (insert-Every HasDepth o.order_id _ b.orders (v.sided id o found) v.sided)
                  (IsKeyed-after _ _ runs) levelled
                  (λ other apart p.
                    away-insert x other p o.order_id o b.orders
                      (is_at-across x other o p (across other apart)) (record o { size = size })
                      (is_at-across x other (record o { size = size }) p (across other apart))
                      held),
            )

        saves_gone : is_zero size ≡ true → GoesOn saving
        unfolding save_order save_known
        saves_gone no_size =
            let os' = erase o.order_id b.orders in
            let (level, levels', shrinks, levelled) =
              erase-AreLevels x m (order_of side) (order_of-IsOrder x side) (order_of_same side)
                side b.orders levels v.single v.positive (levels_ok m side b levels v on) price
                o.order_id o size held at own no_size in
            let runs : saving ≡ some (changed offset log_seq side level levels' os' b) =
              rw (save_order, fine, found, on) refl
              ∙ known_runs m offset log_seq o size price side levels b true level levels' no_size
                  shrinks in
            (
              _,
              _,
              runs,
              changed-IsLevelled m side offset log_seq level levels' os' b v known
                  (erase-IsMap o.order_id b.orders v.single)
                  (erase-Every HasSize o.order_id b.orders v.positive)
                  (erase-Every HasDepth o.order_id b.orders v.sided) (IsKeyed-after _ _ runs)
                  levelled
                  (λ other apart p.
                    away-erase x other p o.order_id o b.orders
                      (is_at-across x other o p (across other apart)) v.single held),
            )

    -- In a pushed book whose levels are the numbers and the sums of its orders, `saveOrder` saves an
    -- order of either side at a size that is not negative without a panic, and the levels are again
    -- the numbers and the sums: the level of a price begins with its first order, and goes with its
    -- last. An order that is shown already must be saved on its side and at its price.
    pub save_order-IsLevelled :
        less_than size d.nought ≡ false
        → ((o : BookOrder D) → lookup id b.orders ≡ some o → (o.side ≡ side) × (o.price ≡ price))
        → GoesOn saving
    unfolding save_order
    save_order-IsLevelled fine at =
        let (levels, on) = levels_known m side b known in
        elim (Option-cases (lookup id b.orders)) [
          | inl fresh ↦ elim (Bool-cases (is_zero size)) [
            | inl no_size ↦ (none, b, rw (save_order, fine, fresh, no_size) refl, v)
            | inr some_size ↦
                saves_new levels on fine fresh some_size (ground (arith, fine, some_size))
          ]
          | inr (o, found) ↦
              let (o_side, o_at) = at o found in
              elim (Bool-cases (is_zero size)) [
                | inl no_size ↦ saves_gone levels on fine o found o_side o_at no_size
                | inr some_size ↦
                    saves_known levels on fine o found o_side o_at some_size
                      (ground (arith, fine, some_size))
              ]
        ]
