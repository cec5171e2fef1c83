-- ===== src/Tests/Levels.antt =====
-- The theorems on the levels of a pushed book, at two orders of one price.
use cheetah_exchange.Prelude.{ℕ, ◌≡◌, refl, sym, ap, subst, ◌∙◌, some_inj, Option, none, some, inl}
use cheetah_exchange.Prelude.Ids.{lookup, insert}
use cheetah_exchange.Prelude.Int.{ℤ, pos}
use cheetah_exchange.Extern.TreeMap.{IsTreeMap}
use cheetah_exchange.Models.{buy}
use cheetah_exchange.Pushing.PriceBook.{
  PriceBook, PriceLevel, Change, new_price_book, save_order, restore_price_book, snapshot_full,
  snapshot_level2,
}
use cheetah_exchange.Pushing.PriceBook.Save.{save_order-IsLevelled}
use cheetah_exchange.Pushing.PriceBook.Levelled.{IsLevelled, new_price_book-IsLevelled}
use cheetah_exchange.Pushing.PriceBook.Restored.{
  IsFullOf, snapshot_full-IsFullOf, restore_price_book-shows,
}
use cheetah_exchange.Tests.Instances.{
  integers, integers-IsExact, ListMap, list_map, list_map-IsTreeMap,
}

abbrev Levels : Type 0
Levels = ListMap ℤ (PriceLevel ℤ)

abbrev level_laws : IsTreeMap (list_map {K = ℤ} {V = PriceLevel ℤ})
level_laws = list_map-IsTreeMap ℤ (PriceLevel ℤ)

abbrev empty_book : PriceBook ℤ Levels
empty_book = new_price_book

abbrev first_save : Option (Option (Change ℤ) × PriceBook ℤ Levels)
first_save = save_order 4 2 5 (pos 3) (pos 10) buy empty_book

abbrev after_first : Option (Change ℤ) × PriceBook ℤ Levels
after_first = elim first_save [ none ↦ (none, empty_book) | some r ↦ r ]

abbrev one_order : PriceBook ℤ Levels
one_order = after_first.1

first_runs : first_save ≡ some after_first
unfolding save_order new_price_book lookup
first_runs = refl

one_order-IsLevelled : IsLevelled level_laws one_order
unfolding new_price_book lookup
one_order-IsLevelled =
    let (c, b', runs, levelled) =
      save_order-IsLevelled level_laws integers-IsExact 4 2 5 (pos 3) (pos 10) buy empty_book
        (new_price_book-IsLevelled level_laws) (inl refl) refl (λ o e. cc) in
    subst (IsLevelled level_laws)
      (ap (λ (z : Option (Change ℤ) × PriceBook ℤ Levels). z.1) (some_inj (sym runs ∙ first_runs)))
      levelled

save_order-IsLevelled_example :
    (c : Option (Change ℤ)) × (b' : PriceBook ℤ Levels) × (save_order 5 3 6
        (pos 4)
        (pos 10)
        buy
        one_order
      ≡ some (c, b'))
    × IsLevelled level_laws b'
unfolding save_order new_price_book lookup insert
save_order-IsLevelled_example =
    save_order-IsLevelled level_laws integers-IsExact 5 3 6 (pos 4) (pos 10) buy one_order
      one_order-IsLevelled (inl refl) refl (λ o e. cc)

restore_price_book-shows_example :
    IsFullOf one_order (snapshot_full one_order)
    × ((b' : PriceBook ℤ Levels) × (restore_price_book (snapshot_full one_order) new_price_book
          ≡ some b')
        × IsLevelled level_laws b'
        × ((n : ℕ) → snapshot_level2 n b' ≡ snapshot_level2 n one_order)
        × (b'.log_offset ≡ one_order.log_offset)
        × (b'.log_seq ≡ one_order.log_seq))
restore_price_book-shows_example =
    restore_price_book-shows integers-IsExact level_laws one_order (snapshot_full one_order)
      one_order-IsLevelled
      (snapshot_full-IsFullOf integers-IsExact level_laws one_order one_order-IsLevelled)
