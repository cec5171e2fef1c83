-- ===== src/Pushing/PriceBook/Restored.antt =====
-- `SnapshotFull` and `Restore` of pushing/order_book.go: a restored book shows its clients what the
-- book showed that the snapshot was made of.
use cheetah_exchange.Prelude.{
  ℕ, ◌≡◌, refl, sym, ap, subst, ◌∙◌, true, Option, none, some, List, [], ◌∷◌, if◌then◌else◌, arith,
  inl, inr, Ordering, ◌==◌, Bool-cases, Option-cases, some_inj, All, ==→≡,
}
use cheetah_exchange.Prelude.Ids.{IdMap, lookup, insert, IsMap, lookup-insert, All-entries}
use cheetah_exchange.Extern.Decimal.{Decimal, IsExact, is_positive}
use cheetah_exchange.Extern.TreeMap.{TreeMap, IsTreeMap, get_sorted}
use cheetah_exchange.Extern.TreeMap.Sorted.{Sorted-unique}
use cheetah_exchange.Models.{Side, buy, sell}
use cheetah_exchange.Matching.Log.{BookOrder}
use cheetah_exchange.Matching.Apply.Recover.Listing.{by_id, HasDepth}
use cheetah_exchange.Matching.Apply.Recover.Restore.{All-by_id, by_id-values}
use cheetah_exchange.Pushing.PriceBook.{
  PriceBook, PriceLevel, Change, FullSnapshot, new_price_book, shown_order, save_new, save_order,
  save_all, restore_price_book, snapshot_full, snapshot_level2,
}
use cheetah_exchange.Pushing.PriceBook.Sides.{AreLevels}
use cheetah_exchange.Pushing.PriceBook.Save.{save_order-IsLevelled}
use cheetah_exchange.Pushing.PriceBook.Levelled.{
  IsLevelled, order_of, order_of-IsOrder, new_price_book-IsLevelled, levels_known, fresh_runs,
}
use cheetah_exchange.Pushing.PriceBook.Alike.{shape, Alike, shape_missing, totals-Alike}

module _ {D L : Type 0} where
  -- A full snapshot of a book: its orders in any order, each once.
  pub record IsFullOf (b : PriceBook D L) (s : FullSnapshot D) : Type 0 where
    pub seq : s.seq ≡ b.seq
    pub log_offset : s.log_offset ≡ b.log_offset
    pub log_seq : s.log_seq ≡ b.log_seq
    pub single : IsMap (by_id s.orders)
    pub found : (id : ℕ) → lookup id (by_id s.orders) ≡ lookup id b.orders

module _ {D L : Type 0} ⦃d : Decimal D⦄ ⦃t : TreeMap D (PriceLevel D) L⦄ (x : IsExact D)
    (m : IsTreeMap t) where
  entries-Alike :
      (side : Side) (os os' : IdMap (BookOrder D)) (levels levels' : L)
      → IsMap os
      → IsMap os'
      → Alike os os'
      → AreLevels m (order_of side) side os levels
      → AreLevels m (order_of side) side os' levels'
      → t.entries levels ≡ t.entries levels'
  entries-Alike side os os' levels levels' s s' h v v' =
      Sorted-unique (order_of side) (order_of-IsOrder x side) (t.entries levels) (t.entries levels')
        v.sorted v'.sorted
        (λ p.
          let (counts, sums) = totals-Alike x side p os os' s s' h in
          let same : t.get p levels ≡ t.get p levels' =
            v.shows p ∙ rw (counts, sums) (sym (v'.shows p)) in
          ap (λ (c : D → D → Ordering). get_sorted c p (t.entries levels)) (sym v.compares)
          ∙ sym (m.get-entries p levels)
          ∙ same
          ∙ m.get-entries p levels'
          ∙ ap (λ (c : D → D → Ordering). get_sorted c p (t.entries levels')) v'.compares)

  -- What the levels see of a book that the orders of a list have been saved into.
  abbrev after_all : List (BookOrder D) → IdMap (BookOrder D) → ℕ → Option (Side × D × D)
  after_all os held id = elim (lookup id (by_id os)) [
    | none ↦ shape (lookup id held)
    | some o ↦ shape (some o)
  ]

  saved_orders :
      (c : Option (Change D)) (b' : PriceBook D L) (o : BookOrder D) (levels : L)
      (b : PriceBook D L)
      → (c, b') ≡ save_new 0 0 o.order_id o.size o.price o.side levels b
      → b'.orders ≡ insert o.order_id (shown_order o.order_id o.size o.price o.side) b.orders
  unfolding save_new
  saved_orders c b' o levels b e = ap (λ (z : Option (Change D) × PriceBook D L). z.1.orders) e

  still_fresh :
      (id : ℕ) (os : List (BookOrder D)) (held held' : IdMap (BookOrder D))
      (new : Option (Side × D × D))
      → lookup id (by_id os) ≡ none
      → ((j : ℕ) → shape (lookup j held') ≡ (if id == j then new else shape (lookup j held)))
      → All (λ o. lookup o.order_id held ≡ none) os
      → All (λ o. lookup o.order_id held' ≡ none) os
  unfolding lookup
  still_fresh id [] held held' new apart h fresh = tt
  still_fresh id (o ∷ os) held held' new apart h fresh = (
    shape_missing _ (ground (arith, h o.order_id, fresh.0, apart)),
    still_fresh id os held held' new (ground (arith, apart)) h fresh.1,
  )

  after_one :
      (o : BookOrder D) (os : List (BookOrder D)) (held held' : IdMap (BookOrder D)) (id : ℕ)
      → lookup o.order_id (by_id os) ≡ none
      → shape (lookup id held')
        ≡ (if o.order_id == id then shape (some o) else shape (lookup id held))
      → after_all os held' id ≡ after_all (o ∷ os) held id
  unfolding lookup
  after_one o os held held' id apart h = elim (Bool-cases (o.order_id == id)) [
    | inl here ↦
        let gone : lookup id (by_id os) ≡ none =
          subst (λ (i : ℕ). lookup i (by_id os) ≡ none) (==→≡ o.order_id id here) apart in
        rw (after_all, gone, here) (h ∙ rw here refl)
    | inr away ↦ elim (Option-cases (lookup id (by_id os))) [
      | inl gone ↦ rw (after_all, gone, away) (h ∙ rw away refl)
      | inr (p, found) ↦ rw (after_all, found, away) refl
    ]
  ]

  saves_one :
      (o : BookOrder D) (b : PriceBook D L)
      → IsLevelled m b
      → lookup o.order_id b.orders ≡ none
      → is_positive o.size ≡ true
      → HasDepth o
      → (c : Option (Change D)) × (b' : PriceBook D L) × (save_order 0 0 o.order_id o.size o.price
            o.side b
          ≡ some (c, b'))
        × IsLevelled m b'
        × ((id : ℕ)
            → shape (lookup id b'.orders)
              ≡ (if o.order_id == id then shape (some o) else shape (lookup id b.orders)))
  saves_one o b v fresh above known =
      let (c, b', runs, levelled) =
        save_order-IsLevelled m x 0 0 o.order_id o.size o.price o.side b v known
          (ground (arith, above)) (λ q e. absurd (cc (fresh, e))) in
      let (levels, on) = levels_known m o.side b known in
      let computed : some (c, b') ≡ some (save_new 0 0 o.order_id o.size o.price o.side levels b) =
        sym runs
        ∙ fresh_runs m 0 0 o.order_id o.size o.price o.side b levels on (ground (arith, above))
            fresh (ground (arith, above)) in
      (
        c,
        b',
        runs,
        levelled,
        λ id.
            rw (saved_orders c b' o levels b (some_inj computed))
              (rw (lookup-insert o.order_id id) (ground arith)),
      )

  -- What the orders of a snapshot leave in a book.
  saves_all :
      (os : List (BookOrder D)) (b : PriceBook D L)
      → IsLevelled m b
      → IsMap (by_id os)
      → All (λ o. lookup o.order_id b.orders ≡ none) os
      → All (λ o. (is_positive o.size ≡ true) × HasDepth o) os
      → (b' : PriceBook D L) × (save_all os b ≡ some b')
        × IsLevelled m b'
        × ((id : ℕ) → shape (lookup id b'.orders) ≡ after_all os b.orders id)
  unfolding save_all lookup
  saves_all [] b v single fresh fit = (b, refl, v, λ id. refl)
  saves_all (o ∷ os) b v single fresh fit =
      let (c, b1, runs, v1, shapes) = saves_one o b v fresh.0 fit.0.0 fit.0.1 in
      let (b', rest, v', all_shapes) =
        saves_all os b1 v1 single.1
          (still_fresh o.order_id os b.orders b1.orders (shape (some o)) single.0 shapes fresh.1)
          fit.1 in
      (
        b',
        rw (save_all, runs) rest,
        v',
        λ id. all_shapes id ∙ after_one o os b.orders b1.orders id single.0 (shapes id),
      )

  fit_orders :
      (b : PriceBook D L) (s : FullSnapshot D)
      → IsLevelled m b
      → IsFullOf b s
      → All (λ o. (is_positive o.size ≡ true) × HasDepth o) s.orders
  fit_orders b s v k =
      All-by_id (λ o. (is_positive o.size ≡ true) × HasDepth o) s.orders
        (All-entries (λ id o. (is_positive o.size ≡ true) × HasDepth o) (by_id s.orders) k.single
          (λ id o e.
            let there = sym (k.found id) ∙ e in (v.positive id o there, v.sided id o there)))

  fresh_in_new :
      (os : List (BookOrder D)) → All (λ o. lookup {V = BookOrder D} o.order_id [] ≡ none) os
  unfolding lookup
  fresh_in_new [] = tt
  fresh_in_new (o ∷ os) = (refl, fresh_in_new os)

  after_new : (os : List (BookOrder D)) (id : ℕ) → after_all os [] id ≡ shape (lookup id (by_id os))
  unfolding lookup
  after_new os id = elim (Option-cases (lookup id (by_id os))) [
    | inl gone ↦ rw (after_all, gone) refl
    | inr (o, found) ↦ rw (after_all, found) refl
  ]

  pub snapshot_full-IsFullOf : (b : PriceBook D L) → IsLevelled m b → IsFullOf b (snapshot_full b)
  unfolding snapshot_full
  snapshot_full-IsFullOf b v =
      let same =
        by_id-values b.orders (All-entries (λ id o. o.order_id ≡ id) b.orders v.single v.keyed) in
      record {
        seq = refl;
        log_offset = refl;
        log_seq = refl;
        single = subst IsMap (sym same) v.single;
        found = λ id. ap (lookup id) same;
      }

  restored_by :
      (s : FullSnapshot D) (b b' : PriceBook D L)
      → save_all s.orders b ≡ some b'
      → restore_price_book s b
        ≡ some (record b' { seq = s.seq; log_offset = s.log_offset; log_seq = s.log_seq })
  unfolding restore_price_book
  restored_by s b b' e = rw (restore_price_book, e) refl

  -- What `SnapshotFull` makes of a levelled book is a full snapshot of it, whose orders Go may list
  -- in any order; and from one with its orders in whatever order, `Restore` into a new book does not
  -- panic and gives a levelled book that shows what the first one showed: the level 2 snapshots are
  -- the same at every depth, and so are the sequence and the position in the log.
  pub restore_price_book-shows :
      (b : PriceBook D L) (s : FullSnapshot D)
      → IsLevelled m b
      → IsFullOf b s
      → IsFullOf b (snapshot_full b)
        × ((b' : PriceBook D L) × (restore_price_book s new_price_book ≡ some b')
            × IsLevelled m b'
            × ((n : ℕ) → snapshot_level2 n b' ≡ snapshot_level2 n b)
            × (b'.log_offset ≡ b.log_offset)
            × (b'.log_seq ≡ b.log_seq))
  unfolding snapshot_level2 new_price_book lookup
  restore_price_book-shows b s v k =
      let (b1, runs, v1, shapes) =
        saves_all s.orders new_price_book (new_price_book-IsLevelled m) k.single
          (fresh_in_new s.orders) (fit_orders b s v k) in
      let alike : Alike b1.orders b.orders =
        λ id. shapes id ∙ after_new s.orders id ∙ ap shape (k.found id) in
      let bids =
        entries-Alike buy b1.orders b.orders b1.bids b.bids v1.single v.single alike v1.bids_ok
          v.bids_ok in
      let asks =
        entries-Alike sell b1.orders b.orders b1.asks b.asks v1.single v.single alike v1.asks_ok
          v.asks_ok in
      (
        snapshot_full-IsFullOf b v,
        (
          record b1 { seq = s.seq; log_offset = s.log_offset; log_seq = s.log_seq },
          restored_by s new_price_book b1 runs,
          record {
            single = v1.single;
            positive = v1.positive;
            keyed = v1.keyed;
            sided = v1.sided;
            bids_ok = v1.bids_ok;
            asks_ok = v1.asks_ok;
          },
          λ n. rw (bids, asks, k.seq) refl,
          k.log_offset,
          k.log_seq,
        ),
      )
