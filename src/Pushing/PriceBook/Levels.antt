-- ===== src/Pushing/PriceBook/Levels.antt =====
-- What `saveOrder` of pushing/order_book.go does to the orders that it keeps.
use cheetah_exchange.Prelude.{
  ℕ, ◌+◌, ◌≡◌, refl, sym, ap, subst, ◌∙◌, true, false, Option, none, some, arith, inl, inr,
  Bool-cases, Option-cases, some_inj, ◌⊎◌, if◌then◌else◌, ◌==◌, ==→≡,
}
use cheetah_exchange.Prelude.Ids.{lookup, insert, erase, lookup-insert, lookup-erase}
use cheetah_exchange.Extern.Decimal.{Decimal, is_zero, less_than}
use cheetah_exchange.Extern.TreeMap.{TreeMap}
use cheetah_exchange.Models.{Side}
use cheetah_exchange.Matching.Log.{BookOrder}
use cheetah_exchange.Pushing.PriceBook.{
  PriceBook, PriceLevel, Change, shown_order, levels_of, shrink_level, save_new, save_known,
  save_order, changed,
}

module _ {D : Type 0} where
  abbrev pub size_of : Option (BookOrder D) → Option D
  size_of none = none
  size_of (some o) = some o.size

module _ {D L : Type 0} ⦃d : Decimal D⦄ ⦃t : TreeMap D (PriceLevel D) L⦄ where
  -- Every order is kept under its own id.
  abbrev pub IsKeyed : PriceBook D L → Type 0
  IsKeyed b = (id : ℕ) (o : BookOrder D) → lookup id b.orders ≡ some o → o.order_id ≡ id

  abbrev pub shown_size : ℕ → PriceBook D L → Option D
  shown_size id b = size_of (lookup id b.orders)

  -- What saving an order of an id at a size has done: that id is shown at that size, or no longer
  -- if the size is zero, and every other id is as it was. The sequence counts the changes.
  pub record Saved (b : PriceBook D L) (id : ℕ) (size : D) (c : Option (Change D))
      (b' : PriceBook D L) : Type 0 where
    pub keyed : IsKeyed b'
    pub shows :
        (j : ℕ)
        → shown_size j b'
          ≡ (if id == j then (if is_zero size then none else some size) else shown_size j b)
    pub counted : ((c ≡ none) × (b' ≡ b)) ⊎ (b'.seq ≡ b.seq + 1)

  -- The orders of a book are all that its keys depend on.
  module _ (offset log_seq id : ℕ) (size price : D) (side : Side) (b : PriceBook D L)
      (k : IsKeyed b) where
    new_keyed :
        (j : ℕ) (o : BookOrder D)
        → lookup j (insert id (shown_order id size price side) b.orders) ≡ some o
        → o.order_id ≡ j
    new_keyed j o e = elim (Bool-cases (id == j)) [
      | inl same ↦
          let found : some (shown_order id size price side) ≡ some o =
            ground (arith, e, same, lookup-insert id j (shown_order id size price side) b.orders) in
          ap (λ (z : BookOrder D). z.order_id) (sym (some_inj found)) ∙ ==→≡ id j same
      | inr other ↦
          k j o
            (ground (arith, e, other, lookup-insert id j (shown_order id size price side) b.orders))
    ]

    old_keyed :
        (a : BookOrder D) (j : ℕ) (o : BookOrder D)
        → a.order_id ≡ id
        → lookup j (
            if is_zero size
            then erase a.order_id b.orders
            else insert a.order_id (record a { size = size }) b.orders)
          ≡ some o
        → o.order_id ≡ j
    old_keyed a j o named e = elim (Bool-cases (is_zero size)) [
      | inl gone ↦ k j o (ground (arith, e, gone, lookup-erase a.order_id j b.orders))
      | inr kept ↦ elim (Bool-cases (a.order_id == j)) [
        | inl same ↦
            let found : some (record a { size = size }) ≡ some o = ground (
              arith,
              e,
              kept,
              same,
              lookup-insert a.order_id j (record a { size = size }) b.orders,
            ) in
            ap (λ (z : BookOrder D). z.order_id) (sym (some_inj found)) ∙ ==→≡ a.order_id j same
        | inr other ↦ k j o (
            ground (
              arith,
              e,
              kept,
              other,
              lookup-insert a.order_id j (record a { size = size }) b.orders,
            ))
      ]
    ]

    old_shows :
        (a : BookOrder D) (j : ℕ)
        → a.order_id ≡ id
        → size_of (
            lookup j (
              if is_zero size
              then erase a.order_id b.orders
              else insert a.order_id (record a { size = size }) b.orders))
          ≡ (if id == j then (if is_zero size then none else some size) else shown_size j b)
    old_shows a j named = elim (Bool-cases (is_zero size)) [
      | inl gone ↦ rw (gone, lookup-erase a.order_id j b.orders, named) (ground arith)
      | inr kept ↦
          rw (kept, lookup-insert a.order_id j (record a { size = size }) b.orders, named)
            (ground arith)
    ]

    new_shows :
        (j : ℕ)
        → is_zero size ≡ false
        → size_of (lookup j (insert id (shown_order id size price side) b.orders))
          ≡ (if id == j then (if is_zero size then none else some size) else shown_size j b)
    new_shows j kept =
        rw (kept, lookup-insert id j (shown_order id size price side) b.orders) (ground arith)

    saves_new :
        (levels : L)
        → is_zero size ≡ false
        → Saved b id size
            (save_new offset log_seq id size price side levels b).0
            (save_new offset log_seq id size price side levels b).1
    unfolding save_new
    saves_new levels kept = record {
      keyed = new_keyed;
      shows = λ j. new_shows j kept;
      counted = inr refl;
    }

    saves_nothing : lookup id b.orders ≡ none → is_zero size ≡ true → Saved b id size none b
    saves_nothing missing gone = record {
      keyed = k;
      shows = λ j. elim (Bool-cases (id == j)) [
        | inl same ↦
            rw (same, gone)
              (ap (λ (i : ℕ). shown_size i b) (sym (==→≡ id j same)) ∙ ap size_of missing)
        | inr other ↦ rw other
      ];
      counted = inl (refl, refl);
    }

    abbrev Both : Type 0
    Both = Option (Change D) × PriceBook D L

    saves_old :
        (a : BookOrder D) (levels : L) (c : Option (Change D)) (b' : PriceBook D L)
        → lookup id b.orders ≡ some a
        → save_known offset log_seq a size price side levels b ≡ some (c, b')
        → Saved b id size c b'
    unfolding save_known
    saves_old a levels c b' held e =
        go (shrink_level price (d.sub a.size size) (is_zero size) levels) refl e
      where
        go :
            (r : Option (PriceLevel D × L))
            → shrink_level price (d.sub a.size size) (is_zero size) levels ≡ r
            → (elim r [
              | none ↦ none
              | some z ↦ some (
                  changed offset log_seq side z.0 z.1
                    (if is_zero size
                      then erase a.order_id b.orders
                      else insert a.order_id (record a { size = size }) b.orders)
                    b)
            ])
              ≡ some (c, b')
            → Saved b id size c b'
        go none q e = absurd (cc)
        go (some (level, levels')) q e =
            subst (λ (z : Both). Saved b id size z.0 z.1) (some_inj e)
              (record {
                keyed = λ j o h. old_keyed a j o (k id a held) h;
                shows = λ j. old_shows a j (k id a held);
                counted = inr refl;
              })

    -- Whatever `saveOrder` does, if it does not panic: behind it the order is shown at the new size,
    -- or no longer if that is zero, and every other order as before; the sequence grows by one
    -- whenever a change is pushed, and nothing is changed otherwise.
    pub save_order_lem :
        (c : Option (Change D)) (b' : PriceBook D L)
        → save_order offset log_seq id size price side b ≡ some (c, b')
        → Saved b id size c b'
    unfolding save_order
    save_order_lem c b' e = elim (Bool-cases (less_than size d.nought)) [
      | inl negative ↦ absurd (ground (arith, e, negative))
      | inr fine ↦ elim (Option-cases (lookup id b.orders)) [
        | inl missing ↦ elim (Bool-cases (is_zero size)) [
          | inl gone ↦
              subst (λ (z : Both). Saved b id size z.0 z.1)
                (some_inj (ground (arith, e, fine, missing, gone))) (saves_nothing missing gone)
          | inr kept ↦ elim (Option-cases (levels_of side b)) [
            | inl no_side ↦ absurd (ground (arith, e, fine, missing, kept, no_side))
            | inr (levels, on) ↦
                subst (λ (z : Both). Saved b id size z.0 z.1)
                  (some_inj (sym (rw (save_order, fine, missing, kept, on)) ∙ e))
                  (saves_new levels kept)
          ]
        ]
        | inr (a, held) ↦ elim (Option-cases (levels_of side b)) [
          | inl no_side ↦ absurd (ground (arith, e, fine, held, no_side))
          | inr (levels, on) ↦
              saves_old a levels c b' held (sym (rw (save_order, fine, held, on)) ∙ e)
        ]
      ]
    ]
