-- ===== src/Matching/Depth/Shrink.antt =====
-- `decrSize` of matching/order_book.go on a well-formed side of the book.
use cheetah_exchange.Prelude.{
  ℕ, ◌≡◌, refl, true, false, none, some, arith, Ordering, if◌then◌else◌, ◌==◌, ◌⊎◌, inl, inr,
  Bool-cases,
}
use cheetah_exchange.Prelude.Ids.{lookup, insert, erase, lookup-insert, lookup-erase}
use cheetah_exchange.Extern.Decimal.{Decimal, IsExact, is_positive, is_zero, less_than, cmp_sub}
use cheetah_exchange.Extern.TreeMap.{TreeMap, IsTreeMap, remove_sorted}
use cheetah_exchange.Extern.TreeMap.Sorted.{IsOrder}
use cheetah_exchange.Matching.Log.{BookOrder}
use cheetah_exchange.Matching.Depth.{Key, Depth, key_of, shrink, decr_size}
use cheetah_exchange.Matching.Depth.Invariant.{IsDepth, resized, removed}

module _ {D Q : Type 0} ⦃d : Decimal D⦄ ⦃t : TreeMap (Key D) ℕ Q⦄ (x : IsExact D) (m : IsTreeMap t)
    (c : Key D → Key D → Ordering) (o : IsOrder c) where
  abbrev pub less : BookOrder D → D → BookOrder D
  less e size = record e { size = d.sub e.size size }

  -- The order of an id has become `e` less a size: the rest of the map is as it was, and the order
  -- stands in the map and in the queue as long as it has a size left.
  pub record Shrunk (b : Depth D Q) (e : BookOrder D) (size : D) (b' : Depth D Q) : Type 0 where
    pub runs : decr_size e.order_id size b ≡ some (less e size, b')
    pub is_depth : IsDepth m c b'
    pub looks_up :
        (j : ℕ)
        → lookup j b'.orders ≡ (
            if e.order_id == j
            then (if is_zero (d.sub e.size size) then none else some (less e size))
            else lookup j b.orders)
    pub listed : t.entries b'.queue ≡ (
        if is_zero (d.sub e.size size)
        then remove_sorted c (key_of e) (t.entries b.queue)
        else t.entries b.queue)

  module _ (b : Depth D Q) (v : IsDepth m c b) (e : BookOrder D) (size : D) where
    -- What is left of an order that is at least as large is zero or positive.
    left_positive :
        less_than e.size size ≡ false
        → is_zero (d.sub e.size size) ≡ false
        → is_positive (d.sub e.size size) ≡ true
    left_positive h k = ground (arith, cmp_sub x e.size size)

    -- An order of the map that is at least as large as the size is shrunk by it.
    pub decr_size-Shrunk :
        lookup e.order_id b.orders ≡ some e
        → less_than e.size size ≡ false
        → (b' : Depth D Q) × Shrunk b e size b'
    unfolding decr_size shrink
    decr_size-Shrunk held fits = elim (Bool-cases (is_zero (d.sub e.size size))) [
      | inl gone ↦ (
        record {
          orders = erase e.order_id b.orders;
          queue = t.remove (key_of (less e size)) b.queue;
        },
        record {
          runs = rw (held, decr_size, fits, gone);
          is_depth = removed m c o b v e (less e size) refl held;
          looks_up = λ j. rw gone (lookup-erase e.order_id j b.orders);
          listed = rw (gone, m.entries-remove (key_of (less e size)) b.queue, v.ordered_by);
        },
      )
      | inr kept ↦ (
        record b { orders = insert e.order_id (less e size) b.orders },
        record {
          runs = rw (held, decr_size, fits, kept);
          is_depth = resized m c o b v e (less e size) refl held (left_positive fits kept);
          looks_up = λ j. rw kept (lookup-insert e.order_id j (less e size) b.orders);
          listed = rw kept;
        },
      )
    ]

    -- A size larger than the order is refused, and so is an id that the map does not have.
    pub decr_size_fails :
        (id : ℕ)
        → ((lookup id b.orders ≡ none)
            ⊎ ((lookup id b.orders ≡ some e) × (less_than e.size size ≡ true)))
        → decr_size id size b ≡ none
    unfolding decr_size shrink
    decr_size_fails id (inl missing) = rw (missing, decr_size)
    decr_size_fails id (inr (held, large)) = rw (held, decr_size, large)
