-- ===== src/Matching/Depth/Invariant.antt =====
-- What `depth` of matching/order_book.go keeps: its queue holds exactly the orders of its map.
use cheetah_exchange.Prelude.{
  ℕ, ◌≡◌, sym, ap, subst, ◌∙◌, true, Option, none, some, arith, Ordering,
}
use cheetah_exchange.Prelude.Ids.{
  IdMap, lookup, insert, erase, lookup-insert, lookup-erase, IsMap, insert-IsMap, erase-IsMap,
}
use cheetah_exchange.Extern.Decimal.{Decimal, is_positive}
use cheetah_exchange.Extern.TreeMap.{TreeMap, IsTreeMap, get_sorted}
use cheetah_exchange.Extern.TreeMap.Sorted.{
  IsOrder, Sorted, Sorted-put, Sorted-remove, get-put, get-remove, pick,
}
use cheetah_exchange.Matching.Log.{BookOrder}
use cheetah_exchange.Matching.Depth.{Key, Depth, key_of, new_depth, add_order}

module _ {D Q : Type 0} ⦃d : Decimal D⦄ ⦃t : TreeMap (Key D) ℕ Q⦄ (m : IsTreeMap t) where
  -- What the queue should answer for a key: the id, if the map has that id at that price.
  abbrev pub expected : (Key D → Key D → Ordering) → IdMap (BookOrder D) → Key D → Option ℕ
  expected c orders k = elim (lookup k.order_id orders) [
    | none ↦ none
    | some o ↦ pick (c k (key_of o)) (some k.order_id) none
  ]

  pub record IsDepth (c : Key D → Key D → Ordering) (b : Depth D Q) : Type 0 where
    pub ordered_by : m.comparator b.queue ≡ c
    pub sorted : Sorted c (t.entries b.queue)
    pub queued : (k : Key D) → get_sorted c k (t.entries b.queue) ≡ expected c b.orders k
    pub single : IsMap b.orders
    pub keyed : (id : ℕ) (o : BookOrder D) → lookup id b.orders ≡ some o → o.order_id ≡ id
    pub sized : (id : ℕ) (o : BookOrder D) → lookup id b.orders ≡ some o → is_positive o.size ≡ true

  module _ (c : Key D → Key D → Ordering) (o : IsOrder c) where
    same_id : (k j : Key D) → c k j ≡ Ordering.eq → k.order_id ≡ j.order_id
    same_id k j h = ap (λ (z : Key D). z.order_id) (o.same k j h)

    pub new_depth-IsDepth : IsDepth c (new_depth c)
    unfolding new_depth lookup
    new_depth-IsDepth = record {
      ordered_by = m.comparator-new c;
      sorted = subst (Sorted c) (sym (m.entries-new c)) tt;
      queued = λ k. rw (m.entries-new c);
      single = tt;
      keyed = λ id e h. cc;
      sized = λ id e h. cc;
    }

    -- A new order may enter: the map and the queue stay in step.
    pub add_order-IsDepth :
        (e : BookOrder D) (b : Depth D Q)
        → IsDepth c b
        → lookup e.order_id b.orders ≡ none
        → is_positive e.size ≡ true
        → IsDepth c (add_order e b)
    unfolding add_order
    add_order-IsDepth e b v fresh pos = record {
      ordered_by = m.comparator-put (key_of e) e.order_id b.queue ∙ v.ordered_by;
      sorted =
          rw (m.entries-put (key_of e) e.order_id b.queue, v.ordered_by)
            (Sorted-put c o (key_of e) e.order_id (t.entries b.queue) v.sorted);
      queued = λ k.
          rw
            (
              m.entries-put (key_of e) e.order_id b.queue,
              v.ordered_by,
              get-put c o k (key_of e) e.order_id (t.entries b.queue),
              v.queued k,
            )
            (ground
              (arith, fresh, same_id k (key_of e), lookup-insert e.order_id k.order_id e b.orders));
      single = insert-IsMap e.order_id e b.orders v.single;
      keyed = λ id a h. ground (arith, v.keyed id a, lookup-insert e.order_id id e b.orders);
      sized = λ id a h. ground (arith, v.sized id a, lookup-insert e.order_id id e b.orders);
    }

    module _ (b : Depth D Q) (v : IsDepth c b) (e e' : BookOrder D)
        (same : key_of e' ≡ key_of e) where
      -- The order of an id is replaced by one at the same price.
      pub resized :
          lookup e.order_id b.orders ≡ some e
          → is_positive e'.size ≡ true
          → IsDepth c (record b { orders = insert e.order_id e' b.orders })
      resized held pos = record {
        ordered_by = v.ordered_by;
        sorted = v.sorted;
        queued = λ k.
            rw (v.queued k)
              (ground (arith, held, same, lookup-insert e.order_id k.order_id e' b.orders));
        single = insert-IsMap e.order_id e' b.orders v.single;
        keyed = λ id a h. ground (
          arith,
          v.keyed id a,
          ap (λ (z : Key D). z.order_id) same,
          lookup-insert e.order_id id e' b.orders,
        );
        sized = λ id a h. ground (arith, v.sized id a, lookup-insert e.order_id id e' b.orders);
      }

      -- The order of an id goes, from the map and from the queue.
      pub removed :
          lookup e.order_id b.orders ≡ some e
          → IsDepth c
              (record { orders = erase e.order_id b.orders; queue = t.remove (key_of e') b.queue })
      removed held = record {
        ordered_by = m.comparator-remove (key_of e') b.queue ∙ v.ordered_by;
        sorted =
            rw (m.entries-remove (key_of e') b.queue, v.ordered_by)
              (Sorted-remove c o (key_of e') (t.entries b.queue) v.sorted);
        queued = λ k.
            rw
              (
                m.entries-remove (key_of e') b.queue,
                v.ordered_by,
                get-remove c o k (key_of e') (t.entries b.queue) v.sorted,
                v.queued k,
              )
              (ground (
                arith,
                held,
                same,
                same_id k (key_of e),
                lookup-erase e.order_id k.order_id b.orders,
              ));
        single = erase-IsMap e.order_id b.orders v.single;
        keyed = λ id a h. ground (arith, v.keyed id a, lookup-erase e.order_id id b.orders);
        sized = λ id a h. ground (arith, v.sized id a, lookup-erase e.order_id id b.orders);
      }
