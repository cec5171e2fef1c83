-- ===== src/Matching/Apply/Take.antt =====
-- Taking an order off its side of the book, as `CancelOrder` of matching/order_book.go does.
use cheetah_exchange.Prelude.{
  ℕ, ◌≡◌, sym, subst, true, none, some, List, arith, Ordering, ◌==◌, if◌then◌else◌,
}
use cheetah_exchange.Prelude.Ids.{lookup}
use cheetah_exchange.Extern.Decimal.{Decimal, IsExact, is_zero, sub_self}
use cheetah_exchange.Extern.TreeMap.{TreeMap, IsTreeMap}
use cheetah_exchange.Extern.TreeMap.Sorted.{IsOrder}
use cheetah_exchange.Models.{Side}
use cheetah_exchange.Matching.Window.{Window}
use cheetah_exchange.Matching.Log.{BookOrder}
use cheetah_exchange.Matching.Depth.{Key, Depth, decr_size}
use cheetah_exchange.Matching.Depth.Shrink.{less, Shrunk, decr_size-Shrunk}
use cheetah_exchange.Matching.Book.Invariant.{IsSide}

module _ {D Q : Type 0} ⦃d : Decimal D⦄ ⦃t : TreeMap (Key D) ℕ Q⦄ (x : IsExact D)
    (m : IsTreeMap t) where
  -- Taking the whole size of an order off a side.
  module _ (c : Key D → Key D → Ordering) (o : IsOrder c) (side : Side) (ws : List Window)
      (b : Depth D Q) (v : IsSide m c side ws b) (id : ℕ) (e : BookOrder D)
      (held : lookup id b.orders ≡ some e) where
    pub record Taken (b' : Depth D Q) : Type 0 where
      pub takes : decr_size id e.size b ≡ some (record e { size = d.sub e.size e.size }, b')
      pub is_side : IsSide m c side ws b'
      pub looks_up : (j : ℕ) → lookup j b'.orders ≡ (if id == j then none else lookup j b.orders)

    named : e.order_id ≡ id
    named = (v.is_depth).keyed id e held

    emptied : is_zero (d.sub e.size e.size) ≡ true
    emptied = rw (sub_self x e.size) (ground (arith, x.cmp_self d.nought))

    taken : (b' : Depth D Q) → Shrunk x m c o b e e.size b' → Taken b'
    taken b' s = record {
      takes =
          subst (λ (i : ℕ). decr_size i e.size b ≡ some (less x m c o e e.size, b')) named s.runs;
      is_side = record {
        is_depth = s.is_depth;
        resting = λ j a h. v.resting j a (ground (arith, h, s.looks_up j, emptied));
      };
      looks_up = λ j. ground (arith, s.looks_up j, emptied, named);
    }

    pub take_all : (b' : Depth D Q) × Taken b'
    take_all =
        let own : lookup e.order_id b.orders ≡ some e =
          subst (λ (i : ℕ). lookup i b.orders ≡ some e) (sym named) held in
        let (b', s) =
          decr_size-Shrunk x m c o b v.is_depth e e.size own (ground (arith, x.cmp_self e.size)) in
        (b', taken b' s)
