-- ===== src/Matching/Apply/Recover/Restore.antt =====
-- `Snapshot` and `Restore` of matching/order_book.go are inverse: a new book that takes in a
-- snapshot is the book that the snapshot was made of.
use cheetah_exchange.Prelude.{
  ℕ, ◌≡◌, refl, ap, ◌∙◌, sym, subst, true, Option, none, some, List, [], ◌∷◌, ◌++◌, if◌then◌else◌,
  arith, All, Ordering, ◌==◌, inl, inr, All-append, length,
}
use mathlib.Core.List.{append-nil}
use cheetah_exchange.Prelude.Ids.{IdMap, lookup, IsMap, All-entries}
use cheetah_exchange.Extern.Decimal.{Decimal, IsExact, is_positive}
use cheetah_exchange.Extern.TreeMap.{TreeMap, IsTreeMap}
use cheetah_exchange.Extern.TreeMap.Sorted.{IsOrder, Sorted-unique, pick}
use cheetah_exchange.Models.{Side, same_side, buy, sell, Product, table_order_split_count}
use cheetah_exchange.Matching.Window.{Window}
use cheetah_exchange.Matching.Apply.Admit.{AreWindows}
use cheetah_exchange.Matching.Log.{BookOrder}
use cheetah_exchange.Matching.Depth.{Key, Depth, key_of, new_depth, compare_asc, compare_desc}
use cheetah_exchange.Matching.Depth.Order.{compare_asc-IsOrder, compare_desc-IsOrder}
use cheetah_exchange.Matching.Depth.Invariant.{IsDepth, new_depth-IsDepth}
use cheetah_exchange.Matching.Book.{Book, new_order_book}
use cheetah_exchange.Matching.Book.Invariant.{IsBook, IsSide, IsResting}
use cheetah_exchange.Matching.Apply.Recover.{BookSnapshot, values, snapshot, restore}
use cheetah_exchange.Matching.Apply.Recover.Listing.{
  of_side, by_id, HasDepth, add_all, restore_orders_lem, add_all_lem, or_else,
}

module _ {D : Type 0} where
  of_side-append :
      (s : Side) (os ps : List (BookOrder D)) → of_side s (os ++ ps) ≡ of_side s os ++ of_side s ps
  of_side-append s [] ps = refl
  of_side-append s (o ∷ os) ps = ground (arith, of_side-append s os ps)

  of_side-eq :
      (s s' : Side) (os : List (BookOrder D))
      → All (λ o. o.side ≡ s') os
      → of_side s os ≡ (if same_side s' s then os else [])
  of_side-eq s s' [] h = ground arith
  of_side-eq s s' (o ∷ os) h = ground (arith, of_side-eq s s' os h.1)

  pub by_id-values :
      (es : IdMap (BookOrder D)) → All (λ e. e.1.order_id ≡ e.0) es → by_id (values es) ≡ es
  by_id-values [] h = refl
  by_id-values ((k, o) ∷ es) h = λ i. (h.0 i, o) ∷ by_id-values es h.1 i

  All-values :
      (P : BookOrder D → Type 0) (es : IdMap (BookOrder D))
      → All (λ e. P e.1) es
      → All P (values es)
  All-values P [] h = tt
  All-values P (e ∷ es) h = (h.0, All-values P es h.1)

  pub All-by_id :
      (P : BookOrder D → Type 0) (os : List (BookOrder D)) → All (λ e. P e.1) (by_id os) → All P os
  All-by_id P [] h = tt
  All-by_id P (o ∷ os) h = (h.0, All-by_id P os h.1)

  All-trivial :
      (P : BookOrder D → Type 0) (os : List (BookOrder D)) → ((o : BookOrder D) → P o) → All P os
  All-trivial P [] h = tt
  All-trivial P (o ∷ os) h = (h o, All-trivial P os h)

  -- What a queue answers for a key, by what the map has under its id.
  abbrev pointed :
      ⦃d : Decimal D⦄ → (Key D → Key D → Ordering) → Key D → Option (BookOrder D) → Option ℕ
  pointed c k none = none
  pointed c k (some o) = pick (c k (key_of o)) (some k.order_id) none

  All-imp :
      (P R : BookOrder D → Type 0) (os : List (BookOrder D))
      → ((o : BookOrder D) → P o → R o)
      → All P os
      → All R os
  All-imp P R [] f h = tt
  All-imp P R (o ∷ os) f h = (f o h.0, All-imp P R os f h.1)

or_else-none : {A : Type 0} (o : Option A) → or_else o none ≡ o
or_else-none none = refl
or_else-none (some a) = refl

module _ {D Q : Type 0} ⦃d : Decimal D⦄ ⦃t : TreeMap (Key D) ℕ Q⦄ where
  -- A snapshot of a book: its orders in any order, each once.
  pub record IsPictureOf (b : Book D Q) (s : BookSnapshot D) : Type 0 where
    pub sided : All HasDepth s.orders
    pub asks_single : IsMap (by_id (of_side sell s.orders))
    pub bids_single : IsMap (by_id (of_side buy s.orders))
    pub asks_found : (id : ℕ) → lookup id (by_id (of_side sell s.orders)) ≡ lookup id b.asks.orders
    pub bids_found : (id : ℕ) → lookup id (by_id (of_side buy s.orders)) ≡ lookup id b.bids.orders
    pub trade_seq : s.trade_seq ≡ b.trade_seq
    pub log_seq : s.log_seq ≡ b.log_seq
    pub windows : s.order_id_windows ≡ b.order_id_windows

  -- The same orders on both sides, queued in the same way, the same counters and windows.
  pub record IsCopyOf (b b' : Book D Q) : Type 0 where
    pub asks : (id : ℕ) → lookup id b'.asks.orders ≡ lookup id b.asks.orders
    pub bids : (id : ℕ) → lookup id b'.bids.orders ≡ lookup id b.bids.orders
    pub asks_queue : t.entries b'.asks.queue ≡ t.entries b.asks.queue
    pub bids_queue : t.entries b'.bids.queue ≡ t.entries b.bids.queue
    pub trade_seq : b'.trade_seq ≡ b.trade_seq
    pub log_seq : b'.log_seq ≡ b.log_seq
    pub windows : b'.order_id_windows ≡ b.order_id_windows

  module _ (x : IsExact D) (m : IsTreeMap t) where
    module _ (c : Key D → Key D → Ordering) (side : Side) (b : Book D Q) (s : Depth D Q)
        (v : IsSide m c side b.order_id_windows s) where
      -- The orders of a side, as `Snapshot` copies them.
      side_values : All (λ o. o.side ≡ side) (values s.orders)
      side_values =
          All-values (λ o. o.side ≡ side) s.orders
            (All-entries (λ id o. o.side ≡ side) s.orders v.is_depth.single
              (λ id o e. (v.resting id o e).on_side))

      side_by_id : by_id (values s.orders) ≡ s.orders
      side_by_id =
          by_id-values s.orders
            (All-entries (λ id o. o.order_id ≡ id) s.orders v.is_depth.single v.is_depth.keyed)

    pub snapshot-IsPictureOf : (b : Book D Q) → IsBook m b → IsPictureOf b (snapshot b)
    unfolding snapshot
    snapshot-IsPictureOf b v =
        let asks_only = side_values compare_asc sell b b.asks v.asks_ok in
        let bids_only = side_values compare_desc buy b b.bids v.bids_ok in
        let asks_listed : by_id (of_side sell (values b.asks.orders ++ values b.bids.orders))
            ≡ b.asks.orders =
          rw
            (
              of_side-append,
              of_side-eq sell sell (values b.asks.orders) asks_only,
              of_side-eq sell buy (values b.bids.orders) bids_only,
              append-nil,
            )
            (side_by_id compare_asc sell b b.asks v.asks_ok) in
        let bids_listed : by_id (of_side buy (values b.asks.orders ++ values b.bids.orders))
            ≡ b.bids.orders =
          rw
            (
              of_side-append,
              of_side-eq buy sell (values b.asks.orders) asks_only,
              of_side-eq buy buy (values b.bids.orders) bids_only,
            )
            (side_by_id compare_desc buy b b.bids v.bids_ok) in
        record {
          sided =
              All-append HasDepth _ _
                (All-imp (λ o. o.side ≡ sell) HasDepth _ (λ o e. inr e) asks_only)
                (All-imp (λ o. o.side ≡ buy) HasDepth _ (λ o e. inl e) bids_only);
          asks_single = subst IsMap (sym asks_listed) v.asks_ok.is_depth.single;
          bids_single = subst IsMap (sym bids_listed) v.bids_ok.is_depth.single;
          asks_found = λ id. ap (lookup id) asks_listed;
          bids_found = λ id. ap (lookup id) bids_listed;
          trade_seq = refl;
          log_seq = refl;
          windows = refl;
        }

    -- A side that has taken in the orders of another one.
    record IsSideCopy (c : Key D → Key D → Ordering) (s s' : Depth D Q) : Type 0 where
      is_depth : IsDepth m c s'
      orders : (id : ℕ) → lookup id s'.orders ≡ lookup id s.orders
      queue : t.entries s'.queue ≡ t.entries s.queue

    module _ (c : Key D → Key D → Ordering) (r : IsOrder c) (s : Depth D Q)
        (v : IsDepth m c s) where
      copied :
          (os : List (BookOrder D))
          → IsMap (by_id os)
          → ((id : ℕ) → lookup id (by_id os) ≡ lookup id s.orders)
          → IsSideCopy c s (add_all os (new_depth c))
      unfolding new_depth lookup
      copied os single found =
          let positive =
            All-by_id (λ o. is_positive o.size ≡ true) os
              (All-entries (λ id o. is_positive o.size ≡ true) (by_id os) single
                (λ id o e. v.sized id o (sym (found id) ∙ e))) in
          let (is_depth, all) =
            add_all_lem m c r os (new_depth c) (new_depth-IsDepth m c r) single
              (All-trivial (λ o. ◌≡◌ {A = Option (BookOrder D)} none none) os (λ o. refl))
              positive in
          let orders = λ (id : ℕ). all id ∙ ap (λ a. or_else a none) (found id) ∙ or_else-none _ in
          record {
            is_depth = is_depth;
            orders = orders;
            queue =
                Sorted-unique c r _ _ is_depth.sorted v.sorted (λ k.
                  is_depth.queued k ∙ ap (pointed c k) (orders k.order_id) ∙ sym (v.queued k));
          }

    copy-IsSide :
        (c : Key D → Key D → Ordering) (side : Side) (ws ws' : List Window) (s s' : Depth D Q)
        → IsSide m c side ws s
        → IsSideCopy c s s'
        → ws' ≡ ws
        → IsSide m c side ws' s'
    copy-IsSide c side ws ws' s s' v k e = record {
      is_depth = k.is_depth;
      resting = λ id o h.
          subst (λ w. IsResting m w side id o) (sym e) (v.resting id o (sym (k.orders id) ∙ h));
    }

    restore_picture :
        (b : Book D Q) (p : Product D) (s : BookSnapshot D)
        → IsBook m b
        → IsPictureOf b s
        → (b' : Book D Q) × (restore (new_order_book p) s ≡ some b') × IsBook m b' × IsCopyOf b b'
    unfolding restore new_order_book
    restore_picture b p s v k =
        let bids =
          copied compare_desc (compare_desc-IsOrder x) b.bids v.bids_ok.is_depth
            (of_side buy s.orders) k.bids_single k.bids_found in
        let asks =
          copied compare_asc (compare_asc-IsOrder x) b.asks v.asks_ok.is_depth
            (of_side sell s.orders) k.asks_single k.asks_found in
        let kept : (length s.order_id_windows == table_order_split_count) ≡ true =
          ground (arith, ap (length {A = Window}) k.windows, v.are_windows.enough) in
        let ready : Book D Q = record (new_order_book p) {
          log_seq = s.log_seq;
          trade_seq = s.trade_seq;
          order_id_windows = s.order_id_windows;
        } in
        (
          record ready {
            bids = add_all (of_side buy s.orders) (new_depth compare_desc);
            asks = add_all (of_side sell s.orders) (new_depth compare_asc);
          },
          rw kept (restore_orders_lem s.orders ready k.sided),
          record {
            bids_ok = copy-IsSide compare_desc buy _ _ b.bids _ v.bids_ok bids k.windows;
            asks_ok = copy-IsSide compare_asc sell _ _ b.asks _ v.asks_ok asks k.windows;
            are_windows = subst AreWindows (sym k.windows) v.are_windows;
          },
          record {
            asks = asks.orders;
            bids = bids.orders;
            asks_queue = asks.queue;
            bids_queue = bids.queue;
            trade_seq = k.trade_seq;
            log_seq = k.log_seq;
            windows = k.windows;
          },
        )

    -- What `Snapshot` makes of a well-formed book is a picture of it, whose orders Go may list in any
    -- order; and from a picture in whichever order, `Restore` into a new book does not panic and
    -- gives a well-formed copy: the same orders on each side, queued in the same way, the same
    -- sequence numbers and the same windows.
    pub restore-snapshot :
        (b : Book D Q) (p : Product D) (s : BookSnapshot D)
        → IsBook m b
        → IsPictureOf b s
        → IsPictureOf b (snapshot b)
          × ((b' : Book D Q) × (restore (new_order_book p) s ≡ some b')
              × IsBook m b'
              × IsCopyOf b b')
    restore-snapshot b p s v k = (snapshot-IsPictureOf b v, restore_picture b p s v k)
