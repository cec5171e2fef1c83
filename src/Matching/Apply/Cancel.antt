-- ===== src/Matching/Apply/Cancel.antt =====
-- `CancelOrder` and `NullifyOrder` of matching/order_book.go on a well-formed book.
use cheetah_exchange.Prelude.{
  ◌∙◌, ℕ, ◌+◌, ◌<◌, ◌≡◌, refl, sym, subst, none, some, List, [], ◌∷◌, arith, ◌⊎◌, inl, inr,
  Option-cases, ==_refl,
}
use cheetah_exchange.Prelude.Ids.{lookup}
use cheetah_exchange.Extern.Decimal.{Decimal, IsExact}
use cheetah_exchange.Extern.TreeMap.{TreeMap, IsTreeMap}
use cheetah_exchange.Models.{Order, Side, buy, sell, other_side, reason_cancelled}
use cheetah_exchange.Matching.Window.{Window, u64}
use cheetah_exchange.Matching.Log.{Log, BookOrder, done_log, new_done_log, new_book_order}
use cheetah_exchange.Matching.Log.Sequence.{Numbered, last_seq}
use cheetah_exchange.Matching.Depth.{Key, Depth, compare_asc, compare_desc}
use cheetah_exchange.Matching.Depth.Order.{compare_asc-IsOrder, compare_desc-IsOrder}
use cheetah_exchange.Matching.Book.{Book, next_seq, depth_of}
use cheetah_exchange.Matching.Book.Invariant.{IsBook}
use cheetah_exchange.Matching.Apply.{cancel_order, cancel_noted, nullify_order}
use cheetah_exchange.Matching.Apply.Admit.{SeenIn, note_id_lem}
use cheetah_exchange.Matching.Apply.Submit.{noted, noted-IsBook}
use cheetah_exchange.Matching.Apply.Take.{take_all}

module _ {D Q : Type 0} ⦃d : Decimal D⦄ ⦃t : TreeMap (Key D) ℕ Q⦄ (x : IsExact D)
    (m : IsTreeMap t) where
  -- No side of the book has the order.
  abbrev pub Gone : Book D Q → Side → ℕ → Type 0
  Gone b side id = (a : Depth D Q) → depth_of side b ≡ some a → lookup id a.orders ≡ none

  -- The side of the book has this order under the id.
  abbrev pub OnBook : Book D Q → Side → ℕ → BookOrder D → Type 0
  OnBook b side id e = (a : Depth D Q) × (depth_of side b ≡ some a) × (lookup id a.orders ≡ some e)

  -- What a cancellation writes: nothing for an order that is not on the book, and otherwise one log
  -- that the order is done, cancelled, with the whole size that it had left.
  abbrev pub CancelLogs : Book D Q → Order D → List (Log D) → Type 0
  CancelLogs b o logs =
      (Gone b o.side o.id × (logs ≡ []))
      ⊎ ((e : BookOrder D) × OnBook b o.side o.id e
          × (logs
              ≡ done_log (
                  new_done_log (next_seq b.log_seq) b.product.id
                    (record e { size = d.sub e.size e.size }) e.size reason_cancelled)
                ∷ []))

  -- The result of handling an order: a well-formed book, behind logs numbered without a gap, from
  -- which no window has been forgotten.
  pub record Handled (b : Book D Q) (logs : List (Log D)) (b' : Book D Q) : Type 0 where
    pub is_book : IsBook m b'
    pub numbered : Numbered b.log_seq logs
    pub reached : b'.log_seq ≡ last_seq b.log_seq logs
    pub keeps : (y : ℕ) → SeenIn b.order_id_windows y → SeenIn b'.order_id_windows y
    pub same_product : b'.product ≡ b.product

  module _ (b : Book D Q) (v : IsBook m b) (o : Order D) where
    -- What a cancelled order leaves: nothing at all if it was not on the book, and otherwise the
    -- log that it is done with the size that it had left.
    pub record Cancelled : Type 0 where
      pub logs : List (Log D)
      pub book : Book D Q
      pub cancels : cancel_noted b o ≡ some (logs, book)
      pub handled : Handled b logs book
      pub gone : Gone book o.side o.id
      pub says : CancelLogs b o logs

    cancel_missing :
        (side : Side) (a : Depth D Q)
        → o.side ≡ side
        → depth_of side b ≡ some a
        → lookup o.id a.orders ≡ none
        → Cancelled
    unfolding cancel_noted
    cancel_missing side a on has missing = record {
      logs = [];
      book = b;
      cancels = rw (cancel_noted, on, has, missing);
      handled = record {
        is_book = v;
        numbered = tt;
        reached = refl;
        keeps = λ y h. h;
        same_product = refl;
      };
      gone = λ a' h.
          let is_a : depth_of side b ≡ some a' =
            subst (λ (s : Side). depth_of s b ≡ some a') on h in
          ground (arith, is_a, has, missing);
      says = inl (
        λ a' h.
            let is_a : depth_of side b ≡ some a' =
              subst (λ (s : Side). depth_of s b ≡ some a') on h in
            ground (arith, is_a, has, missing),
        refl,
      );
    }

    cancel_bid : (e : BookOrder D) → o.side ≡ buy → lookup o.id b.bids.orders ≡ some e → Cancelled
    unfolding cancel_noted
    cancel_bid e on held =
        let (m', s) =
          take_all x m compare_desc (compare_desc-IsOrder x) buy b.order_id_windows b.bids v.bids_ok
            o.id e held in
        record {
          logs =
              done_log (
                new_done_log (next_seq b.log_seq) b.product.id
                  (record e { size = d.sub e.size e.size }) e.size reason_cancelled)
              ∷ [];
          book = record b { bids = m'; log_seq = next_seq b.log_seq };
          cancels = rw (cancel_noted, on, held, s.takes, on);
          handled = record {
            is_book = record {
              bids_ok = s.is_side;
              asks_ok = v.asks_ok;
              are_windows = v.are_windows;
            };
            numbered = (refl, tt);
            reached = refl;
            keeps = λ y h. h;
            same_product = refl;
          };
          gone = λ a' h.
              let is_m : some m' ≡ some a' =
                subst
                  (λ (q : Side).
                    depth_of q (record b { bids = m'; log_seq = next_seq b.log_seq }) ≡ some a')
                  on h in
              ground (arith, is_m, s.looks_up o.id, ==_refl o.id);
          says = inr (
            e,
            (b.bids, subst (λ (q : Side). depth_of q b ≡ some b.bids) (sym on) refl, held),
            refl,
          );
        }

    cancel_ask : (e : BookOrder D) → o.side ≡ sell → lookup o.id b.asks.orders ≡ some e → Cancelled
    unfolding cancel_noted
    cancel_ask e on held =
        let (m', s) =
          take_all x m compare_asc (compare_asc-IsOrder x) sell b.order_id_windows b.asks v.asks_ok
            o.id e held in
        record {
          logs =
              done_log (
                new_done_log (next_seq b.log_seq) b.product.id
                  (record e { size = d.sub e.size e.size }) e.size reason_cancelled)
              ∷ [];
          book = record b { asks = m'; log_seq = next_seq b.log_seq };
          cancels = rw (cancel_noted, on, held, s.takes, on);
          handled = record {
            is_book = record {
              bids_ok = v.bids_ok;
              asks_ok = s.is_side;
              are_windows = v.are_windows;
            };
            numbered = (refl, tt);
            reached = refl;
            keeps = λ y h. h;
            same_product = refl;
          };
          gone = λ a' h.
              let is_m : some m' ≡ some a' =
                subst
                  (λ (q : Side).
                    depth_of q (record b { asks = m'; log_seq = next_seq b.log_seq }) ≡ some a')
                  on h in
              ground (arith, is_m, s.looks_up o.id, ==_refl o.id);
          says = inr (
            e,
            (b.asks, subst (λ (q : Side). depth_of q b ≡ some b.asks) (sym on) refl, held),
            refl,
          );
        }

    pub cancel_noted_lem : (o.side ≡ buy) ⊎ (o.side ≡ sell) → Cancelled
    cancel_noted_lem (inl on) = elim (Option-cases (lookup o.id b.bids.orders)) [
      | inl missing ↦ cancel_missing buy b.bids on refl missing
      | inr (e, held) ↦ cancel_bid e on held
    ]
    cancel_noted_lem (inr on) = elim (Option-cases (lookup o.id b.asks.orders)) [
      | inl missing ↦ cancel_missing sell b.asks on refl missing
      | inr (e, held) ↦ cancel_ask e on held
    ]

  module _ (b : Book D Q) (v : IsBook m b) (o : Order D) (small : o.id + 1 < u64) where
    depth_of-noted : (s : Side) (ws : List Window) → depth_of s (noted b ws) ≡ depth_of s b
    depth_of-noted buy ws = refl
    depth_of-noted sell ws = refl
    depth_of-noted other_side ws = refl

    noted_says :
        (ws : List Window) (logs : List (Log D))
        → CancelLogs (noted b ws) o logs
        → CancelLogs b o logs
    noted_says ws logs (inl (gone, e)) = inl (λ a h. gone a (depth_of-noted o.side ws ∙ h), e)
    noted_says ws logs (inr (e, (a, has, held), q)) =
        inr (e, (a, sym (depth_of-noted o.side ws) ∙ has, held), q)

    -- Cancelling never crashes on a known side of a well-formed book, and takes the order off it: the
    -- book stays well formed, and one log says that the order is done with the size that it had
    -- left, or none if it was not on the book.
    pub cancel_order_lem :
        (o.side ≡ buy) ⊎ (o.side ≡ sell)
        → (logs : List (Log D)) × (b' : Book D Q) × (cancel_order b o ≡ some (logs, b'))
          × Handled b logs b'
          × Gone b' o.side o.id
          × CancelLogs b o logs
    unfolding cancel_order
    cancel_order_lem known =
        let (ws, e, ok, seen, keeps) = note_id_lem b.order_id_windows v.are_windows o.id small in
        let r = cancel_noted_lem (noted b ws) (noted-IsBook m b v ws ok keeps) o known in
        (
          r.logs,
          r.book,
          rw (cancel_order, e) r.cancels,
          record {
            is_book = (r.handled).is_book;
            numbered = (r.handled).numbered;
            reached = (r.handled).reached;
            keeps = λ y h. (r.handled).keeps y (keeps y h);
            same_product = (r.handled).same_product;
          },
          r.gone,
          noted_says ws r.logs r.says,
        )

    -- Nullifying never crashes; it writes the one log that the order is cancelled in full.
    pub nullify_order_lem :
        (b' : Book D Q) × (nullify_order b o
          ≡ some (
            done_log (
                  new_done_log
                    (next_seq b.log_seq)
                    b.product.id
                    (new_book_order o)
                    o.size
                    reason_cancelled)
                ∷ [],
            b',
          ))
        × Handled b
            (done_log (
                new_done_log
                  (next_seq b.log_seq)
                  b.product.id
                  (new_book_order o)
                  o.size
                  reason_cancelled)
              ∷ [])
            b'
        × (b'.bids ≡ b.bids)
        × (b'.asks ≡ b.asks)
    unfolding nullify_order
    nullify_order_lem =
        let (ws, e, ok, seen, keeps) = note_id_lem b.order_id_windows v.are_windows o.id small in
        let w = noted-IsBook m b v ws ok keeps in
        (
          record b { order_id_windows = ws; log_seq = next_seq b.log_seq },
          rw (nullify_order, e),
          record {
            is_book = record { bids_ok = w.bids_ok; asks_ok = w.asks_ok; are_windows = ok };
            numbered = (refl, tt);
            reached = refl;
            keeps = keeps;
            same_product = refl;
          },
          refl,
          refl,
        )
