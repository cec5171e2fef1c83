-- ===== src/Workers/Makers.antt =====
-- worker/fill_maker.go and worker/trade_maker.go: the fills and trades that are made from a log, and
-- the batches in which they are stored. A store that fails is tried again until it succeeds.
use cheetah_exchange.Prelude.{
  ℕ, ◌≡◌, sym, ap, ◌∙◌, true, false, ◌&&◌, List, [], ◌∷◌, ◌++◌, if◌then◌else◌, ltb, length, inl,
  inr, Bool-cases,
}
use mathlib.Core.List.{append-nil, append_assoc}
use cheetah_exchange.Extern.Decimal.{Decimal}
use cheetah_exchange.Models.{
  Fill, Trade, other_side, opposite, taker, maker, other_liquidity, other_reason,
}
use cheetah_exchange.Matching.Log.{Log, MatchLog, open_log, done_log, match_log}

module _ {D : Type 0} ⦃d : Decimal D⦄ where
  abbrev pub empty_fill : Fill D
  empty_fill = record {
    id = 0;
    trade_seq = 0;
    order_id = 0;
    message_seq = 0;
    product_id = 0;
    size = d.nought;
    price = d.nought;
    funds = d.nought;
    fee = d.nought;
    liquidity = other_liquidity;
    settled = false;
    side = other_side;
    done = false;
    done_reason = other_reason;
    log_offset = 0;
    log_seq = 0;
  }

  -- The fill of the taker of a trade, and that of its maker.
  abbrev pub taker_fill : ℕ → MatchLog D → Fill D
  taker_fill offset l = record empty_fill {
    trade_seq = l.trade_seq;
    message_seq = l.sequence;
    order_id = l.taker_order_id;
    product_id = l.product_id;
    size = l.size;
    price = l.price;
    liquidity = taker;
    side = l.side;
    log_offset = offset;
    log_seq = l.sequence;
  }

  abbrev pub maker_fill : ℕ → MatchLog D → Fill D
  maker_fill offset l = record empty_fill {
    trade_seq = l.trade_seq;
    message_seq = l.sequence;
    order_id = l.maker_order_id;
    product_id = l.product_id;
    size = l.size;
    price = l.price;
    liquidity = maker;
    side = opposite l.side;
    log_offset = offset;
    log_seq = l.sequence;
  }

  -- `OnMatchLog`, `OnOpenLog` and `OnDoneLog` of the fill maker.
  unfoldable pub fills_of_log : ℕ → Log D → List (Fill D)
  fills_of_log offset (match_log l) = taker_fill offset l ∷ maker_fill offset l ∷ []
  fills_of_log offset (open_log l) = []
  fills_of_log offset (done_log l) =
      record empty_fill {
        message_seq = l.sequence;
        order_id = l.order_id;
        product_id = l.product_id;
        size = l.remaining_size;
        done = true;
        done_reason = l.reason;
        log_offset = offset;
        log_seq = l.sequence;
      }
      ∷ []

  -- `OnMatchLog` of the trade maker, which does nothing with other logs.
  unfoldable pub trades_of_log : ℕ → Log D → List (Trade D)
  trades_of_log offset (match_log l) =
      record {
        product_id = l.product_id;
        trade_seq = l.trade_seq;
        taker_order_id = l.taker_order_id;
        taker_user_id = l.taker_user_id;
        maker_order_id = l.maker_order_id;
        maker_user_id = l.maker_user_id;
        price = l.price;
        size = l.size;
        side = l.side;
        log_offset = offset;
        log_seq = l.sequence;
      }
      ∷ []
  trades_of_log offset _ = []

-- One step of the flusher, with the number of items that wait in its channel: what is stored, and
-- what is held back.
unfoldable pub flush : {A : Type 0} → List A → A → ℕ → List A × List A
flush held item waiting =
    let held' = held ++ item ∷ [] in
    if ltb 0 waiting && ltb (length held') 1000 then ([], held') else (held', [])

module _ {A : Type 0} where
  abbrev pub and_then : List A → List A × List A → List A × List A
  and_then stored (later, held) = (stored ++ later, held)

  -- The flusher over the items that come, each with the number that waits behind it.
  unfoldable pub flush_all : List A → List (A × ℕ) → List A × List A
  unfolding flush
  flush_all held [] = ([], held)
  flush_all held ((item, waiting) ∷ items) =
      let (stored, held') = flush held item waiting in and_then stored (flush_all held' items)

  abbrev pub items_of : List (A × ℕ) → List A
  items_of [] = []
  items_of ((item, waiting) ∷ items) = item ∷ items_of items

  flush_keeps :
      (held : List A) (item : A) (waiting : ℕ)
      → (flush held item waiting).0 ++ (flush held item waiting).1 ≡ held ++ item ∷ []
  unfolding flush
  flush_keeps held item waiting =
      elim (Bool-cases (ltb 0 waiting && ltb (length (held ++ item ∷ [])) 1000)) [
        | inl wait ↦ rw (flush, wait)
        | inr now ↦ rw (flush, now) (append-nil (held ++ item ∷ []))
      ]

  -- However the items are batched, nothing is lost, repeated or reordered.
  pub flush_all_lem :
      (held : List A) (items : List (A × ℕ))
      → (flush_all held items).0 ++ (flush_all held items).1 ≡ held ++ items_of items
  unfolding flush_all
  flush_all_lem held [] = sym (append-nil held)
  flush_all_lem held ((item, waiting) ∷ items) =
      let r = flush held item waiting in
      append_assoc r.0 (flush_all r.1 items).0 (flush_all r.1 items).1
      ∙ (ap (λ (z : List A). r.0 ++ z) (flush_all_lem r.1 items)
          ∙ (sym (append_assoc r.0 r.1 (items_of items))
              ∙ (ap (λ (z : List A). z ++ items_of items) (flush_keeps held item waiting)
                  ∙ append_assoc held (item ∷ []) (items_of items))))
