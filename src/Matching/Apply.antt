-- ===== src/Matching/Apply.antt =====
-- The operations of `orderBook` in matching/order_book.go, but for `Snapshot` and `Restore`. `none`
-- is a run-time panic or `log.Fatal`.
pub mod Admit
pub mod Loop
pub mod Settle
pub mod Execute
pub mod Submit
pub mod Outcome
pub mod Take
pub mod Cancel
pub mod Recover
pub mod Check
pub mod Serve
pub mod Rest
pub mod Uncrossed
use cheetah_exchange.Prelude.{
  ℕ, ◌+◌, ◌≡◌, Bool, true, false, not, ◌&&◌, ◌||◌, Option, none, some, List, [], ◌∷◌, ◌++◌,
  if◌then◌else◌, get_elem?, set, map, length, ◌==◌,
}
use cheetah_exchange.Prelude.Ids.{IdMap, lookup}
use cheetah_exchange.Extern.Decimal.{Decimal, greater_than, is_zero}
use cheetah_exchange.Extern.TreeMap.{TreeMap}
use cheetah_exchange.Models.{
  Product, Order, Side, buy, sell, opposite, OrderType, limit, market, DoneReason, reason_filled,
  reason_cancelled, table_order_split_count,
}
use cheetah_exchange.Matching.Window.{
  Window, put, PutResult, put_ok, put_err, PutError, expired, existed, out_of_range,
}
use cheetah_exchange.Matching.Log.{
  Log, BookOrder, open_log, done_log, new_book_order, new_open_log, new_done_log,
}
use cheetah_exchange.Matching.Depth.{Key, Depth, add_order, decr_size}
use cheetah_exchange.Matching.Book.{
  Book, next_seq, table_index, prepare, prices_cross, depth_of, makers_of, with_makers, with_depth,
  new_windows,
}
use cheetah_exchange.Matching.Match.{Run, match_all, count_all}

-- How `put` on the window of an order id ends: an id that may go on, with the windows that are
-- left; one that is refused; or a panic.
pub data Admission : Type 0 where
  admitted : List Window → Admission
  refused : Admission
  panicked : Admission

abbrev pub admission : List Window → ℕ → PutResult → Admission
admission ws i (put_ok w) = admitted (set ws i w)
admission ws i (put_err expired) = refused
admission ws i (put_err existed) = refused
admission ws i (put_err out_of_range) = panicked

unfoldable pub admit : List Window → ℕ → Admission
admit ws id = elim (get_elem? ws (table_index id)) [
  | none ↦ panicked
  | some w ↦ admission ws (table_index id) (put w id)
]

-- `_ = o.orderIdWindows[idx].put(order.Id)`: the error is dropped.
unfoldable pub note_id : List Window → ℕ → Option (List Window)
unfolding admit
note_id ws id = elim (admit ws id) [ admitted ws' ↦ some ws' | refused ↦ some ws | panicked ↦ none ]

abbrev pub is_limit : OrderType → Bool
is_limit limit = true
is_limit _ = false

module _ {D : Type 0} ⦃d : Decimal D⦄ where
  abbrev pub done_reason : OrderType → Side → D → D → DoneReason
  done_reason market sell size funds =
      if greater_than size d.nought then reason_cancelled else reason_filled
  done_reason market buy size funds =
      if greater_than funds d.nought then reason_cancelled else reason_filled
  done_reason _ _ size funds = reason_filled

  abbrev pub done_price : OrderType → D → D
  done_price market price = d.nought
  done_price _ price = price

  abbrev pub done_size : OrderType → D → D
  done_size market size = d.nought
  done_size _ size = size

  abbrev pub taker_done : ℕ → ℕ → BookOrder D → Log D
  taker_done seq product taker =
      let o = record taker { price = done_price taker.order_type taker.price } in
      let reason = done_reason taker.order_type taker.side taker.size taker.funds in
      done_log (new_done_log seq product o (done_size taker.order_type taker.size) reason)

module _ {D Q : Type 0} ⦃d : Decimal D⦄ ⦃t : TreeMap (Key D) ℕ Q⦄ where
  -- The taker goes into the book with what it has left.
  unfoldable pub rest_on_book : Book D Q → BookOrder D → Option (List (Log D) × Book D Q)
  rest_on_book b taker = elim (depth_of taker.side b) [
    | none ↦ none
    | some m ↦
        let b' = with_depth taker.side (add_order taker m) b in
        some (
          open_log (new_open_log (next_seq b.log_seq) b.product.id taker) ∷ [],
          record b' { log_seq = next_seq b.log_seq },
        )
  ]

  -- The taker is done.
  unfoldable pub finish : Book D Q → BookOrder D → List (Log D) × Book D Q
  finish b taker = (
    taker_done (next_seq b.log_seq) b.product.id taker ∷ [],
    record b { log_seq = next_seq b.log_seq },
  )

  unfoldable pub settle_taker : Book D Q → BookOrder D → Option (List (Log D) × Book D Q)
  unfolding rest_on_book finish
  settle_taker b taker =
      if is_limit taker.order_type && greater_than taker.size d.nought
      then rest_on_book b taker
      else some (finish b taker)

  abbrev pub start_run : Book D Q → BookOrder D → Run D Q
  start_run b taker = record {
    makers = makers_of taker.side b;
    taker = taker;
    log_seq = b.log_seq;
    trade_seq = b.trade_seq;
    logs = [];
  }

  -- The book once the loop has run.
  abbrev pub after_run : Side → Run D Q → Book D Q → Book D Q
  after_run side r b = record (with_makers side r.makers b) {
    log_seq = r.log_seq;
    trade_seq = r.trade_seq;
  }

  abbrev pub prepend :
      List (Log D) → Option (List (Log D) × Book D Q) → Option (List (Log D) × Book D Q)
  prepend logs none = none
  prepend logs (some (rest, b)) = some (logs ++ rest, b)

  -- The part of `ApplyOrder` behind the window, on the prepared taker.
  unfoldable pub execute : Book D Q → BookOrder D → Option (List (Log D) × Book D Q)
  unfolding settle_taker
  execute b taker =
      elim (match_all b.product (start_run b taker) (t.entries (makers_of taker.side b).queue)) [
        | none ↦ none
        | some r ↦ prepend r.logs (settle_taker (after_run taker.side r b) r.taker)
      ]

  unfoldable pub apply_order : Book D Q → Order D → Option (List (Log D) × Book D Q)
  unfolding execute
  apply_order b order = elim (admit b.order_id_windows order.id) [
    | admitted ws ↦ execute (record b { order_id_windows = ws }) (prepare (new_book_order order))
    | refused ↦ some ([], b)
    | panicked ↦ none
  ]

  -- `CancelOrder`, once the window has noted the id.
  unfoldable pub cancel_noted : Book D Q → Order D → Option (List (Log D) × Book D Q)
  cancel_noted b order = elim (depth_of order.side b) [
    | none ↦ none
    | some m ↦ elim (lookup order.id m.orders) [
      | none ↦ some ([], b)
      | some o ↦ elim (decr_size order.id o.size m) [
        | none ↦ none
        | some (o', m') ↦
            let seq = next_seq b.log_seq in
            some (
              done_log (new_done_log seq b.product.id o' o.size reason_cancelled) ∷ [],
              record (with_depth order.side m' b) { log_seq = seq },
            )
      ]
    ]
  ]

  unfoldable pub cancel_order : Book D Q → Order D → Option (List (Log D) × Book D Q)
  unfolding cancel_noted
  cancel_order b order = elim (note_id b.order_id_windows order.id) [
    | none ↦ none
    | some ws ↦ cancel_noted (record b { order_id_windows = ws }) order
  ]

  unfoldable pub nullify_order : Book D Q → Order D → Option (List (Log D) × Book D Q)
  nullify_order b order = elim (note_id b.order_id_windows order.id) [
    | none ↦ none
    | some ws ↦
        let seq = next_seq b.log_seq in
        some (
          done_log
                (new_done_log seq b.product.id (new_book_order order) order.size reason_cancelled)
              ∷ [],
          record b { order_id_windows = ws; log_seq = seq },
        )
  ]

  -- The end of the maker's queue that `IsOrderWillNotMatch` looks at: `Min` for a buyer, `Max`
  -- otherwise.
  abbrev pub checked_end : Side → Q → Option (Key D × ℕ)
  checked_end buy q = t.min q
  checked_end _ q = t.max q

  -- The comparison with the order that this entry of the queue stands for.
  abbrev pub end_check : Side → D → Depth D Q → Option (Key D × ℕ) → Option Bool
  end_check side price makers none = some true
  end_check side price makers (some e) = elim (lookup e.1 makers.orders) [
    | none ↦ none
    | some maker ↦ some (not (prices_cross side price maker.price))
  ]

  unfoldable pub is_order_will_not_match : Book D Q → Order D → Option Bool
  is_order_will_not_match b order =
      let taker = prepare (new_book_order order) in
      let makers = makers_of taker.side b in
      end_check taker.side taker.price makers (checked_end taker.side makers.queue)

  unfoldable pub is_order_will_full_match : Book D Q → Order D → Option Bool
  is_order_will_full_match b order =
      let taker = prepare (new_book_order order) in
      let makers = makers_of taker.side b in
      elim (count_all b.product makers taker (t.entries makers.queue)) [
        | none ↦ none
        | some o ↦ some (not (is_limit o.order_type && greater_than o.size d.nought))
      ]
