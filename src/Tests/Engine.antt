-- ===== src/Tests/Engine.antt =====
-- The theorems on the engine and the log reader, at the small book.
use cheetah_exchange.Prelude.{
  true, ℕ, ◌≡◌, refl, none, some, List, [], ◌∷◌, ◌++◌, arith, ◌⊎◌, inl, All, false,
}
use cheetah_exchange.Prelude.Int.{ℤ, pos, ◌+ℤ◌}
use cheetah_exchange.Extern.Decimal.{is_positive}
use cheetah_exchange.Extern.TreeMap.{IsTreeMap}
use cheetah_exchange.Models.{
  Order, TimeInForce, cancelling, buy, immediate_or_cancel, fill_or_kill, good_till_crossing,
}
use cheetah_exchange.Matching.Log.{Log, BookOrder, open_log, new_open_log}
use cheetah_exchange.Matching.Log.Sequence.{Numbered, last_seq}
use cheetah_exchange.Matching.Depth.{Key, compare_asc, add_order, new_depth}
use cheetah_exchange.Matching.Book.{Book, prepare, new_order_book}
use cheetah_exchange.Matching.Apply.Uncrossed.{IsUncrossed}
use cheetah_exchange.Matching.Engine.Uncrossed.{apply_orders-IsUncrossed}
use cheetah_exchange.Matching.Apply.Recover.{snapshot, restore}
use cheetah_exchange.Matching.Apply.Recover.Restore.{
  IsPictureOf, IsCopyOf, snapshot-IsPictureOf, restore-snapshot,
}
use cheetah_exchange.Prelude.Ids.{lookup}
use cheetah_exchange.Extern.TreeMap.Sorted.{IsOrder}
use cheetah_exchange.Matching.Depth.Order.{compare_asc-IsOrder}
use cheetah_exchange.Matching.Walk.Queue.{InOrder, queue_orders}
use cheetah_exchange.Matching.Walk.Refine.{Refines, match_all-walk}
use cheetah_exchange.Matching.Book.Invariant.{IsBook}
use cheetah_exchange.Matching.Walk.{Listed}
use cheetah_exchange.Matching.Apply.{cancel_order, start_run}
use cheetah_exchange.Matching.Apply.Outcome.{traded, remaining}
use cheetah_exchange.Matching.Apply.Submit.{IsValidOrder, taker_of}
use cheetah_exchange.Matching.Apply.Cancel.{Gone, CancelLogs, Handled, cancel_order_lem}
use cheetah_exchange.Matching.Engine.{
  apply_orders, apply_or_cancel, Committer, log_message, commit_all, Committed, Snapshot,
  on_commit_message, seq_le,
}
use cheetah_exchange.Matching.Engine.Dispatch.{Sound, dispatch-Sound, apply_orders-IsBook}
use cheetah_exchange.Matching.Engine.Again.{resubmitted_ignored}
use cheetah_exchange.Matching.Engine.Force.{
  NoTrade, Nullified, immediate_or_cancel_lem, fill_or_kill_lem, good_till_crossing_buy,
}
use cheetah_exchange.Matching.Engine.Approve.{on_commit_message_approves}
use cheetah_exchange.Matching.Engine.Commit.{commit_all_lem, fresh_logs}
use cheetah_exchange.Matching.Reader.{read_all, BookMessage, waiting}
use cheetah_exchange.Matching.Reader.Deliver.{
  messages, ReadsOn, read_all-Numbered, read_all_resumes,
}
use cheetah_exchange.Tests.Instances.{integers, integers-IsExact, list_map, list_map-IsTreeMap}
use cheetah_exchange.Tests.Books.{
  Queue, a_book, a_book-IsBook, a_product, seller, buyer, buyer-IsValidOrder, old_unseen,
}

abbrev map_laws : IsTreeMap (list_map {K = Key ℤ} {V = ℕ})
map_laws = list_map-IsTreeMap (Key ℤ) ℕ

-- A buyer of five at ten with a time in force.
abbrev forced : TimeInForce → Order ℤ
forced f = record (buyer 20 10 5) { time_in_force = f }

forced-IsValidOrder : (f : TimeInForce) → IsValidOrder (forced f)
forced-IsValidOrder f = record {
  known_side = inl refl;
  known_type = inl refl;
  has_price = λ e. ground arith;
  small_id = omega arith;
}

abbrev three_orders : List (Order ℤ)
three_orders =
    forced immediate_or_cancel ∷ buyer 21 10 5 ∷ record (buyer 21 10 5) { status = cancelling } ∷ []

three-IsValidOrder : All (λ o. IsValidOrder o) three_orders
three-IsValidOrder = (
  forced-IsValidOrder immediate_or_cancel,
  (
    buyer-IsValidOrder 21 10 5 (omega arith) (omega arith),
    (
      record {
        known_side = inl refl;
        known_type = inl refl;
        has_price = λ e. ground arith;
        small_id = omega arith;
      },
      tt,
    ),
  ),
)

apply_orders-IsBook_example :
    (logs : List (Log ℤ)) × (b' : Book ℤ Queue) × (apply_orders a_book three_orders
      ≡ some (logs, b'))
    × IsBook map_laws b'
    × Numbered 0 logs
    × (b'.log_seq ≡ last_seq 0 logs)
apply_orders-IsBook_example =
    apply_orders-IsBook integers-IsExact map_laws a_book a_book-IsBook three_orders
      three-IsValidOrder

cancel_order_lem_example :
    (logs : List (Log ℤ)) × (b' : Book ℤ Queue) × (cancel_order a_book (buyer 20 10 5)
      ≡ some (logs, b'))
    × Handled integers-IsExact map_laws a_book logs b'
    × Gone integers-IsExact map_laws b' buy 20
    × CancelLogs integers-IsExact map_laws a_book (buyer 20 10 5) logs
cancel_order_lem_example =
    cancel_order_lem integers-IsExact map_laws a_book a_book-IsBook (buyer 20 10 5) (omega arith)
      (inl refl)

immediate_or_cancel_lem_example :
    (logs : List (Log ℤ)) × (b' : Book ℤ Queue) × (apply_or_cancel a_book
        (forced immediate_or_cancel)
      ≡ some (logs, b'))
    × IsBook map_laws b'
    × Gone integers-IsExact map_laws b' buy 20
immediate_or_cancel_lem_example =
    immediate_or_cancel_lem integers-IsExact map_laws a_book a_book-IsBook
      (forced immediate_or_cancel) (forced-IsValidOrder immediate_or_cancel) (λ e. cc e) refl

fill_or_kill_lem_example :
    ((trades : List (Log ℤ)) × (last : Log ℤ) × (b' : Book ℤ Queue) × (apply_or_cancel a_book
          (forced fill_or_kill)
        ≡ some (trades ++ last ∷ [], b'))
      × (traded trades +ℤ remaining last ≡ pos 5)
      × (is_positive (remaining last) ≡ false))
    ⊎ Nullified integers-IsExact map_laws a_book a_book-IsBook
        (forced fill_or_kill)
        (forced-IsValidOrder fill_or_kill)
        (λ e. cc e)
fill_or_kill_lem_example =
    fill_or_kill_lem integers-IsExact map_laws a_book a_book-IsBook (forced fill_or_kill)
      (forced-IsValidOrder fill_or_kill) (λ e. cc e) refl refl (old_unseen 20 (omega arith))

good_till_crossing_buy_example :
    (logs : List (Log ℤ)) × (b' : Book ℤ Queue) × (apply_or_cancel a_book
        (forced good_till_crossing)
      ≡ some (logs, b'))
    × All NoTrade logs
good_till_crossing_buy_example =
    good_till_crossing_buy integers-IsExact map_laws a_book a_book-IsBook
      (forced good_till_crossing) (forced-IsValidOrder good_till_crossing) (λ e. cc e) refl refl
      (old_unseen 20 (omega arith))

abbrev numbered_log : ℕ → Log ℤ
numbered_log seq = open_log (new_open_log seq 1 (seller 5 10 3))

abbrev a_committer : Committer ℤ
a_committer = record { seq = 1; pending = none; logs = [] }

commit_all_lem_example :
    (stored : List (Log ℤ)) × (c' : Committer ℤ) × (commit_all a_committer (
        log_message (numbered_log 1) 2
        ∷ log_message (numbered_log 2) 1
        ∷ log_message (numbered_log 3) 0
        ∷ [])
      ≡ some (stored, c'))
    × (stored ++ c'.logs ≡ fresh_logs 1 (numbered_log 1 ∷ numbered_log 2 ∷ numbered_log 3 ∷ []))
commit_all_lem_example = commit_all_lem a_committer (
    log_message (numbered_log 1) 2
    ∷ log_message (numbered_log 2) 1
    ∷ log_message (numbered_log 3) 0
    ∷ [])

-- A topic with an old log, a repeated one, and a gap.
abbrev gapped : List (BookMessage ℤ)
gapped =
    messages
      (numbered_log 1 ∷ numbered_log 2 ∷ numbered_log 2 ∷ numbered_log 3 ∷ numbered_log 5 ∷ [])

read_all-Numbered_example : ReadsOn 1 (read_all 1 gapped)
unfolding read_all
read_all-Numbered_example =
    read_all-Numbered 1 gapped (omega arith, omega arith)
      (
        (omega arith, omega arith),
        (
          (omega arith, omega arith),
          (
            (omega arith, omega arith),
            ((omega arith, omega arith), ((omega arith, omega arith), tt)),
          ),
        ),
      )

read_all_resumes_example :
    read_all 2 (messages (numbered_log 1 ∷ numbered_log 2 ∷ numbered_log 3 ∷ []))
    ≡ (numbered_log 3 ∷ [], 3, waiting)
read_all_resumes_example =
    read_all_resumes 0 (numbered_log 1 ∷ numbered_log 2 ∷ []) (numbered_log 3 ∷ []) (omega arith)
      (refl, (refl, tt)) (refl, tt) ((omega arith, omega arith), ((omega arith, omega arith), tt))
      ((omega arith, omega arith), tt)

-- The buyer of five, and one more order behind it.
bought : Sound integers-IsExact map_laws a_book (apply_or_cancel a_book (buyer 20 10 5))
bought =
    dispatch-Sound integers-IsExact map_laws a_book a_book-IsBook (buyer 20 10 5)
      (buyer-IsValidOrder 20 10 5 (omega arith) (omega arith))

between-IsValidOrder : All (λ o. IsValidOrder o) (buyer 21 10 5 ∷ [])
between-IsValidOrder = (buyer-IsValidOrder 21 10 5 (omega arith) (omega arith), tt)

between : Sound integers-IsExact map_laws bought.1 (apply_orders bought.1 (buyer 21 10 5 ∷ []))
between =
    apply_orders-IsBook integers-IsExact map_laws bought.1 bought.3 (buyer 21 10 5 ∷ [])
      between-IsValidOrder

resubmitted_ignored_example : apply_or_cancel between.1 (buyer 20 10 5) ≡ some ([], between.1)
resubmitted_ignored_example =
    resubmitted_ignored integers-IsExact map_laws a_book bought.1 between.1 (buyer 20 10 5)
      (buyer 21 10 5 ∷ []) bought.0 between.0 a_book-IsBook
      (buyer-IsValidOrder 20 10 5 (omega arith) (omega arith)) between-IsValidOrder refl refl
      bought.2 between.2

abbrev ascending : IsOrder {K = Key ℤ} compare_asc
ascending = compare_asc-IsOrder integers-IsExact

-- The sellers of the book, as its queue lists them.
abbrev Asks : Type 0
Asks =
    (os : List (BookOrder ℤ)) × Listed a_book.asks (list_map.entries a_book.asks.queue) os
    × InOrder map_laws compare_asc ascending os
    × All (λ a. lookup a.order_id a_book.asks.orders ≡ some a) os

asks : Asks
asks = queue_orders map_laws compare_asc ascending a_book.asks (a_book-IsBook.asks_ok).is_depth

match_all-walk_example :
    Refines integers-IsExact map_laws compare_asc ascending a_product
      (start_run a_book (taker_of (buyer 20 10 5)))
      (list_map.entries a_book.asks.queue)
      asks.0
unfolding prepare add_order
match_all-walk_example =
    match_all-walk integers-IsExact map_laws compare_asc ascending a_product
      (start_run a_book (taker_of (buyer 20 10 5))) asks.0 (a_book-IsBook.asks_ok).is_depth asks.1

abbrev a_snapshot : Snapshot ℤ
a_snapshot = record {
  book = record { orders = []; trade_seq = 0; log_seq = 2; order_id_windows = [] };
  order_offset = 4;
}

abbrev waiting_committer : Committer ℤ
waiting_committer = record { seq = 1; pending = some a_snapshot; logs = [] }

on_commit_message_approves_example :
    (r : Committed ℤ) × (on_commit_message waiting_committer (log_message (numbered_log 2) 0)
      ≡ some r)
    × ((s : Snapshot ℤ) → r.approved ≡ some s → seq_le s.book.log_seq (r.committer).seq ≡ true)
on_commit_message_approves_example =
    on_commit_message_approves waiting_committer (log_message (numbered_log 2) 0)

a_book-IsUncrossed : IsUncrossed a_book
unfolding lookup new_depth
a_book-IsUncrossed i j o p bid ask = cc

apply_orders-IsUncrossed_example :
    (logs : List (Log ℤ)) × (b' : Book ℤ Queue) × (apply_orders a_book three_orders
      ≡ some (logs, b'))
    × IsBook map_laws b'
    × IsUncrossed b'
apply_orders-IsUncrossed_example =
    apply_orders-IsUncrossed integers-IsExact map_laws a_book a_book-IsBook a_book-IsUncrossed
      three_orders three-IsValidOrder

restore-snapshot_example :
    IsPictureOf a_book (snapshot a_book)
    × ((b' : Book ℤ Queue) × (restore (new_order_book a_product) (snapshot a_book) ≡ some b')
        × IsBook map_laws b'
        × IsCopyOf a_book b')
restore-snapshot_example =
    restore-snapshot integers-IsExact map_laws a_book a_product (snapshot a_book) a_book-IsBook
      (snapshot-IsPictureOf integers-IsExact map_laws a_book a_book-IsBook)
