-- ===== src/Lib.antt =====
-- The matching engine and the settlement of CheetahExchange, a spot exchange in Go.
--
-- Parts and files:
--  * Prelude (and below): shared names, Boolean tests, lists by position, Go maps with integer keys
--    as association lists, integers.
--  * Extern: what other packages give. Extern.Decimal is github.com/shopspring/decimal, as a type of
--    values (up to Equal) with operations; `IsExact` holds the laws that theorems rely on: exact
--    addition and subtraction, a total order that addition respects, positive products. Extern.TreeMap
--    is github.com/emirpasic/gods/maps/treemap; `IsTreeMap` says that its listing is sorted by its
--    comparator. Definitions take the operations as instance arguments, theorems take the laws.
--  * Models: models/models.go and models/const.go. A Go string type is a data type with its declared
--    constants and one value for every other text.
--  * Matching.Window: matching/window.go, the bitmap and the sliding window of order ids.
--  * Matching.Log: matching/log.go.
--  * Matching.Depth, Book, Match, Apply: matching/order_book.go. `depth` is Depth (`add` is add_order,
--    `decrSize` is decr_size); `orderBook` is Book; the loop of `ApplyOrder` is match_all in Match, and
--    that of `IsOrderWillFullMatch` is count_all; Apply has `ApplyOrder`, `CancelOrder`,
--    `NullifyOrder`, `IsOrderWillNotMatch` and `IsOrderWillFullMatch`, and Apply.Recover `Snapshot` and
--    `Restore`. The result `none` is a run-time panic or log.Fatal.
--  * Matching.Walk: a specification of the loop on the plain list of the makers, which the loop refines.
--  * Matching.Engine: matching/engine.go. `runApplier` is on_order (an order, by apply_or_cancel) and
--    on_snapshot_request; apply_orders is a run over many orders. `runCommitter` is on_log and
--    on_approve_request, and commit_all a run over many messages. `NewEngine` recovers by
--    restore_engine.
--  * Matching.Reader: the loop of matching/kafka_log_reader.go, as read_all: what it has handed to the
--    observer, its last sequence, and whether it waits or has crashed.
--  * Settle: service/account_service.go (hold_balance, execute_bill) and service/order_service.go
--    (execute_fill; place_order in Settle.Place) on the rows that one transaction reads. Settle.Bills has
--    `ExecuteBill` on the whole table of bills, with the statements of models/mysql/bill_store.go.
--  * Pushing: PriceBook is pushing/order_book.go with the handling of a log in
--    pushing/order_book_stream.go (`saveOrder` is save_order, `SnapshotFull` snapshot_full, `Restore`
--    restore_price_book); Subscription is pushing/subscription.go. Client is the requests of a
--    connection in pushing/client.go (`onSub` is on_sub, `subscribe` join, `unsubscribe` leave), with
--    the texts of pushing/message.go as name_text and the numbers by which the hub tells them apart as
--    a parameter; and Changes its `runL2ChangeWriter`, as write_changes, whose step on one message is handle_change.
--  * Workers: Makers is worker/fill_maker.go and worker/trade_maker.go; Ticks is worker/tick_maker.go
--    and `mergeTicks` of pushing/ticker_stream.go. Executors is worker/fill_executor.go and
--    worker/bill_executor.go: a queue is the list of what is sent into its channel, and work_all is the
--    loop of a worker. The cache of github.com/hashicorp/golang-lru is a parameter that may forget.
--  * Stores: models/mysql/order_store.go, over tables of orders that the database keeps; what a table
--    promises is `IsOrderTable`.
--  * Rest: the handlers of rest/order_controller.go. `PlaceOrder` is place, `CancelOrder` cancel, and
--    Rest.Lists has `GetOrders` and `CancelOrders`. They use the models of the service and the store;
--    the orders that go to `submitOrder` are part of the outcome.
--  * Tests: concrete books and orders; integers stand in for decimals and sorted lists for treemaps.
--
-- Numbers: uint64 values of the window wrap at 2 ^ 64, and int64 sequence numbers are bit patterns
-- that wrap there too. Loops recur on the list that they walk or on the rounds that are left, so no
-- fuel is needed. Counters of the services and of the pushed book are naturals.
--
-- Assumed of the treemap's iterator: the loop of `ApplyOrder` removes from the queue the entry that
-- the iterator stands on and no other, and the iterator then goes on to the next entry.
--
-- Assumed of the channels: a send waits until there is room, so that a queue is what was sent into it;
-- two goroutines that wait for each other's channel are not modelled.
--
-- Not modelled: times of day, log output, the SQL and the network code behind the stores, the handlers
-- of other routes than orders, which read rows and print them, the WebSocket protocol, and the binlog
-- and Redis streams, which forward rows.
pub mod Prelude
pub mod Extern
pub mod Models
pub mod Matching
pub mod Stores
pub mod Rest
pub mod Tests
pub mod Settle
pub mod Pushing
pub mod Workers
