-- ===== src/Matching/Walk.antt =====
-- What the loop of `ApplyOrder` in matching/order_book.go should do, on the list of the makers in
-- the order of the queue: a specification with no map, no queue and no logs.
use cheetah_exchange.Prelude.{
  ℕ, ◌≡◌, Bool, true, false, not, Option, none, some, List, [], ◌∷◌, ◌++◌, if◌then◌else◌, ◌==◌, ◌≢◌,
  All,
}
use cheetah_exchange.Prelude.Ids.{lookup}
use cheetah_exchange.Extern.Decimal.{Decimal, is_zero}
use cheetah_exchange.Models.{Product}
use cheetah_exchange.Matching.Log.{Log, BookOrder}
use cheetah_exchange.Matching.Depth.{Key, Depth}
use cheetah_exchange.Matching.Book.{Trading, next_seq, prices_cross, calc_trade_size, exhausted}
use cheetah_exchange.Matching.Match.{match_logs, match_seq}
pub mod Refine
pub mod Queue
pub mod Trades
pub mod Logs
pub mod Priority
pub mod Cover

-- One trade: the taker as it leaves the trade, the maker as it comes to it, and the size.
pub record Fill (D : Type 0) : Type 0 where
  pub taker : BookOrder D
  pub maker : BookOrder D
  pub size : D

module _ {D : Type 0} ⦃d : Decimal D⦄ where
  abbrev pub maker_left : Fill D → BookOrder D
  maker_left f = record (f.maker) { size = d.sub f.maker.size f.size }

  abbrev pub add_fill :
      Fill D → Option (BookOrder D × List (Fill D)) → Option (BookOrder D × List (Fill D))
  add_fill f none = none
  add_fill f (some (taker, fills)) = some (taker, f ∷ fills)

  -- The taker at the end of the loop and the trades; `none` is a crash.
  unfoldable pub walk :
      Product D → BookOrder D → List (BookOrder D) → Option (BookOrder D × List (Fill D))
  walk p taker [] = some (taker, [])
  walk p taker (o ∷ os) =
      if not (prices_cross taker.side taker.price o.price)
      then some (taker, [])
      else elim (calc_trade_size taker o p) [
        | none ↦ none
        | some tr ↦
            let f : Fill D = record { taker = tr.taker; maker = o; size = tr.size } in
            let rest = add_fill f (walk p tr.taker os) in
            if is_zero tr.size
            then some (tr.taker, [])
            else if exhausted tr.taker
            then some (tr.taker, f ∷ [])
            else rest
      ]

  -- The logs that the trades should give, after the given sequence numbers.
  unfoldable pub logs_of : ℕ → ℕ → ℕ → List (Fill D) → List (Log D)
  logs_of product log_seq trade_seq [] = []
  logs_of product log_seq trade_seq (f ∷ fs) =
      match_logs product log_seq trade_seq f.taker (maker_left f) f.size
      ++ logs_of product (match_seq log_seq (maker_left f)) (next_seq trade_seq) fs

  unfoldable pub log_seq_of : ℕ → List (Fill D) → ℕ
  log_seq_of log_seq [] = log_seq
  log_seq_of log_seq (f ∷ fs) = log_seq_of (match_seq log_seq (maker_left f)) fs

  unfoldable pub trade_seq_of : ℕ → List (Fill D) → ℕ
  trade_seq_of trade_seq [] = trade_seq
  trade_seq_of trade_seq (f ∷ fs) = trade_seq_of (next_seq trade_seq) fs

  -- What the maker's side answers for an id after the trades, if it answered `old` before.
  unfoldable pub found_after : List (Fill D) → ℕ → Option (BookOrder D) → Option (BookOrder D)
  found_after [] j old = old
  found_after (f ∷ fs) j old = found_after fs j (
      if f.maker.order_id == j
      then (if is_zero (maker_left f).size then none else some (maker_left f))
      else old)

-- The queue entries stand for these orders of the map, and no two for the same.
pub data Listed {D Q : Type 0} (b : Depth D Q)
    : List (Key D × ℕ) → List (BookOrder D) → Type 0 where
  nobody : Listed b [] []
  next :
      {k : Key D} {id : ℕ} {o : BookOrder D} {es : List (Key D × ℕ)} {os : List (BookOrder D)}
      → lookup id b.orders ≡ some o
      → o.order_id ≡ id
      → All (λ p. p.order_id ≢ o.order_id) os
      → Listed b es os
      → Listed b ((k, id) ∷ es) (o ∷ os)
