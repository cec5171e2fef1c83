-- ===== src/Matching/Match.antt =====
-- The loops over the maker's queue in matching/order_book.go: that of `ApplyOrder`, which trades,
-- and that of `IsOrderWillFullMatch`, which only counts.
use cheetah_exchange.Prelude.{ℕ, not, ◌||◌, Option, none, some, List, [], ◌∷◌, ◌++◌, if◌then◌else◌}
use cheetah_exchange.Prelude.Ids.{lookup}
use cheetah_exchange.Extern.Decimal.{Decimal, is_zero}
use cheetah_exchange.Extern.TreeMap.{TreeMap}
use cheetah_exchange.Models.{Product, reason_filled}
use cheetah_exchange.Matching.Log.{Log, BookOrder, done_log, match_log, new_done_log, new_match_log}
use cheetah_exchange.Matching.Depth.{Key, Depth, decr_size}
use cheetah_exchange.Matching.Book.{Trading, next_seq, prices_cross, calc_trade_size, exhausted}

-- What the loop of `ApplyOrder` changes.
pub record Run (D Q : Type 0) : Type 0 where
  pub makers : Depth D Q
  pub taker : BookOrder D
  pub log_seq : ℕ
  pub trade_seq : ℕ
  pub logs : List (Log D)

-- How one round ends: by `break`, by going on, or by a crash.
pub data Turn (S : Type 0) : Type 0 where
  stop : S → Turn S
  more : S → Turn S
  crash : Turn S

module _ {D : Type 0} ⦃d : Decimal D⦄ where
  -- The logs of one match: the trade, and the end of a maker that is filled.
  unfoldable pub match_logs : ℕ → ℕ → ℕ → BookOrder D → BookOrder D → D → List (Log D)
  match_logs product log_seq trade_seq taker maker size =
      let seq = next_seq log_seq in
      match_log (new_match_log seq product (next_seq trade_seq) taker maker maker.price size)
      ∷ (if is_zero maker.size
          then done_log (new_done_log (next_seq seq) product maker maker.size reason_filled) ∷ []
          else [])

  -- The last sequence number of these logs.
  unfoldable pub match_seq : ℕ → BookOrder D → ℕ
  match_seq log_seq maker =
      if is_zero maker.size then next_seq (next_seq log_seq) else next_seq log_seq

  -- One round of `IsOrderWillFullMatch`.
  unfoldable pub count_maker : Product D → BookOrder D → BookOrder D → Turn (BookOrder D)
  count_maker product taker maker =
      if not (prices_cross taker.side taker.price maker.price)
      then stop taker
      else elim (calc_trade_size taker maker product) [
        | none ↦ crash
        | some trading ↦
            if is_zero trading.size || exhausted trading.taker
            then stop trading.taker
            else more trading.taker
      ]

module _ {D Q : Type 0} ⦃d : Decimal D⦄ ⦃t : TreeMap (Key D) ℕ Q⦄ where
  -- The maker has been shrunk to `maker`, and the taker to `taker`.
  unfoldable pub matched : ℕ → Run D Q → BookOrder D → BookOrder D → Depth D Q → D → Run D Q
  unfolding match_logs match_seq
  matched product r taker maker makers size = record {
    makers = makers;
    taker = taker;
    log_seq = match_seq r.log_seq maker;
    trade_seq = next_seq r.trade_seq;
    logs = r.logs ++ match_logs product r.log_seq r.trade_seq taker maker size;
  }

  -- `decrSize` and the logs; the taker's `Size` or `Funds` have been adjusted by `trading`.
  unfoldable pub trade : ℕ → Run D Q → BookOrder D → Trading D → Turn (Run D Q)
  unfolding matched
  trade product r maker trading = elim (decr_size maker.order_id trading.size r.makers) [
    | none ↦ crash
    | some (maker', makers') ↦
        let r' = matched product r trading.taker maker' makers' trading.size in
        if exhausted trading.taker then stop r' else more r'
  ]

  unfoldable pub match_maker : Product D → Run D Q → BookOrder D → Turn (Run D Q)
  unfolding trade
  match_maker product r maker =
      if not (prices_cross r.taker.side r.taker.price maker.price)
      then stop r
      else elim (calc_trade_size r.taker maker product) [
        | none ↦ crash
        | some trading ↦
            if is_zero trading.size
            then stop (record r { taker = trading.taker })
            else trade product.id r maker trading
      ]

  -- One round, at a queue entry with this order id.
  unfoldable pub match_one : Product D → Run D Q → ℕ → Turn (Run D Q)
  unfolding match_maker
  match_one product r id = elim (lookup id r.makers.orders) [
    | none ↦ crash
    | some maker ↦ match_maker product r maker
  ]

  unfoldable pub match_all : Product D → Run D Q → List (Key D × ℕ) → Option (Run D Q)
  unfolding match_one
  match_all product r [] = some r
  match_all product r ((key, id) ∷ entries) = elim (match_one product r id) [
    | stop r' ↦ some r'
    | more r' ↦ match_all product r' entries
    | crash ↦ none
  ]

  unfoldable pub count_one : Product D → Depth D Q → BookOrder D → ℕ → Turn (BookOrder D)
  unfolding count_maker
  count_one product makers taker id = elim (lookup id makers.orders) [
    | none ↦ crash
    | some maker ↦ count_maker product taker maker
  ]

  unfoldable pub count_all :
      Product D → Depth D Q → BookOrder D → List (Key D × ℕ) → Option (BookOrder D)
  unfolding count_one
  count_all product makers taker [] = some taker
  count_all product makers taker ((key, id) ∷ entries) = elim (count_one product makers taker id) [
    | stop taker' ↦ some taker'
    | more taker' ↦ count_all product makers taker' entries
    | crash ↦ none
  ]
