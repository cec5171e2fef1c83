-- ===== src/Settle.antt =====
-- service/account_service.go and service/order_service.go on the rows that one transaction reads.
-- Every call of the store is taken to succeed: when one fails, the transaction is rolled back and
-- nothing changes. Ids that the database gives to new rows, and the types of bills, are left out.
use cheetah_exchange.Prelude.{
  ℕ, Bool, true, false, not, ◌&&◌, ◌||◌, Option, none, some, List, [], ◌∷◌, ◌++◌, map,
  if◌then◌else◌, ◌==◌,
}
use cheetah_exchange.Extern.Decimal.{
  Decimal, is_zero, is_positive, less_than, less_than_or_equal, greater_than_or_equal,
}
use cheetah_exchange.Models.{
  Account, Bill, Fill, Order, Product, FeeRate, Side, buy, sell, OrderType, limit, market,
  TimeInForce, OrderStatus, new, filled, cancelled, partial, DoneReason, reason_cancelled,
  reason_filled, Liquidity, taker, maker, other_liquidity,
}
pub mod Balance
pub mod Bills
pub mod Trade
pub mod Release
pub mod Place
pub mod Accept

-- The outcome of a service: a result, an error that rolls the transaction back, or a crash.
pub data Result (E A : Type 0) : Type 0 where
  done : A → Result E A
  error : E → Result E A
  fatal : Result E A

module _ {E A : Type 0} where
  abbrev pub bind : {B : Type 0} → Result E A → (A → Result E B) → Result E B
  bind (done a) f = f a
  bind (error e) f = error e
  bind fatal f = fatal

pub data HoldError : Type 0 where
  not_positive no_account not_enough : HoldError

module _ {D : Type 0} ⦃d : Decimal D⦄ where
  abbrev pub new_bill : ℕ → ℕ → D → D → Bool → ℕ × ℕ → Bill D
  new_bill user currency available hold settled notes = record {
    id = 0;
    user_id = user;
    currency = currency;
    available = available;
    hold = hold;
    settled = settled;
    notes = notes;
  }

  -- `HoldBalance`, on the account that it locks.
  unfoldable pub hold_balance :
      Option (Account D) → ℕ → ℕ → D → Result HoldError (Account D × Bill D)
  hold_balance account user currency size =
      if less_than_or_equal size d.nought then error not_positive else elim account [
        | none ↦ error no_account
        | some a ↦
            if not (greater_than_or_equal a.available size)
            then error not_enough
            else done (
              record a { available = d.sub a.available size; hold = d.add a.hold size },
              new_bill user currency (d.neg size) size true (0, 0),
            )
      ]

  -- `HasEnoughBalance`
  unfoldable pub has_enough_balance : Option (Account D) → D → Bool
  has_enough_balance none size = false
  has_enough_balance (some a) size = greater_than_or_equal a.available size

  abbrev pub available_sum : List (Bill D) → D
  available_sum [] = d.nought
  available_sum (b ∷ bs) = d.add b.available (available_sum bs)

  abbrev pub hold_sum : List (Bill D) → D
  hold_sum [] = d.nought
  hold_sum (b ∷ bs) = d.add b.hold (hold_sum bs)

  -- The account that `ExecuteBill` makes for a user that has none in the currency.
  abbrev pub or_new_account : Option (Account D) → ℕ → ℕ → Account D
  or_new_account none user currency = record {
    user_id = user;
    currency = currency;
    hold = d.nought;
    available = d.nought;
  }
  or_new_account (some a) user currency = a

  -- `ExecuteBill`, on the account and the unsettled bills that it finds for one user and currency, which
  -- gives the account and the bills to be written. Without bills
  -- the transaction is not committed, so that no account is made either.
  unfoldable pub execute_bill :
      Option (Account D) → ℕ → ℕ → List (Bill D) → Option (Account D) × List (Bill D)
  execute_bill account user currency [] = (account, [])
  execute_bill account user currency (b ∷ bs) =
      let a = or_new_account account user currency in
      (
        some (record a {
          available = d.add a.available (available_sum (b ∷ bs));
          hold = d.add a.hold (hold_sum (b ∷ bs));
        }),
        map (λ (z : Bill D). record z { settled = true }) (b ∷ bs),
      )

pub data FillError : Type 0 where
  order_not_found order_status_invalid product_not_found invalid_liquidity : FillError

-- The states in which an order takes no more fills.
abbrev pub is_final : OrderStatus → Bool
is_final filled = true
is_final cancelled = true
is_final partial = true
is_final _ = false

module _ {D : Type 0} ⦃d : Decimal D⦄ where
  -- The fee ratio for a liquidity; any other text than "T" and "M" is an error.
  abbrev pub fee_ratio : Liquidity → Order D → Option D
  fee_ratio taker o = some o.taker_fee_ratio
  fee_ratio maker o = some o.maker_fee_ratio
  fee_ratio other_liquidity o = none

  -- `fmt.Sprintf("%v-%v", fill.OrderId, fill.Id)`
  abbrev pub notes_of : Fill D → ℕ × ℕ
  notes_of f = (f.order_id, f.id)

  abbrev pub delay_bill : ℕ → ℕ → D → D → ℕ × ℕ → Bill D
  delay_bill user currency available hold notes = new_bill user currency available hold false notes

  -- The bill of the fee, for the user 0, if there is a fee.
  abbrev pub fee_bill : ℕ → D → ℕ × ℕ → List (Bill D)
  fee_bill currency fee notes =
      if is_positive fee then delay_bill 0 currency fee d.nought notes ∷ [] else []

  -- The bills of a trade of a buyer: base in, quote out of the hold.
  abbrev pub bought_bills : Product D → Order D → Fill D → D → List (Bill D)
  bought_bills p o f fee =
      delay_bill o.user_id p.base_currency (d.sub f.size fee) d.nought (notes_of f)
      ∷ delay_bill o.user_id p.quote_currency d.nought (d.neg (d.mul f.size f.price)) (notes_of f)
      ∷ fee_bill p.base_currency fee (notes_of f)

  -- The bills of a trade of a seller: base out of the hold, quote in.
  abbrev pub sold_bills : Product D → Order D → Fill D → D → List (Bill D)
  sold_bills p o f fee =
      delay_bill o.user_id p.base_currency d.nought (d.neg f.size) (notes_of f)
      ∷ delay_bill o.user_id p.quote_currency (d.sub (d.mul f.size f.price) fee) d.nought
          (notes_of f)
      ∷ fee_bill p.quote_currency fee (notes_of f)

  abbrev pub trade_bills : Side → Product D → Order D → Fill D → D → List (Bill D)
  trade_bills buy = bought_bills
  trade_bills _ = sold_bills

  -- What the fee is a share of: the base that a buyer gets, the quote that a seller gets.
  abbrev pub fee_base : Side → Fill D → D
  fee_base buy f = f.size
  fee_base _ f = d.mul f.size f.price

  -- One fill that is a trade.
  unfoldable pub settle_trade :
      Product D → Order D → Fill D → Result FillError (Order D × Fill D × List (Bill D))
  settle_trade p o f = elim (fee_ratio f.liquidity o) [
    | none ↦ error invalid_liquidity
    | some ratio ↦
        let fee = d.mul (fee_base o.side f) ratio in
        done (
          record o {
            executed_value = d.add o.executed_value (d.mul f.size f.price);
            filled_size = d.add o.filled_size f.size;
            fill_fees = d.add o.fill_fees fee;
          },
          record f { settled = true; fee = fee },
          trade_bills o.side p o f fee,
        )
  ]

  -- How an order ends; `log.Fatalf` for an unknown reason.
  abbrev pub end_status : DoneReason → Order D → Option OrderStatus
  end_status reason_cancelled o = some (if is_zero o.filled_size then cancelled else partial)
  end_status reason_filled o = some filled
  end_status _ o = none

  abbrev pub unfreeze : ℕ → ℕ → D → ℕ × ℕ → List (Bill D)
  unfreeze user currency rest notes =
      if is_positive rest then delay_bill user currency rest (d.neg rest) notes ∷ [] else []

  -- What is left of the hold goes back.
  abbrev pub rest_bills : Side → Product D → Order D → Fill D → List (Bill D)
  rest_bills buy p o f =
      unfreeze o.user_id p.quote_currency (d.sub o.funds o.executed_value) (notes_of f)
  rest_bills _ p o f = unfreeze o.user_id p.base_currency (d.sub o.size o.filled_size) (notes_of f)

  -- The fill that ends the order.
  unfoldable pub settle_done :
      Product D → Order D → Fill D → Result FillError (Order D × Fill D × List (Bill D))
  settle_done p o f = elim (end_status f.done_reason o) [
    | none ↦ fatal
    | some status ↦
        done (record o { status = status }, record f { settled = true }, rest_bills o.side p o f)
  ]

  abbrev pub after_fill :
      Fill D
      → List (Bill D)
      → Result FillError (Order D × List (Fill D) × List (Bill D))
      → Result FillError (Order D × List (Fill D) × List (Bill D))
  after_fill f bills r = bind r (λ z. done (z.0, f ∷ z.1, bills ++ z.2))

  -- The loop over the unsettled fills: it stops behind the fill that ends the order, and the fills
  -- after that one stay as they are.
  unfoldable pub settle_fills :
      Product D
      → Order D
      → List (Fill D)
      → Result FillError (Order D × List (Fill D) × List (Bill D))
  unfolding settle_trade settle_done
  settle_fills p o [] = done (o, [], [])
  settle_fills p o (f ∷ fs) =
      if f.done
      then bind (settle_done p o f) (λ z. done (z.0, z.1 ∷ fs, z.2))
      else bind (settle_trade p o f) (λ z. after_fill z.1 z.2 (settle_fills p z.0 fs))

  -- `ExecuteFill`, on the order, its product and its unsettled fills. Without fills nothing happens.
  unfoldable pub execute_fill :
      Option (Order D)
      → Option (Product D)
      → List (Fill D)
      → Result FillError (Order D × List (Fill D) × List (Bill D))
  unfolding settle_fills
  execute_fill none product fills = error order_not_found
  execute_fill (some o) product fills =
      if is_final o.status
      then error order_status_invalid
      else elim product [ none ↦ error product_not_found | some p ↦ settle_fills p o fills ]
