-- ===== src/Settle/Trade.antt =====
-- The bills of a trade in `ExecuteFill` of service/order_service.go: money moves, and none is made.
use cheetah_exchange.Prelude.{
  ℕ, ◌≡◌, ◌≢◌, refl, sym, ◌∙◌, true, false, some, List, [], ◌∷◌, ◌++◌, arith, ◌⊎◌, inl, inr,
  if◌then◌else◌, ◌==◌, ==_refl, ≢→==,
}
use cheetah_exchange.Extern.Decimal.{
  Decimal, IsExact, is_positive, less_than, sub_add, sub_nought, nought_add, share_cases,
}
use cheetah_exchange.Models.{
  Bill, Fill, Order, Product, Side, buy, sell, Liquidity, taker, maker, other_liquidity,
}
use cheetah_exchange.Settle.{
  done, fee_ratio, fee_base, fee_bill, bought_bills, sold_bills, settle_trade,
}

module _ {D : Type 0} ⦃d : Decimal D⦄ where
  -- What the bills add to all accounts together, in one currency.
  abbrev pub net : ℕ → List (Bill D) → D
  net c [] = d.nought
  net c (b ∷ bs) =
      let rest = net c bs in if b.currency == c then d.add (d.add b.available b.hold) rest else rest

  -- A fill as the matching engine makes it, with ratios as `PlaceOrder` checks them.
  pub record IsTradeOf (o : Order D) (f : Fill D) : Type 0 where
    pub known_liquidity : f.liquidity ≢ other_liquidity
    pub sized : is_positive f.size ≡ true
    pub valued : is_positive (d.mul f.size f.price) ≡ true
    pub taker_ratio : less_than o.taker_fee_ratio d.nought ≡ false
    pub maker_ratio : less_than o.maker_fee_ratio d.nought ≡ false

module _ {D : Type 0} ⦃d : Decimal D⦄ (x : IsExact D) (p : Product D)
    (apart : p.base_currency ≢ p.quote_currency) where
  near : (c : ℕ) → (c == c) ≡ true
  near c = ==_refl c

  base_not_quote : (p.base_currency == p.quote_currency) ≡ false
  base_not_quote = ≢→== p.base_currency p.quote_currency apart

  quote_not_base : (p.quote_currency == p.base_currency) ≡ false
  quote_not_base = ≢→== p.quote_currency p.base_currency (λ e. apart (sym e))

  pub net-append : (c : ℕ) (bs cs : List (Bill D)) → net c (bs ++ cs) ≡ d.add (net c bs) (net c cs)
  net-append c [] cs = sym (nought_add x (net c cs))
  net-append c (b ∷ bs) cs =
      ground
        (arith, net-append c bs cs, x.add_assoc (d.add b.available b.hold) (net c bs) (net c cs))

  nought_not_positive : is_positive d.nought ≡ false
  nought_not_positive = ground (arith, x.cmp_self d.nought)

  -- The fee goes to another account, and is not lost.
  with_fee :
      (c user : ℕ) (a fee : D) (n : ℕ × ℕ)
      → (is_positive fee ≡ true) ⊎ (fee ≡ d.nought)
      → d.add (d.add (d.sub a fee) d.nought) (net c (fee_bill c fee n)) ≡ a
  with_fee c user a fee n (inl some_fee) =
      rw (some_fee, near c, x.add_nought (d.sub a fee), x.add_nought fee, x.add_nought fee)
        (sub_add x a fee)
  with_fee c user a fee n (inr no_fee) =
      rw
        (
          no_fee,
          nought_not_positive,
          x.add_nought (d.sub a d.nought),
          x.add_nought (d.sub a d.nought),
        )
        (sub_nought x a)

  other_fee :
      (c e : ℕ) (fee : D) (n : ℕ × ℕ) → (c == e) ≡ false → net e (fee_bill c fee n) ≡ d.nought
  other_fee c e fee n h = ground (arith, h)

  module _ (o : Order D) (f : Fill D) (fee : D)
      (fair : (is_positive fee ≡ true) ⊎ (fee ≡ d.nought)) where
    bought_base : net p.base_currency (bought_bills p o f fee) ≡ f.size
    bought_base =
        rw (near p.base_currency, quote_not_base) (with_fee p.base_currency 0 f.size fee _ fair)

    bought_quote : net p.quote_currency (bought_bills p o f fee) ≡ d.neg (d.mul f.size f.price)
    bought_quote =
        rw
          (
            near p.quote_currency,
            base_not_quote,
            other_fee p.base_currency p.quote_currency fee _ base_not_quote,
            x.add_nought (d.add d.nought (d.neg (d.mul f.size f.price))),
          )
          (nought_add x (d.neg (d.mul f.size f.price)))

    sold_base : net p.base_currency (sold_bills p o f fee) ≡ d.neg f.size
    sold_base =
        rw
          (
            near p.base_currency,
            quote_not_base,
            other_fee p.quote_currency p.base_currency fee _ quote_not_base,
            x.add_nought (d.add d.nought (d.neg f.size)),
          )
          (nought_add x (d.neg f.size))

    sold_quote : net p.quote_currency (sold_bills p o f fee) ≡ d.mul f.size f.price
    sold_quote =
        rw (near p.quote_currency, base_not_quote)
          (with_fee p.quote_currency 0 (d.mul f.size f.price) fee _ fair)

  -- The fee of a fill is a share of a positive amount.
  fee_fair :
      (s : Side) (o : Order D) (f : Fill D)
      → IsTradeOf o f
      → (ratio : D) × (fee_ratio f.liquidity o ≡ some ratio)
        × ((is_positive (d.mul (fee_base s f) ratio) ≡ true)
            ⊎ (d.mul (fee_base s f) ratio ≡ d.nought))
  fee_fair s o f i = go f.liquidity i.known_liquidity
    where
      amount : (s : Side) → is_positive (fee_base s f) ≡ true
      amount buy = i.sized
      amount _ = i.valued

      go :
          (l : Liquidity)
          → l ≢ other_liquidity
          → (ratio : D) × (fee_ratio l o ≡ some ratio)
            × ((is_positive (d.mul (fee_base s f) ratio) ≡ true)
                ⊎ (d.mul (fee_base s f) ratio ≡ d.nought))
      go taker n = (
        o.taker_fee_ratio,
        refl,
        share_cases x (fee_base s f) o.taker_fee_ratio (amount s) i.taker_ratio,
      )
      go maker n = (
        o.maker_fee_ratio,
        refl,
        share_cases x (fee_base s f) o.maker_fee_ratio (amount s) i.maker_ratio,
      )
      go other_liquidity n = absurd (n refl)

  -- Settling the two fills of a trade, the buyer's and the seller's, makes bills that cancel out:
  -- in each currency all accounts together, that of the fees among them, have what they had.
  pub settle_trade_conserves :
      (bid ask : Order D) (bought sold : Fill D)
      → bid.side ≡ buy
      → ask.side ≡ sell
      → IsTradeOf bid bought
      → IsTradeOf ask sold
      → bought.size ≡ sold.size
      → bought.price ≡ sold.price
      → (r : Order D × Fill D × List (Bill D)) × (s : Order D × Fill D × List (Bill D))
        × (settle_trade p bid bought ≡ done r)
        × (settle_trade p ask sold ≡ done s)
        × (net p.base_currency (r.2 ++ s.2) ≡ d.nought)
        × (net p.quote_currency (r.2 ++ s.2) ≡ d.nought)
  unfolding settle_trade
  settle_trade_conserves bid ask bought sold on_bid on_ask i j same_size same_price =
      let (rb, eb, fair_b) = fee_fair buy bid bought i in
      let (rs, es, fair_s) = fee_fair sell ask sold j in
      let fee_b = d.mul bought.size rb in
      let fee_s = d.mul (d.mul sold.size sold.price) rs in
      let same_value : d.mul bought.size bought.price ≡ d.mul sold.size sold.price =
        rw (same_size, same_price) in
      (
        (
          record bid {
            executed_value = d.add bid.executed_value (d.mul bought.size bought.price);
            filled_size = d.add bid.filled_size bought.size;
            fill_fees = d.add bid.fill_fees fee_b;
          },
          record bought { settled = true; fee = fee_b },
          bought_bills p bid bought fee_b,
        ),
        (
          record ask {
            executed_value = d.add ask.executed_value (d.mul sold.size sold.price);
            filled_size = d.add ask.filled_size sold.size;
            fill_fees = d.add ask.fill_fees fee_s;
          },
          record sold { settled = true; fee = fee_s },
          sold_bills p ask sold fee_s,
        ),
        rw (settle_trade, eb, on_bid),
        rw (settle_trade, es, on_ask),
        net-append p.base_currency (bought_bills p bid bought fee_b) (sold_bills p ask sold fee_s)
            ∙ rw (bought_base bid bought fee_b fair_b, sold_base ask sold fee_s fair_s, same_size)
                (x.add_neg sold.size),
        net-append p.quote_currency (bought_bills p bid bought fee_b) (sold_bills p ask sold fee_s)
            ∙ rw
                (bought_quote bid bought fee_b fair_b, sold_quote ask sold fee_s fair_s, same_value)
                (x.add_comm (d.neg (d.mul sold.size sold.price)) (d.mul sold.size sold.price)
                  ∙ x.add_neg (d.mul sold.size sold.price)),
      )
