-- ===== src/Settle/Accept.antt =====
-- What `PlaceOrder` of service/order_service.go accepts: an order with its funds or size on hold.
use cheetah_exchange.Prelude.{
  ℕ, ◌≡◌, refl, sym, ap, subst, ◌∙◌, true, false, ◌||◌, Option, none, some, arith, ◌⊎◌, inl, inr,
  Bool-cases,
}
use cheetah_exchange.Extern.Decimal.{
  Decimal, IsExact, is_positive, less_than_or_equal, greater_than_or_equal, sub_nought,
}
use cheetah_exchange.Models.{
  Account, Bill, Order, Product, FeeRate, Side, buy, sell, other_side, OrderType, limit, market,
  other_type,
}
use cheetah_exchange.Settle.{Result, done, error, fatal, HoldError, hold_balance}
use cheetah_exchange.Settle.Place.{
  PlaceError, Amounts, Request, bad_ratio, checked_size, limit_amounts, order_amounts,
  hold_currency, hold_size, limit_checked, hold_for, placed, with_amounts, new_order, place_order,
}
use cheetah_exchange.Settle.Release.{on_hold}

done_inj : {E A : Type 0} (a b : A) → ◌≡◌ {A = Result E A} (done a) (done b) → a ≡ b
done_inj a b e = ap (λ r. elim r [ done z ↦ z | error _ ↦ a | fatal ↦ a ]) e

module _ {D : Type 0} ⦃d : Decimal D⦄ where
  hold_balance_takes :
      (account : Option (Account D)) (user currency : ℕ) (size : D) (a : Account D) (bill : Bill D)
      → hold_balance account user currency size ≡ done (a, bill)
      → (bill.hold ≡ size)
        × (less_than_or_equal size d.nought ≡ false)
        × (bill.user_id ≡ user)
        × (bill.currency ≡ currency)
        × ((c : Account D) × (account ≡ some c)
            × (greater_than_or_equal c.available size ≡ true)
            × (a ≡ record c { available = d.sub c.available size; hold = d.add c.hold size }))
  unfolding hold_balance
  hold_balance_takes none user currency size a bill e = absurd (ground (arith, e))
  hold_balance_takes (some c) user currency size a bill e = (
    ground (arith, e),
    ground (arith, e),
    ground (arith, e),
    ground (arith, e),
    (c, refl, ground (arith, e), ground (arith, e)),
  )

  -- Limit orders are accepted at a price, and no order of an unknown type is.
  amounts_priced :
      (y : OrderType) (side : Side) (p : Product D) (size price funds : D) (a : Amounts D)
      → order_amounts y side p size price funds ≡ done a
      → ((y ≡ limit) ⊎ (y ≡ market)) × (y ≡ limit → is_positive a.price ≡ true)
  unfolding order_amounts limit_amounts
  amounts_priced limit side p size price funds a e =
      (inl refl, λ _. at_price (d.round price p.quote_scale) (checked_size p size) e)
    where
      at_price :
          (price' : D) (r : Result PlaceError D)
          → limit_checked p price' r ≡ done a
          → is_positive a.price ≡ true
      at_price price' (done s) e = ground (arith, e)
      at_price price' (error q) e = absurd (cc)
      at_price price' fatal e = absurd (cc)
  amounts_priced market side p size price funds a e = (inr refl, λ q. cc)
  amounts_priced other_type side p size price funds a e = absurd (cc)

  module _ (x : IsExact D) where
    new_on_hold :
        (s : Side) (q : Request D) (p : Product D) (rate : FeeRate D) (a : Amounts D)
        → on_hold s (new_order q p rate a) ≡ hold_size s a
    new_on_hold buy q p rate a = sub_nought x a.funds
    new_on_hold sell q p rate a = sub_nought x a.size
    new_on_hold other_side q p rate a = sub_nought x a.size

    -- What is promised of an order that is accepted, and of the account that it is paid from.
    pub record Accepted (accounts : ℕ → Option (Account D)) (q : Request D) (p : Product D)
        (o : Order D) (a : Account D) (bill : Bill D) : Type 0 where
      pub before : Account D
      pub owned : accounts (hold_currency o.side p) ≡ some before
      pub enough : greater_than_or_equal before.available (on_hold o.side o) ≡ true
      pub taken : a ≡ record before {
        available = d.sub before.available (on_hold o.side o);
        hold = d.add before.hold (on_hold o.side o);
      }
      pub held : bill.hold ≡ on_hold o.side o
      pub some_hold : less_than_or_equal bill.hold d.nought ≡ false
      pub currency : bill.currency ≡ hold_currency o.side p
      pub owner : (bill.user_id ≡ q.user_id) × (o.user_id ≡ q.user_id) × (o.id ≡ q.id)
      pub same_side : o.side ≡ q.side
      pub known_type : (o.order_type ≡ limit) ⊎ (o.order_type ≡ market)
      pub priced : o.order_type ≡ limit → is_positive o.price ≡ true

    accepted :
        (q : Request D) (p : Product D) (rate : FeeRate D) (am : Amounts D)
        (accounts : ℕ → Option (Account D)) (a : Account D) (bill : Bill D)
        → order_amounts q.order_type q.side p q.size q.price q.funds ≡ done am
        → hold_balance
            (accounts (hold_currency q.side p))
            q.user_id
            (hold_currency q.side p)
            (hold_size q.side am)
          ≡ done (a, bill)
        → Accepted accounts q p (new_order q p rate am) a bill
    accepted q p rate am accounts a bill ea eh =
        let (held, some_hold, owner, cur, (c, own, enough, taken)) =
          hold_balance_takes (accounts (hold_currency q.side p)) q.user_id (hold_currency q.side p)
            (hold_size q.side am) a bill eh in
        let (known, priced) = amounts_priced q.order_type q.side p q.size q.price q.funds am ea in
        let same = sym (new_on_hold q.side q p rate am) in
        record {
          before = c;
          owned = own;
          enough = subst (λ (z : D). greater_than_or_equal c.available z ≡ true) same enough;
          taken =
              taken
              ∙ ap (λ (z : D). record c { available = d.sub c.available z; hold = d.add c.hold z })
                  same;
          held = held ∙ sym (new_on_hold q.side q p rate am);
          some_hold = subst (λ (z : D). less_than_or_equal z d.nought ≡ false) (sym held) some_hold;
          currency = cur;
          owner = (owner, refl, refl);
          same_side = refl;
          known_type = known;
          priced = priced;
        }

    module _ (q : Request D) (p : Product D) (rate : FeeRate D) (accounts : ℕ → Option (Account D))
        (o : Order D) (a : Account D) (bill : Bill D) where
      abbrev Placed : Type 0
      Placed = Order D × Account D × Bill D

      from_hold :
          (am : Amounts D) (r : Result HoldError (Account D × Bill D))
          → order_amounts q.order_type q.side p q.size q.price q.funds ≡ done am
          → hold_for q p accounts am ≡ r
          → placed q p rate am r ≡ done (o, a, bill)
          → Accepted accounts q p o a bill
      from_hold am (done (a', bill')) ea eh e =
          subst (λ (z : Placed). Accepted accounts q p z.0 z.1 z.2)
            (done_inj (new_order q p rate am, a', bill') (o, a, bill) e)
            (accepted q p rate am accounts a' bill' ea eh)
      from_hold am (error f) ea eh e = absurd (cc)
      from_hold am fatal ea eh e = absurd (cc)

      from_amounts :
          (r : Result PlaceError (Amounts D))
          → order_amounts q.order_type q.side p q.size q.price q.funds ≡ r
          → with_amounts q p rate accounts r ≡ done (o, a, bill)
          → Accepted accounts q p o a bill
      from_amounts (done am) ea e = from_hold am (hold_for q p accounts am) ea refl e
      from_amounts (error f) ea e = absurd (cc)
      from_amounts fatal ea e = absurd (cc)

      -- An order that `PlaceOrder` accepts is a limit order at a positive price or a market order.
      -- The account of the side's currency has had what the settlement counts on to be on hold for
      -- the order, a positive amount; that is taken from what is available there and added to the
      -- hold, nothing else of the account changes, and the bill records it.
      pub place_order_lem :
          place_order q (some p) (some rate) accounts ≡ done (o, a, bill)
          → Accepted accounts q p o a bill
      unfolding place_order
      place_order_lem e =
          elim (Bool-cases (bad_ratio rate.maker_fee_ratio || bad_ratio rate.taker_fee_ratio)) [
            | inl bad ↦ absurd (ground (arith, e, bad))
            | inr good ↦
                from_amounts (order_amounts q.order_type q.side p q.size q.price q.funds) refl
                  (sym (rw (place_order, good)) ∙ e)
          ]
