-- ===== src/Settle/Release.antt =====
-- The hold of an order over the fills of `ExecuteFill` in service/order_service.go.
use cheetah_exchange.Prelude.{
  ℕ, ◌≡◌, ◌≢◌, refl, sym, ap, subst, ◌∙◌, Bool, true, false, ◌||◌, List, [], ◌∷◌, ◌++◌, arith, ◌⊎◌,
  inl, inr, if◌then◌else◌, ◌==◌, ==_refl, ≢→==, Bool-cases, Option-cases,
}
use cheetah_exchange.Extern.Decimal.{Decimal, IsExact, is_positive, nought_add, sub_add_both}
use cheetah_exchange.Models.{Bill, Fill, Order, OrderStatus, Product, Side, buy, sell, other_side}
use cheetah_exchange.Settle.{
  Result, done, error, fatal, bind, FillError, invalid_liquidity, after_fill, fee_ratio, fee_base,
  fee_bill, trade_bills, rest_bills, unfreeze, end_status, settle_trade, settle_done, settle_fills,
}
use cheetah_exchange.Settle.Place.{hold_currency}

module _ {D : Type 0} ⦃d : Decimal D⦄ where
  -- What the bills add to the holds in one currency.
  abbrev pub held_by : ℕ → List (Bill D) → D
  held_by c [] = d.nought
  held_by c (b ∷ bs) =
      let rest = held_by c bs in if b.currency == c then d.add b.hold rest else rest

  -- What is on hold for an order: the funds of a buyer that are not spent, the size of a seller
  -- that is not filled.
  abbrev pub on_hold : Side → Order D → D
  on_hold buy o = d.sub o.funds o.executed_value
  on_hold _ o = d.sub o.size o.filled_size

  -- One of the fills ends the order.
  abbrev pub any_done : List (Fill D) → Bool
  any_done [] = false
  any_done (f ∷ fs) = f.done || any_done fs

  -- What should still be on hold: nothing of a positive rest once the order has ended.
  abbrev pub still_held : Bool → D → D
  still_held ended rest = if ended then (if is_positive rest then d.nought else rest) else rest

module _ {D : Type 0} ⦃d : Decimal D⦄ (x : IsExact D) (p : Product D)
    (apart : p.base_currency ≢ p.quote_currency) where
  held_by-append :
      (c : ℕ) (bs cs : List (Bill D)) → held_by c (bs ++ cs) ≡ d.add (held_by c bs) (held_by c cs)
  held_by-append c [] cs = sym (nought_add x (held_by c cs))
  held_by-append c (b ∷ bs) cs =
      ground (arith, held_by-append c bs cs, x.add_assoc b.hold (held_by c bs) (held_by c cs))

  base_not_quote : (p.base_currency == p.quote_currency) ≡ false
  base_not_quote = ≢→== p.base_currency p.quote_currency apart

  quote_not_base : (p.quote_currency == p.base_currency) ≡ false
  quote_not_base = ≢→== p.quote_currency p.base_currency (λ e. apart (sym e))

  fee_holds : (c e : ℕ) (fee : D) (n : ℕ × ℕ) → held_by e (fee_bill c fee n) ≡ d.nought
  fee_holds c e fee n = ground (arith, x.add_nought d.nought)

  -- How much of the hold a trade uses up.
  abbrev used : Side → Fill D → D
  used buy f = d.mul f.size f.price
  used _ f = f.size

  trade_holds :
      (s : Side) (o : Order D) (f : Fill D) (fee : D)
      → held_by (hold_currency s p) (trade_bills s p o f fee) ≡ d.neg (used s f)
  trade_holds buy o f fee =
      rw
        (base_not_quote, ==_refl p.quote_currency, fee_holds p.base_currency p.quote_currency fee _)
        (x.add_nought (d.neg (d.mul f.size f.price)))
  trade_holds sell o f fee =
      rw (quote_not_base, ==_refl p.base_currency, fee_holds p.quote_currency p.base_currency fee _)
        (x.add_nought (d.neg f.size))
  trade_holds other_side o f fee =
      rw (quote_not_base, ==_refl p.base_currency, fee_holds p.quote_currency p.base_currency fee _)
        (x.add_nought (d.neg f.size))

  unfreeze_holds :
      (c user : ℕ) (rest : D) (n : ℕ × ℕ)
      → d.add rest (held_by c (unfreeze user c rest n)) ≡ still_held true rest
  unfreeze_holds c user rest n = elim (Bool-cases (is_positive rest)) [
    | inl some_rest ↦ rw (some_rest, ==_refl c, x.add_nought (d.neg rest)) (x.add_neg rest)
    | inr no_rest ↦ rw (no_rest) (x.add_nought rest)
  ]

  rest_holds :
      (s : Side) (o : Order D) (f : Fill D)
      → d.add (on_hold s o) (held_by (hold_currency s p) (rest_bills s p o f))
        ≡ still_held true (on_hold s o)
  rest_holds buy o f = unfreeze_holds p.quote_currency o.user_id (d.sub o.funds o.executed_value) _
  rest_holds sell o f = unfreeze_holds p.base_currency o.user_id (d.sub o.size o.filled_size) _
  rest_holds other_side o f =
      unfreeze_holds p.base_currency o.user_id (d.sub o.size o.filled_size) _

  abbrev traded_order : Order D → Fill D → D → Order D
  traded_order o f fee = record o {
    executed_value = d.add o.executed_value (d.mul f.size f.price);
    filled_size = d.add o.filled_size f.size;
    fill_fees = d.add o.fill_fees fee;
  }

  trade_on_hold :
      (s : Side) (o : Order D) (f : Fill D) (fee : D)
      → d.add (on_hold s o) (held_by (hold_currency s p) (trade_bills s p o f fee))
        ≡ on_hold s (traded_order o f fee)
  trade_on_hold s o f fee = ap (d.add (on_hold s o)) (trade_holds s o f fee) ∙ go s
    where
      go : (s : Side) → d.add (on_hold s o) (d.neg (used s f)) ≡ on_hold s (traded_order o f fee)
      go buy = sub_add_both x o.funds o.executed_value (d.mul f.size f.price)
      go sell = sub_add_both x o.size o.filled_size f.size
      go other_side = sub_add_both x o.size o.filled_size f.size

  abbrev Keeps : Order D → Order D → List (Fill D) → List (Bill D) → Type 0
  Keeps o o' fs bills =
      d.add (on_hold o.side o) (held_by (hold_currency o.side p) bills)
      ≡ still_held (any_done fs) (on_hold o.side o')

  abbrev Settled : Type 0
  Settled = Order D × List (Fill D) × List (Bill D)

  -- How a trade is settled, if it is.
  settle_trade_cases :
      (o : Order D) (f : Fill D)
      → (settle_trade p o f ≡ error invalid_liquidity)
        ⊎ ((fee : D) × (f' : Fill D) × (settle_trade p o f
              ≡ done (traded_order o f fee, f', trade_bills o.side p o f fee)))
  unfolding settle_trade
  settle_trade_cases o f = elim (Option-cases (fee_ratio f.liquidity o)) [
    | inl no_ratio ↦ inl (rw (settle_trade, no_ratio))
    | inr (ratio, e) ↦ inr (
      d.mul (fee_base o.side f) ratio,
      record f { settled = true; fee = d.mul (fee_base o.side f) ratio },
      rw (settle_trade, e),
    )
  ]

  settle_done_cases :
      (o : Order D) (f : Fill D)
      → (settle_done p o f ≡ fatal)
        ⊎ ((status : OrderStatus) × (f' : Fill D) × (settle_done p o f
              ≡ done (record o { status = status }, f', rest_bills o.side p o f)))
  unfolding settle_done
  settle_done_cases o f = elim (Option-cases (end_status f.done_reason o)) [
    | inl unknown ↦ inl (rw (settle_done, unknown))
    | inr (status, e) ↦ inr (status, record f { settled = true }, rw (settle_done, e))
  ]

  done_inj : {A : Type 0} {a b : A} → ◌≡◌ {A = Result FillError A} (done a) (done b) → a ≡ b
  done_inj {a = a} e = ap (λ r. elim r [ done z ↦ z | error _ ↦ a | fatal ↦ a ]) e

  not_done : {a : Settled} → ◌≢◌ {A = Result FillError Settled} fatal (done a)
  not_done e = cc

  not_done_error :
      {q : FillError} {a : Settled} → ◌≢◌ {A = Result FillError Settled} (error q) (done a)
  not_done_error e = cc

  with_status :
      (s : Side) (o : Order D) (status : OrderStatus)
      → on_hold s (record o { status = status }) ≡ on_hold s o
  with_status buy o status = refl
  with_status sell o status = refl
  with_status other_side o status = refl

  abbrev when_done : Order D → Fill D → List (Fill D) → Result FillError Settled
  when_done o f fs = bind (settle_done p o f) (λ z. done (z.0, z.1 ∷ fs, z.2))

  abbrev when_traded : Order D → Fill D → List (Fill D) → Result FillError Settled
  when_traded o f fs = bind (settle_trade p o f) (λ z. after_fill z.1 z.2 (settle_fills p z.0 fs))

  opened :
      (o : Order D) (f : Fill D) (fs : List (Fill D)) (is_done : Bool)
      → f.done ≡ is_done
      → settle_fills p o (f ∷ fs) ≡ (if is_done then when_done o f fs else when_traded o f fs)
  unfolding settle_fills
  opened o f fs is_done e = ap (λ b. if b then when_done o f fs else when_traded o f fs) e

  ends :
      (o o' : Order D) (f f' : Fill D) (fs fs' : List (Fill D)) (bills : List (Bill D))
      (status : OrderStatus)
      → f.done ≡ true
      → ◌≡◌ {A = Settled}
          (record o { status = status }, f' ∷ fs, rest_bills o.side p o f)
          (o', fs', bills)
      → Keeps o o' (f ∷ fs) bills
  ends o o' f f' fs fs' bills status over same = rw over (
      subst
        (λ (z : Settled).
          d.add (on_hold o.side o) (held_by (hold_currency o.side p) z.2)
          ≡ still_held true (on_hold o.side z.0))
        same (rest_holds o.side o f ∙ sym (ap (still_held true) (with_status o.side o status))))

  goes_on :
      (o o' o2 : Order D) (f f' : Fill D) (fs fs' fs2 : List (Fill D))
      (bills bills2 : List (Bill D)) (fee : D)
      → f.done ≡ false
      → Keeps (traded_order o f fee) o2 fs bills2
      → ◌≡◌ {A = Settled} (o2, f' ∷ fs2, trade_bills o.side p o f fee ++ bills2) (o', fs', bills)
      → Keeps o o' (f ∷ fs) bills
  goes_on o o' o2 f f' fs fs' fs2 bills bills2 fee more later same = rw more (
      subst
        (λ (z : Settled).
          d.add (on_hold o.side o) (held_by (hold_currency o.side p) z.2)
          ≡ still_held (any_done fs) (on_hold o.side z.0))
        same
        (ap (d.add (on_hold o.side o))
            (held_by-append (hold_currency o.side p) (trade_bills o.side p o f fee) bills2)
          ∙ (sym (
                x.add_assoc (on_hold o.side o)
                  (held_by (hold_currency o.side p) (trade_bills o.side p o f fee))
                  (held_by (hold_currency o.side p) bills2))
              ∙ (ap (λ (z : D). d.add z (held_by (hold_currency o.side p) bills2))
                    (trade_on_hold o.side o f fee)
                  ∙ later))))

  later :
      (o o' : Order D) (f f' : Fill D) (fs fs' : List (Fill D)) (bills : List (Bill D)) (fee : D)
      → f.done ≡ false
      → (r : Result FillError Settled)
      → ((o2 : Order D) (fs2 : List (Fill D)) (bills2 : List (Bill D))
          → r ≡ done (o2, fs2, bills2)
          → Keeps (traded_order o f fee) o2 fs bills2)
      → after_fill f' (trade_bills o.side p o f fee) r ≡ done (o', fs', bills)
      → Keeps o o' (f ∷ fs) bills
  later o o' f f' fs fs' bills fee more (done (o2, fs2, bills2)) on e =
      goes_on o o' o2 f f' fs fs' fs2 bills bills2 fee more (on o2 fs2 bills2 refl) (done_inj e)
  later o o' f f' fs fs' bills fee more (error q) on e = cc
  later o o' f f' fs fs' bills fee more fatal on e = cc

  -- When the fills of an order are settled, the bills change its hold by exactly what its trades
  -- use up, and release the rest when the order ends: what was on hold for the order before, and the
  -- bills, come to what is on hold after, or to nothing if the order has ended with a rest.
  pub settle_fills_release :
      (o o' : Order D) (fs fs' : List (Fill D)) (bills : List (Bill D))
      → settle_fills p o fs ≡ done (o', fs', bills)
      → d.add (on_hold o.side o) (held_by (hold_currency o.side p) bills)
        ≡ still_held (any_done fs) (on_hold o.side o')
  unfolding settle_fills
  settle_fills_release o o' [] fs' bills e =
      subst
        (λ (z : Settled).
          d.add (on_hold o.side o) (held_by (hold_currency o.side p) z.2) ≡ on_hold o.side z.0)
        (done_inj e) (x.add_nought (on_hold o.side o))
  settle_fills_release o o' (f ∷ fs) fs' bills e = elim (Bool-cases f.done) [
    | inl over ↦ elim (settle_done_cases o f) [
      | inl q ↦ absurd (
          not_done (
            sym (opened o f fs true over ∙ ap (λ r. bind r (λ z. done (z.0, z.1 ∷ fs, z.2))) q)
            ∙ e))
      | inr (status, f', q) ↦ ends o o' f f' fs fs' bills status over (
          done_inj (
            sym (opened o f fs true over ∙ ap (λ r. bind r (λ z. done (z.0, z.1 ∷ fs, z.2))) q)
            ∙ e))
    ]
    | inr more ↦ elim (settle_trade_cases o f) [
      | inl q ↦ absurd (
          not_done_error (
            sym (
              opened o f fs false more
              ∙ ap (λ r. bind r (λ z. after_fill z.1 z.2 (settle_fills p z.0 fs))) q)
            ∙ e))
      | inr (fee, f', q) ↦
          later o o' f f' fs fs' bills fee more (settle_fills p (traded_order o f fee) fs)
            (λ o2 fs2 bills2. settle_fills_release (traded_order o f fee) o2 fs fs2 bills2)
            (sym (
                opened o f fs false more
                ∙ ap (λ r. bind r (λ z. after_fill z.1 z.2 (settle_fills p z.0 fs))) q)
              ∙ e)
    ]
  ]
