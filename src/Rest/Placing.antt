-- ===== src/Rest/Placing.antt =====
-- `PlaceOrder` of rest/order_controller.go and the matching engine: what the one submits the other
-- can handle.
use cheetah_exchange.Prelude.{
  ℕ, ◌+◌, ◌<◌, ◌≡◌, ◌≢◌, refl, sym, subst, ◌∙◌, true, false, Option, none, some, [], ◌∷◌, arith,
  ◌⊎◌, inl, inr, not, ◌&&◌, Bool-cases, Option-cases,
}
use cheetah_exchange.Extern.Decimal.{Decimal, IsExact, is_zero, is_positive}
use cheetah_exchange.Models.{Account, Bill, Order, Side, buy, sell, other_side, Product, FeeRate}
use cheetah_exchange.Matching.Window.{u64}
use cheetah_exchange.Matching.Apply.Submit.{IsValidOrder}
use cheetah_exchange.Settle.{Result, done, error, fatal}
use cheetah_exchange.Settle.Place.{PlaceError, place_order}
use cheetah_exchange.Settle.Accept.{place_order_lem}
use cheetah_exchange.Rest.{
  Outcome, one_order, PlaceBody, Backend, side_or_buy, submit_placed, request_of, place,
}
use text.Mathlib.Text.{◌==◌ as str_eq}

sides : (s : Side) → ((s ≡ buy) ⊎ (s ≡ sell)) ⊎ (s ≡ other_side)
sides buy = inl (inl refl)
sides sell = inl (inr refl)
sides other_side = inr refl

module _ {D : Type 0} ⦃d : Decimal D⦄ (x : IsExact D) where
  -- Nothing is submitted, or one order, which the client is shown: the user's own, under the id
  -- that was drawn.
  abbrev pub Submits : ℕ → Backend D → Option PlaceBody → Outcome D → Type 0
  Submits user_id k body r =
      ((r.submitted ≡ []) × ((o : Order D) → r.reply ≢ one_order o))
      ⊎ ((b : PlaceBody) × (o : Order D) × (body ≡ some b)
          × (r ≡ record { reply = one_order o; submitted = o ∷ [] })
          × (o.user_id ≡ user_id)
          × (o.id ≡ k.next_id)
          × ((IsValidOrder o × (o.side ≡ side_or_buy b.side))
              ⊎ ((side_or_buy b.side ≡ other_side) × (o.side ≡ other_side))))

  positive_nonzero : (s : D) → is_positive s ≡ true → is_zero s ≡ false
  positive_nonzero s h = ground arith

  accepted-Submits :
      (user_id : ℕ) (k : Backend D) (b : PlaceBody) (size price funds : D) (p : Option (Product D))
      (rate : Option (FeeRate D)) (r : Result PlaceError (Order D × Account D × Bill D))
      → k.next_id + 1 < u64
      → place_order (request_of user_id k b size price funds) p rate k.accounts ≡ r
      → Submits user_id k (some b) (submit_placed r)
  unfolding place_order
  accepted-Submits user_id k b size price funds p rate (error e) small q = inl (refl, λ o e. cc)
  accepted-Submits user_id k b size price funds p rate fatal small q = inl (refl, λ o e. cc)
  accepted-Submits user_id k b size price funds none rate (done r) small q = absurd (cc)
  accepted-Submits user_id k b size price funds (some p) none (done r) small q = absurd (cc)
  accepted-Submits user_id k b size price funds (some p) (some rate) (done (o, a, bill)) small q =
      let request = request_of user_id k b size price funds in
      let ok = place_order_lem x request p rate k.accounts o a bill q in
      inr (
        b,
        o,
        refl,
        refl,
        (ok.owner).1,
        (ok.owner).2,
        elim (sides (side_or_buy b.side)) [
          | inr other ↦ inr (other, ok.same_side ∙ other)
          | inl known ↦ inl (
            record {
              known_side = subst (λ (s : Side). (s ≡ buy) ⊎ (s ≡ sell)) (sym ok.same_side) known;
              known_type = ok.known_type;
              has_price = λ e. positive_nonzero o.price (ok.priced e);
              small_id = subst (λ (i : ℕ). i + 1 < u64) (sym (ok.owner).2) small;
            },
            ok.same_side,
          )
        ],
      )

  -- Where the id that is drawn leaves room for one more, a request to place an order submits at most
  -- one order to the engine, and does so exactly when it answers with that order: the user's own,
  -- under the id that was drawn. It is on the side that is asked for, and then the matching engine
  -- handles it without a crash; but a text that is no side goes through to the engine as it is.
  pub place-Submits :
      (user_id : ℕ) (k : Backend D) (body : Option PlaceBody)
      → k.next_id + 1 < u64
      → Submits user_id k body (place user_id k body)
  unfolding place
  place-Submits user_id k none small = inl (refl, λ o e. cc)
  place-Submits user_id k (some b) small =
      elim (Bool-cases (not (str_eq b.client_oid "") && not (k.is_uuid b.client_oid))) [
        | inl bad ↦ rw (place, bad) (inl (refl, λ o e. cc))
        | inr good ↦ elim (Option-cases (k.decimal_of b.size)) [
          | inl n ↦ rw (place, good, n) (inl (refl, λ o e. cc))
          | inr (size, es) ↦ elim (Option-cases (k.decimal_of b.price)) [
            | inl n ↦ rw (place, good, es, n) (inl (refl, λ o e. cc))
            | inr (price, ep) ↦ elim (Option-cases (k.decimal_of b.funds)) [
              | inl n ↦ rw (place, good, es, ep, n) (inl (refl, λ o e. cc))
              | inr (funds, ef) ↦
                  rw (place, good, es, ep, ef)
                    (accepted-Submits user_id k b size price funds (k.product_of b.product_id)
                      k.fee_rate _ small refl)
            ]
          ]
        ]
      ]
