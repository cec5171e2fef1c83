-- ===== src/Workers/Settlement.antt =====
-- The fills that worker/fill_maker.go makes of a trade, settled by service/order_service.go.
use cheetah_exchange.Prelude.{
  ℕ, ◌≡◌, ◌≢◌, refl, sym, ◌∙◌, false, List, [], ◌∷◌, ◌++◌, ◌⊎◌, inl, inr, true,
}
use cheetah_exchange.Extern.Decimal.{Decimal, IsExact, is_positive, less_than}
use cheetah_exchange.Models.{Bill, Fill, Order, Product, buy, sell}
use cheetah_exchange.Matching.Log.{MatchLog, match_log}
use cheetah_exchange.Settle.{done, settle_trade}
use cheetah_exchange.Settle.Trade.{net, net-append, IsTradeOf, settle_trade_conserves}
use cheetah_exchange.Workers.Makers.{taker_fill, maker_fill, fills_of_log}

module _ {D : Type 0} ⦃d : Decimal D⦄ where
  -- Fee ratios as `PlaceOrder` lets them through.
  pub record HasRatios (o : Order D) : Type 0 where
    pub taker_ratio : less_than o.taker_fee_ratio d.nought ≡ false
    pub maker_ratio : less_than o.maker_fee_ratio d.nought ≡ false

  module _ (offset : ℕ) (l : MatchLog D) (o : Order D) (sized : is_positive l.size ≡ true)
      (valued : is_positive (d.mul l.size l.price) ≡ true) (h : HasRatios o) where
    taker_is : IsTradeOf o (taker_fill offset l)
    taker_is = record {
      known_liquidity = λ q. cc;
      sized = sized;
      valued = valued;
      taker_ratio = h.taker_ratio;
      maker_ratio = h.maker_ratio;
    }

    maker_is : IsTradeOf o (maker_fill offset l)
    maker_is = record {
      known_liquidity = λ q. cc;
      sized = sized;
      valued = valued;
      taker_ratio = h.taker_ratio;
      maker_ratio = h.maker_ratio;
    }

module _ {D : Type 0} ⦃d : Decimal D⦄ (x : IsExact D) (p : Product D)
    (apart : p.base_currency ≢ p.quote_currency) where
  -- The outcome of settling two fills of two orders: bills that cancel out.
  abbrev pub CancelsOut : Order D → Order D → Fill D → Fill D → Type 0
  CancelsOut o e f g =
      (r : Order D × Fill D × List (Bill D)) × (s : Order D × Fill D × List (Bill D))
      × (settle_trade p o f ≡ done r)
      × (settle_trade p e g ≡ done s)
      × (net p.base_currency (r.2 ++ s.2) ≡ d.nought)
      × (net p.quote_currency (r.2 ++ s.2) ≡ d.nought)

  net_swaps : (c : ℕ) (bs cs : List (Bill D)) → net c (bs ++ cs) ≡ net c (cs ++ bs)
  net_swaps c bs cs =
      net-append x p apart c bs cs
      ∙ (x.add_comm (net c bs) (net c cs) ∙ sym (net-append x p apart c cs bs))

  swapped : (o e : Order D) (f g : Fill D) → CancelsOut o e f g → CancelsOut e o g f
  swapped o e f g (r, s, er, es, base, quote) = (
    s,
    r,
    es,
    er,
    net_swaps p.base_currency s.2 r.2 ∙ base,
    net_swaps p.quote_currency s.2 r.2 ∙ quote,
  )

  -- A trade of the engine makes one fill for its taker and one for its maker, and settling the two
  -- makes bills that cancel out in both currencies, whichever of the two orders is the buyer's.
  pub fills_of_log_conserve :
      (offset : ℕ) (l : MatchLog D) (o e : Order D)
      → is_positive l.size ≡ true
      → is_positive (d.mul l.size l.price) ≡ true
      → HasRatios o
      → HasRatios e
      → ((o.side ≡ buy) × (e.side ≡ sell)) ⊎ ((o.side ≡ sell) × (e.side ≡ buy))
      → (f : Fill D) × (g : Fill D) × (fills_of_log offset (match_log l) ≡ f ∷ g ∷ [])
        × (f.order_id ≡ l.taker_order_id)
        × (g.order_id ≡ l.maker_order_id)
        × CancelsOut o e f g
  unfolding fills_of_log
  fills_of_log_conserve offset l o e sized valued ho he sides =
      (taker_fill offset l, maker_fill offset l, refl, refl, refl, go sides)
    where
      go :
          ((o.side ≡ buy) × (e.side ≡ sell)) ⊎ ((o.side ≡ sell) × (e.side ≡ buy))
          → CancelsOut o e (taker_fill offset l) (maker_fill offset l)
      go (inl (on, at)) =
          settle_trade_conserves x p apart o e (taker_fill offset l) (maker_fill offset l) on at
            (taker_is offset l o sized valued ho) (maker_is offset l e sized valued he) refl refl
      go (inr (on, at)) = swapped e o (maker_fill offset l) (taker_fill offset l) (
          settle_trade_conserves x p apart e o (maker_fill offset l) (taker_fill offset l) at on
            (maker_is offset l e sized valued he) (taker_is offset l o sized valued ho) refl refl)
