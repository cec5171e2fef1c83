-- ===== src/Matching/Engine/Fewer.antt =====
-- What cancelling and refusing an order in matching/order_book.go leaves on the book: no order but
-- those of before, at their prices.
use cheetah_exchange.Prelude.{
  ℕ, ◌≡◌, refl, sym, ap, subst, Option, none, some, List, [], ◌∷◌, arith, Ordering, inl, inr,
  Bool-cases, Option-cases, some_inj, ==→≡, ◌==◌,
}
use cheetah_exchange.Prelude.Ids.{lookup, insert, erase, lookup-insert, lookup-erase}
use cheetah_exchange.Extern.Decimal.{Decimal, is_zero, less_than}
use cheetah_exchange.Extern.TreeMap.{TreeMap}
use cheetah_exchange.Models.{Order, Side, buy, sell, other_side, reason_cancelled}
use cheetah_exchange.Matching.Log.{Log, BookOrder, done_log, new_done_log}
use cheetah_exchange.Matching.Depth.{Key, Depth, shrink, decr_size}
use cheetah_exchange.Matching.Book.{Book, depth_of, with_depth, next_seq}
use cheetah_exchange.Matching.Apply.{cancel_noted, cancel_order, nullify_order, note_id}
use cheetah_exchange.Matching.Apply.Submit.{noted}
use cheetah_exchange.Matching.Apply.Uncrossed.{IsUncrossed}

module _ {D Q : Type 0} where
  -- A side with no order but those of another one, at their prices.
  abbrev pub FewerIn : Depth D Q → Depth D Q → Type 0
  FewerIn a a' =
      (i : ℕ) (o : BookOrder D)
      → lookup i a'.orders ≡ some o
      → (o' : BookOrder D) × (lookup i a.orders ≡ some o') × (o.price ≡ o'.price)

  pub record Fewer (b b' : Book D Q) : Type 0 where
    pub bids : FewerIn b.bids b'.bids
    pub asks : FewerIn b.asks b'.asks

  same_side : (a : Depth D Q) → FewerIn a a
  same_side a i o e = (o, e, refl)

module _ {D Q : Type 0} ⦃d : Decimal D⦄ ⦃t : TreeMap (Key D) ℕ Q⦄ where
  pub Fewer-IsUncrossed : (b b' : Book D Q) → Fewer b b' → IsUncrossed b → IsUncrossed b'
  Fewer-IsUncrossed b b' f u i j o p bid ask =
      let (o', old, price) = f.bids i o bid in
      let (p', old', price') = f.asks j p ask in
      subst (λ (z : D). d.cmp z p.price ≡ Ordering.lt) (sym price)
        (subst (λ (z : D). d.cmp o'.price z ≡ Ordering.lt) (sym price') (u i j o' p' old old'))

  decr_size-FewerIn :
      (id : ℕ) (size : D) (a a' : Depth D Q) (o' : BookOrder D)
      → decr_size id size a ≡ some (o', a')
      → FewerIn a a'
  unfolding decr_size shrink
  decr_size-FewerIn id size a a' o' e i o h = elim (Option-cases (lookup id a.orders)) [
    | inl absent ↦ absurd (ground (arith, e, absent))
    | inr (q, found) ↦ elim (Bool-cases (less_than q.size size)) [
      | inl small ↦ absurd (ground (arith, e, found, small))
      | inr fits ↦ elim (Bool-cases (is_zero (d.sub q.size size))) [
        | inl gone ↦
            let left : erase id a.orders ≡ a'.orders = ground (arith, e, found, fits, gone) in
            (o, ground (arith, ap (lookup i) left, h, lookup-erase id i a.orders), refl)
        | inr kept ↦
            let left : insert id (record q { size = d.sub q.size size }) a.orders ≡ a'.orders =
              ground (arith, e, found, fits, kept) in
            let less : BookOrder D = record q { size = d.sub q.size size } in
            elim (Bool-cases (id == i)) [
              | inl same ↦
                  let own : some less ≡ some o =
                    ground (arith, same, h, ap (lookup i) left, lookup-insert id i less a.orders) in
                  (
                    q,
                    subst (λ (k : ℕ). lookup k a.orders ≡ some q) (==→≡ id i same) found,
                    sym (ap (λ (z : BookOrder D). z.price) (some_inj own)),
                  )
              | inr other ↦ (
                o,
                ground (arith, other, h, ap (lookup i) left, lookup-insert id i less a.orders),
                refl,
              )
            ]
      ]
    ]
  ]

  -- `cancel_noted`, by the side of the order.
  abbrev cancelled_at : Side → Book D Q → Order D → Option (List (Log D) × Book D Q)
  cancelled_at side b order = elim (depth_of side b) [
    | none ↦ none
    | some m ↦ elim (lookup order.id m.orders) [
      | none ↦ some ([], b)
      | some o ↦ elim (decr_size order.id o.size m) [
        | none ↦ none
        | some (o', m') ↦
            let seq = next_seq b.log_seq in
            some (
              done_log (new_done_log seq b.product.id o' o.size reason_cancelled) ∷ [],
              record (with_depth side m' b) { log_seq = seq },
            )
      ]
    ]
  ]

  cancelled_at-Fewer :
      (side : Side) (b b' : Book D Q) (order : Order D) (logs : List (Log D))
      → cancelled_at side b order ≡ some (logs, b')
      → Fewer b b'
  cancelled_at-Fewer buy b b' order logs e = elim (Option-cases (lookup order.id b.bids.orders)) [
    | inl missing ↦
        let bids : b.bids ≡ b'.bids = ground (arith, e, missing) in
        let asks : b.asks ≡ b'.asks = ground (arith, e, missing) in
        record {
          bids = subst (FewerIn b.bids) bids (same_side b.bids);
          asks = subst (FewerIn b.asks) asks (same_side b.asks);
        }
    | inr (o, found) ↦ elim (Option-cases (decr_size order.id o.size b.bids)) [
      | inl fails ↦ absurd (ground (arith, e, found, fails))
      | inr ((o', side'), shrunk) ↦
          let bids : side' ≡ b'.bids = ground (arith, e, found, shrunk) in
          let asks : b.asks ≡ b'.asks = ground (arith, e, found, shrunk) in
          record {
            bids =
                subst (FewerIn b.bids) bids
                  (decr_size-FewerIn order.id o.size b.bids side' o' shrunk);
            asks = subst (FewerIn b.asks) asks (same_side b.asks);
          }
    ]
  ]
  cancelled_at-Fewer sell b b' order logs e = elim (Option-cases (lookup order.id b.asks.orders)) [
    | inl missing ↦
        let asks : b.asks ≡ b'.asks = ground (arith, e, missing) in
        let bids : b.bids ≡ b'.bids = ground (arith, e, missing) in
        record {
          asks = subst (FewerIn b.asks) asks (same_side b.asks);
          bids = subst (FewerIn b.bids) bids (same_side b.bids);
        }
    | inr (o, found) ↦ elim (Option-cases (decr_size order.id o.size b.asks)) [
      | inl fails ↦ absurd (ground (arith, e, found, fails))
      | inr ((o', side'), shrunk) ↦
          let asks : side' ≡ b'.asks = ground (arith, e, found, shrunk) in
          let bids : b.bids ≡ b'.bids = ground (arith, e, found, shrunk) in
          record {
            asks =
                subst (FewerIn b.asks) asks
                  (decr_size-FewerIn order.id o.size b.asks side' o' shrunk);
            bids = subst (FewerIn b.bids) bids (same_side b.bids);
          }
    ]
  ]
  cancelled_at-Fewer other_side b b' order logs e = cc

  pub cancel_order-Fewer :
      (b b' : Book D Q) (order : Order D) (logs : List (Log D))
      → cancel_order b order ≡ some (logs, b')
      → Fewer b b'
  unfolding cancel_order cancel_noted
  cancel_order-Fewer b b' order logs e = elim (Option-cases (note_id b.order_id_windows order.id)) [
    | inl absent ↦ absurd (ground (arith, e, absent))
    | inr (ws, noted_id) ↦
        let f =
          cancelled_at-Fewer order.side (noted b ws) b' order logs (ground (arith, e, noted_id)) in
        record { bids = f.bids; asks = f.asks }
  ]

  pub nullify_order-Fewer :
      (b b' : Book D Q) (order : Order D) (logs : List (Log D))
      → nullify_order b order ≡ some (logs, b')
      → Fewer b b'
  unfolding nullify_order
  nullify_order-Fewer b b' order logs e =
      elim (Option-cases (note_id b.order_id_windows order.id)) [
        | inl absent ↦ absurd (ground (arith, e, absent))
        | inr (ws, noted_id) ↦
            let bids : b.bids ≡ b'.bids = ground (arith, e, noted_id) in
            let asks : b.asks ≡ b'.asks = ground (arith, e, noted_id) in
            record {
              bids = subst (FewerIn b.bids) bids (same_side b.bids);
              asks = subst (FewerIn b.asks) asks (same_side b.asks);
            }
      ]
