-- ===== src/Matching/Engine/Again.antt =====
-- An order that reaches the applier of matching/engine.go a second time, at any later time.
use cheetah_exchange.Prelude.{
  ℕ, ◌≡◌, refl, sym, ap, subst, ◌∙◌, Bool, true, false, Option, none, some, List, [], ◌∷◌, ◌++◌,
  inl, inr, Bool-cases, Option-cases, All, some_inj, arith,
}
use cheetah_exchange.Extern.Decimal.{Decimal, IsExact}
use cheetah_exchange.Extern.TreeMap.{TreeMap, IsTreeMap}
use cheetah_exchange.Models.{
  Order, TimeInForce, good_till_canceled, immediate_or_cancel, good_till_crossing, fill_or_kill,
  other_force,
}
use cheetah_exchange.Matching.Window.{Window}
use cheetah_exchange.Matching.Log.{Log}
use cheetah_exchange.Matching.Depth.{Key}
use cheetah_exchange.Matching.Book.{Book}
use cheetah_exchange.Matching.Book.Invariant.{IsBook}
use cheetah_exchange.Matching.Apply.{
  apply_order, cancel_order, nullify_order, is_order_will_not_match, is_order_will_full_match,
  prepend,
}
use cheetah_exchange.Matching.Apply.Admit.{SeenIn}
use cheetah_exchange.Matching.Apply.Submit.{IsValidOrder, apply_order_lem}
use cheetah_exchange.Matching.Apply.Outcome.{apply_order-IsBook}
use cheetah_exchange.Matching.Apply.Cancel.{cancel_order_lem, nullify_order_lem}
use cheetah_exchange.Matching.Engine.{
  apply_if, cancel_rest, apply_by_force, is_cancelling, apply_or_cancel, apply_orders,
}
use cheetah_exchange.Matching.Engine.Dispatch.{dispatch-Sound}

module _ {D Q : Type 0} ⦃d : Decimal D⦄ ⦃t : TreeMap (Key D) ℕ Q⦄ (x : IsExact D)
    (m : IsTreeMap t) where
  abbrev Step : Type 0
  Step = List (Log D) × Book D Q

  -- No id that was seen before is forgotten.
  abbrev KeepsIds : Book D Q → Option Step → Type 0
  KeepsIds b r =
      (logs : List (Log D)) (b' : Book D Q) (y : ℕ)
      → r ≡ some (logs, b')
      → SeenIn b.order_id_windows y
      → SeenIn b'.order_id_windows y

  ends_in :
      (b b1 : Book D Q) (logs : List (Log D)) (r : Option Step)
      → r ≡ some (logs, b1)
      → ((y : ℕ) → SeenIn b.order_id_windows y → SeenIn b1.order_id_windows y)
      → KeepsIds b r
  ends_in b b1 logs r q keeps logs' b' y e seen =
      subst (λ (z : Book D Q). SeenIn z.order_id_windows y)
        (ap (λ (z : Step). z.1) (some_inj (sym q ∙ e))) (keeps y seen)

  module _ (b : Book D Q) (v : IsBook m b) (o : Order D) (ok : IsValidOrder o) where
    apply-KeepsIds : KeepsIds b (apply_order b o)
    apply-KeepsIds = elim (apply_order_lem x m b v o ok) [
      | inl (_, q) ↦ ends_in b b [] (apply_order b o) q (λ y s. s)
      | inr (_, (ws, _, keeps, r, q)) ↦
          ends_in b r.book _ (apply_order b o) q
            (λ y s. subst (λ (w : List Window). SeenIn w y) (sym r.same_windows) (keeps y s))
    ]

    nullify-KeepsIds : KeepsIds b (nullify_order b o)
    nullify-KeepsIds =
        let (b', e, h, _, _) = nullify_order_lem x m b v o ok.small_id in
        ends_in b b' _ (nullify_order b o) e h.keeps

    cancel-KeepsIds : KeepsIds b (cancel_order b o)
    cancel-KeepsIds =
        let (logs, b', e, h, _, _) = cancel_order_lem x m b v o ok.small_id ok.known_side in
        ends_in b b' logs (cancel_order b o) e h.keeps

    checked-KeepsIds : (c : Option Bool) → KeepsIds b (apply_if c b o)
    checked-KeepsIds none = λ logs b' y e s. absurd cc
    checked-KeepsIds (some true) = apply-KeepsIds
    checked-KeepsIds (some false) = nullify-KeepsIds

    -- The order has been seen once it was applied.
    applied-SeenIn :
        (logs : List (Log D)) (b' : Book D Q)
        → apply_order b o ≡ some (logs, b')
        → SeenIn b'.order_id_windows o.id
    applied-SeenIn logs b' e = elim (apply_order_lem x m b v o ok) [
      | inl (seen, q) ↦
          subst (λ (z : Book D Q). SeenIn z.order_id_windows o.id)
            (ap (λ (z : Step). z.1) (some_inj (sym q ∙ e))) seen
      | inr (_, (ws, seen, keeps, r, q)) ↦
          subst (λ (z : Book D Q). SeenIn z.order_id_windows o.id)
            (ap (λ (z : Step). z.1) (some_inj (sym q ∙ e)))
            (subst (λ (w : List Window). SeenIn w o.id) (sym r.same_windows) seen)
    ]

    seen_ignored : SeenIn b.order_id_windows o.id → apply_order b o ≡ some ([], b)
    seen_ignored seen = elim (apply_order_lem x m b v o ok) [
      | inl (_, q) ↦ q
      | inr (fresh, _) ↦ absurd (fresh seen)
    ]

    rest-KeepsIds : KeepsIds b (cancel_rest (apply_order b o) o)
    rest-KeepsIds logs b' y e s =
        let (logs1, b1, q, v1, _, _) = apply_order-IsBook x m b v o ok in
        let (logs2, b2, c, h, _, _) = cancel_order_lem x m b1 v1 o ok.small_id ok.known_side in
        ends_in b b2 (logs1 ++ logs2) (cancel_rest (apply_order b o) o)
          (rw (q, cancel_rest, c, prepend) refl)
          (λ z seen. h.keeps z (apply-KeepsIds logs1 b1 z q seen)) logs b' y e s

    force-KeepsIds : (f : TimeInForce) → KeepsIds b (apply_by_force f b o)
    unfolding apply_by_force
    force-KeepsIds good_till_canceled = apply-KeepsIds
    force-KeepsIds immediate_or_cancel = rest-KeepsIds
    force-KeepsIds good_till_crossing = checked-KeepsIds (is_order_will_not_match b o)
    force-KeepsIds fill_or_kill = checked-KeepsIds (is_order_will_full_match b o)
    force-KeepsIds other_force = ends_in b b [] (some ([], b)) refl (λ y s. s)

    dispatch-KeepsIds : KeepsIds b (apply_or_cancel b o)
    unfolding apply_or_cancel
    dispatch-KeepsIds = elim (Bool-cases (is_cancelling o.status)) [
      | inl c ↦ rw (c, apply_or_cancel) cancel-KeepsIds
      | inr c ↦ rw (c, apply_or_cancel) (force-KeepsIds o.time_in_force)
    ]

    -- A good-till-canceled order that is no cancellation is just applied.
    dispatch-applies :
        is_cancelling o.status ≡ false
        → o.time_in_force ≡ good_till_canceled
        → apply_or_cancel b o ≡ apply_order b o
    unfolding apply_or_cancel apply_by_force
    dispatch-applies going force = rw (apply_or_cancel, going, force) refl

  run-SeenIn :
      (y : ℕ) (os : List (Order D)) (b b' : Book D Q) (logs : List (Log D))
      → IsBook m b
      → All (λ o. IsValidOrder o) os
      → apply_orders b os ≡ some (logs, b')
      → SeenIn b.order_id_windows y
      → SeenIn b'.order_id_windows y × IsBook m b'
  unfolding apply_orders
  run-SeenIn y [] b b' logs v h e seen =
      subst (λ (z : Book D Q). SeenIn z.order_id_windows y × IsBook m z)
        (ap (λ (z : Step). z.1) (some_inj e)) (seen, v)
  run-SeenIn y (o ∷ os) b b' logs v h e seen =
      let (logs1, b1, q, v1, _, _) = dispatch-Sound x m b v o h.0 in
      elim (Option-cases (apply_orders b1 os)) [
        | inl crash ↦ absurd (ground (arith, e, q, crash))
        | inr ((more, b2), rest) ↦
            let there = dispatch-KeepsIds b v o h.0 logs1 b1 y q seen in
            let run = run-SeenIn y os b1 b2 more v1 h.1 rest there in
            let ends : apply_orders b (o ∷ os) ≡ some (logs1 ++ more, b2) =
              rw (apply_orders, q, rest, prepend) refl in
            subst (λ (z : Book D Q). SeenIn z.order_id_windows y × IsBook m z)
              (ap (λ (z : Step). z.1) (some_inj (sym ends ∙ e))) run
      ]

  -- A good-till-canceled order that is submitted a second time is ignored, whatever valid orders
  -- and cancellations the applier has handled in between: no log is written and the book stays as
  -- it is.
  pub resubmitted_ignored :
      (b b1 b' : Book D Q) (o : Order D) (os : List (Order D)) (logs logs' : List (Log D))
      → IsBook m b
      → IsValidOrder o
      → All (λ p. IsValidOrder p) os
      → is_cancelling o.status ≡ false
      → o.time_in_force ≡ good_till_canceled
      → apply_or_cancel b o ≡ some (logs, b1)
      → apply_orders b1 os ≡ some (logs', b')
      → apply_or_cancel b' o ≡ some ([], b')
  resubmitted_ignored b b1 b' o os logs logs' v ok h going force first run =
      let (logs0, b0, q, v0, _, _) = dispatch-Sound x m b v o ok in
      let v1 : IsBook m b1 =
        subst (IsBook m) (ap (λ (z : Step). z.1) (some_inj (sym q ∙ first))) v0 in
      let seen =
        applied-SeenIn b v o ok logs b1 (sym (dispatch-applies b v o ok going force) ∙ first) in
      let (still, v') = run-SeenIn o.id os b1 b' logs' v1 h run seen in
      dispatch-applies b' v' o ok going force ∙ seen_ignored b' v' o ok still
