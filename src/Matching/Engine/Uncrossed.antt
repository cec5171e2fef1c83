-- ===== src/Matching/Engine/Uncrossed.antt =====
-- matching/engine.go never leaves a crossed book behind an order: trading, resting, cancelling and
-- refusing keep every bid below every ask.
use cheetah_exchange.Prelude.{
  ℕ, ◌≡◌, refl, sym, ap, subst, ◌∙◌, Bool, true, false, Option, none, some, List, [], ◌∷◌, ◌++◌,
  arith, inl, inr, All, Bool-cases, Option-cases, some_inj,
}
use cheetah_exchange.Extern.Decimal.{Decimal, IsExact}
use cheetah_exchange.Extern.TreeMap.{TreeMap, IsTreeMap}
use cheetah_exchange.Models.{
  Order, TimeInForce, good_till_canceled, immediate_or_cancel, good_till_crossing, fill_or_kill,
  other_force,
}
use cheetah_exchange.Matching.Log.{Log}
use cheetah_exchange.Matching.Depth.{Key}
use cheetah_exchange.Matching.Book.{Book}
use cheetah_exchange.Matching.Book.Invariant.{IsBook}
use cheetah_exchange.Matching.Apply.{
  apply_order, cancel_order, is_order_will_not_match, is_order_will_full_match,
}
use cheetah_exchange.Matching.Apply.Admit.{AreWindows}
use cheetah_exchange.Matching.Apply.Submit.{
  IsValidOrder, taker_of, apply_order_lem, noted, noted-IsBook, side_is,
}
use cheetah_exchange.Matching.Apply.Uncrossed.{IsUncrossed, execute-IsUncrossed}
use cheetah_exchange.Matching.Engine.{
  apply_if, cancel_rest, apply_by_force, is_cancelling, apply_or_cancel, apply_orders,
}
use cheetah_exchange.Matching.Engine.Dispatch.{dispatch-Sound}
use cheetah_exchange.Matching.Engine.Fewer.{
  Fewer-IsUncrossed, cancel_order-Fewer, nullify_order-Fewer,
}

module _ {D Q : Type 0} ⦃d : Decimal D⦄ ⦃t : TreeMap (Key D) ℕ Q⦄ (x : IsExact D)
    (m : IsTreeMap t) where
  apply_order-IsUncrossed :
      (b b' : Book D Q) (o : Order D) (logs : List (Log D))
      → IsBook m b
      → IsValidOrder o
      → IsUncrossed b
      → apply_order b o ≡ some (logs, b')
      → IsUncrossed b'
  apply_order-IsUncrossed b b' o logs v ok u e = elim (apply_order_lem x m b v o ok) [
    | inl (seen, ignored) ↦
        subst IsUncrossed (ap (λ (z : List (Log D) × Book D Q). z.1) (some_inj (sym ignored ∙ e))) u
    | inr (fresh, (ws, seen, keeps, r, applied)) ↦
        subst IsUncrossed (ap (λ (z : List (Log D) × Book D Q). z.1) (some_inj (sym applied ∙ e))) (
          execute-IsUncrossed x m (noted b ws)
            (noted-IsBook m b v ws (subst AreWindows r.same_windows (r.is_book).are_windows) keeps)
            (taker_of o) r (side_is x m b v o ok) u)
  ]

  -- A handler that ends without a crash on this book ends in one that is uncrossed.
  abbrev Keeps : Option (List (Log D) × Book D Q) → Type 0
  Keeps r = (logs : List (Log D)) (b' : Book D Q) → r ≡ some (logs, b') → IsUncrossed b'

  cancel-Keeps : (b : Book D Q) (o : Order D) → IsUncrossed b → Keeps (cancel_order b o)
  cancel-Keeps b o u logs b' e = Fewer-IsUncrossed b b' (cancel_order-Fewer b b' o logs e) u

  checked-Keeps :
      (c : Option Bool) (b : Book D Q) (o : Order D)
      → IsBook m b
      → IsValidOrder o
      → IsUncrossed b
      → Keeps (apply_if c b o)
  checked-Keeps none b o v ok u logs b' e = cc
  checked-Keeps (some true) b o v ok u logs b' e = apply_order-IsUncrossed b b' o logs v ok u e
  checked-Keeps (some false) b o v ok u logs b' e =
      Fewer-IsUncrossed b b' (nullify_order-Fewer b b' o logs e) u

  cancel_rest-Keeps :
      (r : Option (List (Log D) × Book D Q)) (o : Order D) → Keeps r → Keeps (cancel_rest r o)
  cancel_rest-Keeps none o k logs b' e = cc
  cancel_rest-Keeps (some (first, b1)) o k logs b' e = elim (Option-cases (cancel_order b1 o)) [
    | inl crashed ↦ absurd (ground (arith, e, crashed))
    | inr ((more, b2), cancels) ↦
        cancel-Keeps b1 o (k first b1 refl) more b' (ground (arith, e, cancels))
  ]

  force-Keeps :
      (f : TimeInForce) (b : Book D Q) (o : Order D)
      → IsBook m b
      → IsValidOrder o
      → IsUncrossed b
      → Keeps (apply_by_force f b o)
  unfolding apply_by_force
  force-Keeps immediate_or_cancel b o v ok u =
      cancel_rest-Keeps (apply_order b o) o
        (λ logs b' e. apply_order-IsUncrossed b b' o logs v ok u e)
  force-Keeps good_till_crossing b o v ok u = checked-Keeps (is_order_will_not_match b o) b o v ok u
  force-Keeps fill_or_kill b o v ok u = checked-Keeps (is_order_will_full_match b o) b o v ok u
  force-Keeps good_till_canceled b o v ok u =
      λ logs b' e. apply_order-IsUncrossed b b' o logs v ok u e
  force-Keeps other_force b o v ok u =
      λ logs b' e. subst IsUncrossed (ap (λ (z : List (Log D) × Book D Q). z.1) (some_inj e)) u

  dispatch-Keeps :
      (b : Book D Q) (o : Order D)
      → IsBook m b
      → IsValidOrder o
      → IsUncrossed b
      → Keeps (apply_or_cancel b o)
  unfolding apply_or_cancel
  dispatch-Keeps b o v ok u = elim (Bool-cases (is_cancelling o.status)) [
    | inl c ↦ rw (c, apply_or_cancel) (cancel-Keeps b o u)
    | inr c ↦ rw (c, apply_or_cancel) (force-Keeps o.time_in_force b o v ok u)
  ]

  -- The book never stays crossed: whatever valid orders and cancellations the applier handles, with
  -- whatever times in force, on a well-formed book in which every bid is below every ask, it ends
  -- without a crash in a well-formed book in which every bid is below every ask.
  pub apply_orders-IsUncrossed :
      (b : Book D Q)
      → IsBook m b
      → IsUncrossed b
      → (os : List (Order D)) → All (λ o. IsValidOrder o) os
      → (logs : List (Log D)) × (b' : Book D Q) × (apply_orders b os ≡ some (logs, b'))
        × IsBook m b'
        × IsUncrossed b'
  unfolding apply_orders
  apply_orders-IsUncrossed b v u [] h = ([], b, refl, v, u)
  apply_orders-IsUncrossed b v u (o ∷ os) h =
      let (logs, b1, e, v1, _, _) = dispatch-Sound x m b v o h.0 in
      let (more, b', rest, v', u') =
        apply_orders-IsUncrossed b1 v1 (dispatch-Keeps b o v h.0 u logs b1 e) os h.1 in
      (logs ++ more, b', rw (apply_orders, e, rest) refl, v', u')
