-- ===== src/Matching/Engine/Dispatch.antt =====
-- The applier of matching/engine.go never crashes on valid orders, whatever their time in force.
use cheetah_exchange.Prelude.{
  ℕ, ◌≡◌, refl, sym, ap, subst, ◌∙◌, Bool, true, false, Option, some, List, [], ◌∷◌, ◌++◌, inl, inr,
  Bool-cases, All,
}
use cheetah_exchange.Extern.Decimal.{Decimal, IsExact}
use cheetah_exchange.Extern.TreeMap.{TreeMap, IsTreeMap}
use cheetah_exchange.Models.{
  Order, TimeInForce, good_till_canceled, immediate_or_cancel, good_till_crossing, fill_or_kill,
  other_force,
}
use cheetah_exchange.Matching.Log.{Log}
use cheetah_exchange.Matching.Log.Sequence.{Numbered, last_seq, Numbered-append, last_seq-append}
use cheetah_exchange.Matching.Depth.{Key}
use cheetah_exchange.Matching.Book.{Book}
use cheetah_exchange.Matching.Book.Invariant.{IsBook}
use cheetah_exchange.Matching.Apply.{
  apply_order, cancel_order, nullify_order, is_order_will_not_match, is_order_will_full_match,
  prepend,
}
use cheetah_exchange.Matching.Apply.Submit.{IsValidOrder, taker_measure}
use cheetah_exchange.Matching.Apply.Outcome.{apply_order-IsBook}
use cheetah_exchange.Matching.Apply.Cancel.{cancel_order_lem, nullify_order_lem}
use cheetah_exchange.Matching.Apply.Check.{not_match_total, full_match_total}
use cheetah_exchange.Matching.Engine.{
  apply_if, cancel_rest, apply_by_force, is_cancelling, apply_or_cancel, apply_orders,
}

module _ {D Q : Type 0} ⦃d : Decimal D⦄ ⦃t : TreeMap (Key D) ℕ Q⦄ (x : IsExact D)
    (m : IsTreeMap t) where
  -- A handler ends without a crash on this book: in a well-formed book, behind logs numbered
  -- without a gap from the book's sequence to that of the new book.
  abbrev pub Sound : Book D Q → Option (List (Log D) × Book D Q) → Type 0
  Sound b r =
      (logs : List (Log D)) × (b' : Book D Q) × (r ≡ some (logs, b'))
      × IsBook m b'
      × Numbered b.log_seq logs
      × (b'.log_seq ≡ last_seq b.log_seq logs)

  prepend-Sound :
      (b b' : Book D Q) (logs : List (Log D)) (r : Option (List (Log D) × Book D Q))
      → Numbered b.log_seq logs
      → b'.log_seq ≡ last_seq b.log_seq logs
      → Sound b' r
      → Sound b (prepend logs r)
  prepend-Sound b b' logs r numbered reached (logs', b'', e, ok, n, q) = (
    logs ++ logs',
    b'',
    rw e,
    ok,
    Numbered-append b.log_seq logs logs' numbered (subst (λ (s : ℕ). Numbered s logs') reached n),
    q ∙ (ap (λ (s : ℕ). last_seq s logs') reached ∙ sym (last_seq-append b.log_seq logs logs')),
  )

  module _ (b : Book D Q) (v : IsBook m b) (o : Order D) (ok : IsValidOrder o) where
    apply-Sound : Sound b (apply_order b o)
    apply-Sound = apply_order-IsBook x m b v o ok

    nullify-Sound : Sound b (nullify_order b o)
    nullify-Sound =
        let (b', e, h, _, _) = nullify_order_lem x m b v o ok.small_id in
        (_, b', e, h.is_book, h.numbered, h.reached)

    checked-Sound : (c : Option Bool) → (r : Bool) × (c ≡ some r) → Sound b (apply_if c b o)
    checked-Sound c (true, e) =
        subst (λ (z : Option Bool). Sound b (apply_if z b o)) (sym e) apply-Sound
    checked-Sound c (false, e) =
        subst (λ (z : Option Bool). Sound b (apply_if z b o)) (sym e) nullify-Sound

  cancel-Sound :
      (b : Book D Q) → IsBook m b → (o : Order D) → IsValidOrder o → Sound b (cancel_order b o)
  cancel-Sound b v o ok =
      let (logs, b', e, h, gone, _) = cancel_order_lem x m b v o ok.small_id ok.known_side in
      (logs, b', e, h.is_book, h.numbered, h.reached)

  cancel_rest-Sound :
      (b : Book D Q) (r : Option (List (Log D) × Book D Q)) (o : Order D)
      → IsValidOrder o
      → Sound b r
      → Sound b (cancel_rest r o)
  cancel_rest-Sound b r o ok (logs, b', e, v, n, q) =
      subst (λ (z : Option (List (Log D) × Book D Q)). Sound b (cancel_rest z o)) (sym e)
        (prepend-Sound b b' logs (cancel_order b' o) n q (cancel-Sound b' v o ok))

  force-Sound :
      (f : TimeInForce) (b : Book D Q)
      → IsBook m b
      → (o : Order D) → IsValidOrder o
      → Sound b (apply_by_force f b o)
  unfolding apply_by_force
  force-Sound immediate_or_cancel b v o ok =
      cancel_rest-Sound b (apply_order b o) o ok (apply-Sound b v o ok)
  force-Sound good_till_crossing b v o ok =
      checked-Sound b v o ok (is_order_will_not_match b o) (not_match_total x m b v o ok.known_side)
  force-Sound fill_or_kill b v o ok =
      checked-Sound b v o ok (is_order_will_full_match b o)
        (full_match_total x m b v o (taker_measure o ok) ok.known_side)
  force-Sound good_till_canceled b v o ok = apply-Sound b v o ok
  force-Sound other_force b v o ok = ([], b, refl, v, tt, refl)

  pub dispatch-Sound :
      (b : Book D Q) → IsBook m b → (o : Order D) → IsValidOrder o → Sound b (apply_or_cancel b o)
  unfolding apply_or_cancel
  dispatch-Sound b v o ok = elim (Bool-cases (is_cancelling o.status)) [
    | inl c ↦ rw (c, apply_or_cancel) (cancel-Sound b v o ok)
    | inr c ↦ rw (c, apply_or_cancel) (force-Sound o.time_in_force b v o ok)
  ]

  -- The applier handles any list of valid orders, cancellations among them, without a crash: the
  -- book stays well formed, and all logs together are numbered without a gap.
  pub apply_orders-IsBook :
      (b : Book D Q)
      → IsBook m b
      → (os : List (Order D)) → All (λ o. IsValidOrder o) os
      → (logs : List (Log D)) × (b' : Book D Q) × (apply_orders b os ≡ some (logs, b'))
        × IsBook m b'
        × Numbered b.log_seq logs
        × (b'.log_seq ≡ last_seq b.log_seq logs)
  unfolding apply_orders
  apply_orders-IsBook b v [] h = ([], b, refl, v, tt, refl)
  apply_orders-IsBook b v (o ∷ os) h =
      let (logs, b', e, v', n, q) = dispatch-Sound b v o h.0 in
      let rest = apply_orders-IsBook b' v' os h.1 in
      let all = prepend-Sound b b' logs (apply_orders b' os) n q rest in
      (all.0, all.1, rw (apply_orders, e) all.2, all.3, all.4, all.5)
