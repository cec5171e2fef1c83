-- ===== src/Rest/Cancelling.antt =====
-- Whom `CancelOrder` of rest/order_controller.go lets cancel what.
use Prim.Native.String.{String}
use cheetah_exchange.Prelude.{
  ℕ, ◌≡◌, ◌≢◌, refl, Bool, true, false, Option, none, some, List, [], ◌∷◌, arith, ◌⊎◌, inl, inr,
  ◌==◌, Bool-cases, ==→≡,
}
use cheetah_exchange.Models.{
  Order, OrderStatus, new, open_status, cancelling, cancelled, partial, filled, other_status,
}
use cheetah_exchange.Stores.{OrderTable, Tables}
use cheetah_exchange.Rest.{
  Outcome, ok_empty, named_order, Named, client_order, order_number, no_number, may_cancel,
  cancel_found, look_up, reply_found, cancel_named, cancel,
}

-- The statuses of an order that may still be cancelled.
abbrev pub IsGoing : OrderStatus → Type 0
IsGoing status = (status ≡ new) ⊎ (status ≡ open_status) ⊎ (status ≡ partial)

may_cancel-IsGoing : (status : OrderStatus) → may_cancel status ≡ true → IsGoing status
may_cancel-IsGoing new e = inl refl
may_cancel-IsGoing open_status e = inr (inl refl)
may_cancel-IsGoing partial e = inr (inr refl)
may_cancel-IsGoing cancelling e = cc
may_cancel-IsGoing cancelled e = cc
may_cancel-IsGoing filled e = cc
may_cancel-IsGoing other_status e = cc

shut_lem :
    (status : OrderStatus)
    → may_cancel status ≡ false
    → (status ≢ new) × (status ≢ open_status) × (status ≢ partial)
shut_lem status e =
    ((λ q. ground (arith, q, e)), (λ q. ground (arith, q, e)), (λ q. ground (arith, q, e)))

module _ {D : Type 0} where
  -- One order has been found and is submitted to be cancelled, or nothing is.
  abbrev pub Cancels : ℕ → Option (Option (Order D)) → Outcome D → Type 0
  Cancels user_id found r =
      ((o : Order D) × (found ≡ some (some o))
        × (o.user_id ≡ user_id)
        × IsGoing o.status
        × (r ≡ record { reply = ok_empty; submitted = record o { status = cancelling } ∷ [] }))
      ⊎ ((r.submitted ≡ [])
          × (r.reply ≢ ok_empty)
          × ((o : Order D)
              → found ≡ some (some o)
              → o.user_id ≡ user_id
              → (o.status ≢ new) × (o.status ≢ open_status) × (o.status ≢ partial)))

  cancel_found-Cancels :
      (user_id : ℕ) (found : Option (Order D))
      → Cancels user_id (some found) (cancel_found user_id found)
  unfolding cancel_found
  cancel_found-Cancels user_id none = inr (refl, (λ e. cc), λ o e. cc)
  cancel_found-Cancels user_id (some o) = elim (Bool-cases (o.user_id == user_id)) [
    | inr other ↦
        rw (cancel_found, other)
          (inr (refl, (λ e. cc), λ p e own. absurd (ground (arith, other, e, own))))
    | inl own ↦ elim (Bool-cases (may_cancel o.status)) [
      | inl may ↦
          rw (cancel_found, own, may)
            (inl (o, refl, ==→≡ _ _ own, may_cancel-IsGoing o.status may, refl))
      | inr shut ↦
          rw (cancel_found, own, shut)
            (inr (refl, (λ e. cc), λ p e q. shut_lem p.status (ground (arith, shut, e))))
    ]
  ]

  found-Cancels :
      (user_id : ℕ) (found : Option (Option (Order D)))
      → Cancels user_id found (reply_found user_id found)
  found-Cancels user_id none = inr (refl, (λ e. cc), λ o e. cc)
  found-Cancels user_id (some found) = cancel_found-Cancels user_id found

  module _ {T : Type 0} ⦃t : OrderTable D T⦄ where
    named-Cancels :
        (store_ok : Bool) (user_id : ℕ) (oid_of : List ℕ → ℕ) (n : Named) (s : Tables T)
        → Cancels user_id
            (look_up store_ok user_id oid_of n s)
            (cancel_named store_ok user_id oid_of n s)
    unfolding cancel_named look_up
    named-Cancels store_ok user_id oid_of no_number s =
        inr (refl, (λ e. cc), λ o e. ground (arith, e))
    named-Cancels store_ok user_id oid_of (client_order oid) s = found-Cancels user_id _
    named-Cancels store_ok user_id oid_of (order_number id) s = found-Cancels user_id _

    -- A request to cancel an order submits at most one order, and answers with success exactly when it
    -- does: the order that the path names, if it is the user's own and is new, open or partial,
    -- with nothing changed but its status. An order of another user, one that is not there, one
    -- of another status, a bad path and a failing store all submit nothing.
    pub cancel-Cancels :
        (parse_uint : String → Option ℕ) (oid_of : List ℕ → ℕ) (store_ok : Bool) (user_id : ℕ)
        (raw : String) (s : Tables T)
        → Cancels user_id
            (look_up store_ok user_id oid_of (named_order parse_uint raw) s)
            (cancel parse_uint oid_of store_ok user_id raw s)
    unfolding cancel
    cancel-Cancels parse_uint oid_of store_ok user_id raw s =
        named-Cancels store_ok user_id oid_of (named_order parse_uint raw) s
