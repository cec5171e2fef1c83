-- ===== src/Workers/Executors/Caching.antt =====
-- The cache of settled orders in worker/fill_executor.go saves look-ups and changes nothing else.
use cheetah_exchange.Prelude.{
  ℕ, ◌≡◌, refl, sym, ap, subst, ◌∙◌, true, Option, none, some, List, [], ◌∷◌, ◌++◌, if◌then◌else◌,
  arith, inl, inr, Bool-cases, Option-cases,
}
use cheetah_exchange.Models.{OrderStatus}
use cheetah_exchange.Workers.Executors.{Cache, IsCache, Arrival, is_completed, work_all}

-- What a worker without a cache does with a fill.
abbrev pub executed_by : Option (ℕ × OrderStatus) → ℕ → List ℕ
executed_by none id = []
executed_by (some (_, status)) id = if is_completed status then [] else id ∷ []

abbrev pub executed_in : List Arrival → List ℕ
executed_in [] = []
executed_in (e ∷ es) = executed_by e.order e.order_id ++ executed_in es

-- No later fill of the order finds it open again.
abbrev pub StaysDone : ℕ → List Arrival → Type 0
StaysDone id [] = Unit
StaysDone id (e ∷ es) = (id ≡ e.order_id → executed_by e.order e.order_id ≡ []) × StaysDone id es

-- An order is read by its own id, and once completed stays completed.
abbrev pub AreFinal : List Arrival → Type 0
AreFinal [] = Unit
AreFinal (e ∷ es) =
    ((id : ℕ) (status : OrderStatus)
      → e.order ≡ some (id, status)
      → is_completed status ≡ true
      → (id ≡ e.order_id) × StaysDone e.order_id es)
    × AreFinal es

module _ {C : Type 0} ⦃cache : Cache C⦄ (laws : IsCache cache) where
  -- What the cache has is completed for good.
  abbrev IsSafe : C → List Arrival → Type 0
  IsSafe c es = (id : ℕ) → cache.contains id c ≡ true → StaysDone id es

  work_all-from :
      (es : List Arrival) (c : C) → AreFinal es → IsSafe c es → work_all es c ≡ executed_in es
  unfolding work_all
  work_all-from [] c f s = refl
  work_all-from (e ∷ es) c f s = elim (Bool-cases (cache.contains e.order_id c)) [
    | inl cached ↦
        rw (work_all, cached, (s e.order_id cached).0 refl)
          (work_all-from es c f.1 (λ id h. (s id h).1))
    | inr fresh ↦ elim (Option-cases e.order) [
      | inl missing ↦ rw (work_all, fresh, missing) (work_all-from es c f.1 (λ id h. (s id h).1))
      | inr ((id, status), found) ↦ elim (Bool-cases (is_completed status)) [
        | inr going ↦
            rw (work_all, fresh, found, going)
              (ap (◌∷◌ e.order_id) (work_all-from es c f.1 (λ i h. (s i h).1)))
        | inl over ↦
            let (own, stays) = f.0 id status found over in
            rw (work_all, fresh, found, over)
              (work_all-from es (cache.add id c) f.1 (λ i h. elim (laws.contains-add id i c h) [
                | inl same ↦ subst (λ (z : ℕ). StaysDone z es) (sym own ∙ same) stays
                | inr old ↦ (s i old).1
              ]))
      ]
    ]
  ]

  -- A worker with its cache of settled orders calls `ExecuteFill` for exactly the fills, in their
  -- order, for which it would call it with no cache, however the cache forgets: where an order is
  -- read by its own id and stays completed once it is.
  pub work_all-executed :
      (es : List Arrival) → AreFinal es → work_all es cache.new_cache ≡ executed_in es
  work_all-executed es f =
      work_all-from es cache.new_cache f (λ id h. absurd (ground (arith, h, laws.contains-new id)))
