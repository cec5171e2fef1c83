-- ===== src/Rest/Paging.antt =====
-- The pages of `GetOrders` (rest/order_controller.go).
use Prim.Native.String.{String}
use text.Mathlib.Text.{◌==◌ as str_eq}
use text.Mathlib.TextEquality.{eq_iff}
use cheetah_exchange.Prelude.{
  ℕ, ◌≤◌, ◌<◌, ◌≡◌, refl, Bool, true, false, Option, none, some, List, [], arith, ◌⊎◌, inl, inr,
  length, All, Bool-cases, ◌≢◌, ◌∷◌,
}
use cheetah_exchange.Prelude.Int.{ℤ, pos, negsuc}
use cheetah_exchange.Models.{Order, OrderStatus, side_of_string, order_status_of_string}
use cheetah_exchange.Stores.{
  OrderTable, OrderQuery, Tables, user_table, limit_or_100, get_orders_by_user_id,
}
use cheetah_exchange.Rest.{Outcome, bad_request, server_error, page}
use cheetah_exchange.Rest.Lists.{
  OrdersQuery, AskedSide, any_side, bad_side, one_side, asked_side, side_filter, asked_statuses,
  clamp_limit, first_id, last_id, get_page, get_orders,
}

-- What the database documents of a query: no more rows than its limit, each of the user.
pub record IsLimited {D T : Type 0} (t : OrderTable D T) : Type 0 where
  pub at_most : (q : OrderQuery) (r : T) → length (t.select q r) ≤ q.limit
  pub owned : (q : OrderQuery) (r : T) → All (λ o. o.user_id ≡ q.user_id) (t.select q r)

clamped :
    (limit : ℤ) → (0 < limit_or_100 (clamp_limit limit)) × (limit_or_100 (clamp_limit limit) ≤ 100)
clamped (pos n) = ground arith
clamped (negsuc n) = ground arith

-- The texts of a side that a query may have, and those of a status.
abbrev pub IsSideText : String → Type 0
IsSideText s = (s ≡ "") ⊎ (s ≡ "buy") ⊎ (s ≡ "sell")

abbrev pub IsStatusText : String → Type 0
IsStatusText s =
    (s ≡ "new")
    ⊎ (s ≡ "open")
    ⊎ (s ≡ "cancelling")
    ⊎ (s ≡ "cancelled")
    ⊎ (s ≡ "partial")
    ⊎ (s ≡ "filled")

abbrev pub IsWellAsked : OrdersQuery → Type 0
IsWellAsked q = IsSideText q.side × All IsStatusText q.statuses

SideSays : String → AskedSide → Type 0
SideSays s bad_side = IsSideText s → ⊥
SideSays s _ = IsSideText s

StatusSays : String → Option OrderStatus → Type 0
StatusSays s none = IsStatusText s → ⊥
StatusSays s (some _) = IsStatusText s

StatusesSay : List String → Option (List OrderStatus) → Type 0
StatusesSay ss none = All IsStatusText ss → ⊥
StatusesSay ss (some _) = All IsStatusText ss

same_text : {s t : String} → str_eq s t ≡ true → s ≡ t
same_text {s} {t} e = (eq_iff s t).0 e

other_text : {s t : String} → str_eq s t ≡ false → s ≢ t
other_text {s} {t} e q = cc (e, (eq_iff s t).1 q)

asked_side_lem : (s : String) → SideSays s (asked_side s)
unfolding asked_side side_of_string SideSays
asked_side_lem s = elim (Bool-cases (str_eq s "")) [
  | inl any ↦ rw (asked_side, any) (inl (same_text any))
  | inr ne ↦ elim (Bool-cases (str_eq s "buy")) [
    | inl b ↦ rw (asked_side, ne, side_of_string, b) (inr (inl (same_text b)))
    | inr nb ↦ elim (Bool-cases (str_eq s "sell")) [
      | inl z ↦ rw (asked_side, ne, side_of_string, nb, z) (inr (inr (same_text z)))
      | inr nz ↦
          rw (asked_side, ne, side_of_string, nb, nz)
            (λ i. elim i [
              | inl q ↦ other_text ne q
              | inr (inl q) ↦ other_text nb q
              | inr (inr q) ↦ other_text nz q
            ])
    ]
  ]
]

status_lem : (s : String) → StatusSays s (order_status_of_string s)
unfolding order_status_of_string StatusSays
status_lem s = elim (Bool-cases (str_eq s "new")) [
  | inl e ↦ rw (order_status_of_string, e) (inl (same_text e))
  | inr n1 ↦ elim (Bool-cases (str_eq s "open")) [
    | inl e ↦ rw (order_status_of_string, n1, e) (inr (inl (same_text e)))
    | inr n2 ↦ elim (Bool-cases (str_eq s "cancelling")) [
      | inl e ↦ rw (order_status_of_string, n1, n2, e) (inr (inr (inl (same_text e))))
      | inr n3 ↦ elim (Bool-cases (str_eq s "cancelled")) [
        | inl e ↦ rw (order_status_of_string, n1, n2, n3, e) (inr (inr (inr (inl (same_text e)))))
        | inr n4 ↦ elim (Bool-cases (str_eq s "partial")) [
          | inl e ↦
              rw (order_status_of_string, n1, n2, n3, n4, e)
                (inr (inr (inr (inr (inl (same_text e))))))
          | inr n5 ↦ elim (Bool-cases (str_eq s "filled")) [
            | inl e ↦
                rw (order_status_of_string, n1, n2, n3, n4, n5, e)
                  (inr (inr (inr (inr (inr (same_text e))))))
            | inr n6 ↦
                rw (order_status_of_string, n1, n2, n3, n4, n5, n6)
                  (λ i. elim i [
                    | inl q ↦ other_text n1 q
                    | inr (inl q) ↦ other_text n2 q
                    | inr (inr (inl q)) ↦ other_text n3 q
                    | inr (inr (inr (inl q))) ↦ other_text n4 q
                    | inr (inr (inr (inr (inl q)))) ↦ other_text n5 q
                    | inr (inr (inr (inr (inr q)))) ↦ other_text n6 q
                  ])
          ]
        ]
      ]
    ]
  ]
]

add_status :
    (s : String) (ss : List String) (o : Option OrderStatus) (os : Option (List OrderStatus))
    → StatusSays s o
    → StatusesSay ss os
    → StatusesSay (s ∷ ss) (elim o [
      | none ↦ none
      | some status ↦ elim os [ none ↦ none | some rest ↦ some (status ∷ rest) ]
    ])
unfolding StatusSays StatusesSay
add_status s ss none os h k = λ w. h w.0
add_status s ss (some o) none h k = λ w. k w.1
add_status s ss (some o) (some os) h k = (h, k)

statuses_lem : (ss : List String) → StatusesSay ss (asked_statuses ss)
unfolding asked_statuses StatusesSay
statuses_lem [] = tt
statuses_lem (s ∷ ss) =
    add_status s ss (order_status_of_string s) (asked_statuses ss) (status_lem s) (statuses_lem ss)

module _ {D T : Type 0} ⦃t : OrderTable D T⦄ (laws : IsLimited t) where
  -- A page that is fit to be shown: at most a hundred orders, all of the user, as its table gives
  -- them for a query of that user and product.
  pub record IsPage (user_id : ℕ) (q : OrdersQuery) (s : Tables T) (os : List (Order D))
      : Type 0 where
    pub short : length os ≤ 100
    pub own : All (λ o. o.user_id ≡ user_id) os
    pub query : OrderQuery
    pub for_user : query.user_id ≡ user_id
    pub for_product : query.product_id ≡ q.product_id
    pub selected : os ≡ t.select query (s (user_table user_id))

  abbrev pub Pages : Bool → ℕ → OrdersQuery → Tables T → Outcome D → Type 0
  Pages store_ok user_id q s r =
      (r.submitted ≡ [])
      × (((IsWellAsked q → ⊥) × (r.reply ≡ bad_request))
          ⊎ (IsWellAsked q × (store_ok ≡ false) × (r.reply ≡ server_error))
          ⊎ (IsWellAsked q
              × (store_ok ≡ true)
              × ((os : List (Order D)) × (r.reply ≡ page os (first_id os) (last_id os))
                  × IsPage user_id q s os)))

  selected-IsPage :
      (user_id : ℕ) (statuses : List OrderStatus) (side : AskedSide) (q : OrdersQuery)
      (s : Tables T)
      → IsPage user_id q s (
          get_orders_by_user_id user_id statuses
            (side_filter side)
            q.product_id
            q.before
            q.after
            (clamp_limit q.limit)
            s)
  unfolding get_orders_by_user_id
  selected-IsPage user_id statuses side q s = record {
    short = omega (arith, laws.at_most _ (s (user_table user_id)), (clamped q.limit).1);
    own = laws.owned _ (s (user_table user_id));
    query = _;
    for_user = refl;
    for_product = refl;
    selected = refl;
  }

  get_page-Pages :
      (store_ok : Bool) (user_id : ℕ) (q : OrdersQuery) (s : Tables T) (side : AskedSide)
      (statuses : Option (List OrderStatus))
      → SideSays q.side side
      → StatusesSay q.statuses statuses
      → Pages store_ok user_id q s (get_page store_ok user_id q s side statuses)
  unfolding get_page SideSays StatusesSay
  get_page-Pages store_ok user_id q s bad_side statuses h k = (refl, inl ((λ w. h w.0), refl))
  get_page-Pages store_ok user_id q s any_side none h k = (refl, inl ((λ w. k w.1), refl))
  get_page-Pages store_ok user_id q s (one_side side) none h k = (refl, inl ((λ w. k w.1), refl))
  get_page-Pages false user_id q s any_side (some statuses) h k =
      (refl, inr (inl ((h, k), refl, refl)))
  get_page-Pages false user_id q s (one_side side) (some statuses) h k =
      (refl, inr (inl ((h, k), refl, refl)))
  get_page-Pages true user_id q s any_side (some statuses) h k =
      (refl, inr (inr ((h, k), refl, (_, refl, selected-IsPage user_id statuses any_side q s))))
  get_page-Pages true user_id q s (one_side side) (some statuses) h k = (
    refl,
    inr (inr ((h, k), refl, (_, refl, selected-IsPage user_id statuses (one_side side) q s))),
  )

  -- Nothing is submitted. The request is bad exactly if its side is none of "", "buy" and "sell" or
  -- one of its statuses is none of "new", "open", "cancelling", "cancelled", "partial" and
  -- "filled"; a good one fails exactly if the store does. Otherwise, whatever limit is asked for,
  -- negative, zero or huge, the answer is a page of at most a hundred orders, all of the user, as a
  -- query for that user and product finds them in its table; the ids that stand beside it for the
  -- next request are those of its first and its last order.
  pub get_orders-Pages :
      (store_ok : Bool) (user_id : ℕ) (q : OrdersQuery) (s : Tables T)
      → Pages store_ok user_id q s (get_orders store_ok user_id q s)
  unfolding get_orders
  get_orders-Pages store_ok user_id q s =
      get_page-Pages store_ok user_id q s (asked_side q.side) (asked_statuses q.statuses)
        (asked_side_lem q.side) (statuses_lem q.statuses)
