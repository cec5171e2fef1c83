-- ===== src/Workers/Executors.antt =====
-- worker/fill_executor.go and worker/bill_executor.go: the queues of the workers, what the listener
-- and the inspector put into them, and what a worker does with a fill. A queue is the list of what
-- has been sent into its channel; a send into a full channel waits in the source. The cache of
-- settled orders (github.com/hashicorp/golang-lru) is a parameter, and so are the answers of redis
-- and of the store.
use cheetah_exchange.Prelude.{
  ℕ, ◌%◌, ◌≡◌, ◌⊎◌, Bool, true, false, Option, none, some, List, [], ◌∷◌, ◌++◌, if◌then◌else◌,
  get_elem?, set, replicate,
}
use cheetah_exchange.Models.{
  OrderStatus, new, open_status, cancelling, cancelled, partial, filled, other_status, Fill, Bill,
}
pub mod Sharding
pub mod Caching

-- `fillWorkerNum` and `billWorkerNum`
abbrev pub fill_worker_num : ℕ
fill_worker_num = 10

abbrev pub bill_worker_num : ℕ
bill_worker_num = 10

-- A text from redis: an error of `BRPop`, a text that is not of the type, or a value.
pub data Popped (A : Type 0) : Type 0 where
  pop_error bad_text : Popped A
  popped : A → Popped A

module _ {A : Type 0} where
  -- `workerChs[i] <- a`, which panics out of bounds.
  unfoldable pub send : ℕ → A → List (List A) → Option (List (List A))
  send i a chs = elim (get_elem? chs i) [
    | none ↦ none
    | some queue ↦ some (set chs i (queue ++ a ∷ []))
  ]

module _ {D : Type 0} where
  unfoldable pub new_fill_executor : List (List (Fill D))
  new_fill_executor = replicate fill_worker_num []

  unfoldable pub new_bill_executor : List (List (Bill D))
  new_bill_executor = replicate bill_worker_num []

  abbrev pub send_fill : Fill D → List (List (Fill D)) → Option (List (List (Fill D)))
  send_fill f chs = send (f.order_id % fill_worker_num) f chs

  abbrev pub send_bill : Bill D → List (List (Bill D)) → Option (List (List (Bill D)))
  send_bill b chs = send (b.user_id % bill_worker_num) b chs

  -- One round of `runMqListener`. A bad fill is passed over, and a bad bill panics.
  unfoldable pub hear_fill : Popped (Fill D) → List (List (Fill D)) → Option (List (List (Fill D)))
  hear_fill (popped f) chs = send_fill f chs
  hear_fill pop_error chs = some chs
  hear_fill bad_text chs = some chs

  unfoldable pub hear_bill : Popped (Bill D) → List (List (Bill D)) → Option (List (List (Bill D)))
  hear_bill (popped b) chs = send_bill b chs
  hear_bill pop_error chs = some chs
  hear_bill bad_text chs = none

  unfoldable pub send_fills : List (Fill D) → List (List (Fill D)) → Option (List (List (Fill D)))
  unfolding send
  send_fills [] chs = some chs
  send_fills (f ∷ fs) chs = elim (send_fill f chs) [ none ↦ none | some chs' ↦ send_fills fs chs' ]

  unfoldable pub send_bills : List (Bill D) → List (List (Bill D)) → Option (List (List (Bill D)))
  unfolding send
  send_bills [] chs = some chs
  send_bills (b ∷ bs) chs = elim (send_bill b chs) [ none ↦ none | some chs' ↦ send_bills bs chs' ]

  -- One round of `runInspector`, with what the store gives, or nothing on an error.
  unfoldable pub inspect_fills :
      Option (List (Fill D)) → List (List (Fill D)) → Option (List (List (Fill D)))
  inspect_fills none chs = some chs
  inspect_fills (some fs) chs = send_fills fs chs

  unfoldable pub inspect_bills :
      Option (List (Bill D)) → List (List (Bill D)) → Option (List (List (Bill D)))
  inspect_bills none chs = some chs
  inspect_bills (some bs) chs = send_bills bs chs

-- The cache of a worker.
pub record Cache (C : Type 0) : Type 0 where
  pub new_cache : C
  pub contains : ℕ → C → Bool
  pub add : ℕ → C → C

-- What the package documents: a cache has nothing but what was added; it may forget.
pub record IsCache {C : Type 0} (cache : Cache C) : Type 0 where
  pub contains-new : (id : ℕ) → cache.contains id cache.new_cache ≡ false
  pub contains-add :
      (id other : ℕ) (c : C)
      → cache.contains other (cache.add id c) ≡ true
      → (id ≡ other) ⊎ (cache.contains other c ≡ true)

-- A fill that reaches its worker: its order's id, and the id and status of the order that
-- `GetOrderById` gives then, if any.
pub record Arrival : Type 0 where
  pub order_id : ℕ
  pub order : Option (ℕ × OrderStatus)

-- A completed order.
abbrev pub is_completed : OrderStatus → Bool
is_completed cancelled = true
is_completed filled = true
is_completed partial = true
is_completed _ = false

module _ {C : Type 0} ⦃cache : Cache C⦄ where
  -- A worker's loop on one fill: its cache, and the orders for which it calls `ExecuteFill`.
  unfoldable pub work : Arrival → C → C × List ℕ
  work e c = if cache.contains e.order_id c then (c, []) else elim e.order [
    | none ↦ (c, [])
    | some (id, status) ↦ if is_completed status then (cache.add id c, []) else (c, e.order_id ∷ [])
  ]

  unfoldable pub work_all : List Arrival → C → List ℕ
  unfolding work
  work_all [] c = []
  work_all (e ∷ es) c = let (c', done) = work e c in done ++ work_all es c'
