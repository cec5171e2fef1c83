-- ===== src/Workers/Executors/Sharding.antt =====
-- The workers of worker/fill_executor.go and worker/bill_executor.go: each order's fills, and each
-- user's bills, go to one worker, in the order in which they come.
use cheetah_exchange.Prelude.{
  ℕ, ◌%◌, ◌<◌, ◌≡◌, refl, sym, ap, subst, ◌∙◌, Option, none, some, List, [], ◌∷◌, ◌++◌,
  if◌then◌else◌, arith, inl, inr, Bool-cases, Option-cases, some_inj, ◌==◌, ==→≡, ==→≢, get_elem?,
  set, replicate, length, length-replicate, length-set, get_elem?-total, get_elem?-set_self,
  get_elem?-set_ne, get_elem?-replicate,
}
use mathlib.Core.List.{append-nil, append_assoc}
use cheetah_exchange.Models.{Fill, Bill}
use cheetah_exchange.Workers.Executors.{
  fill_worker_num, bill_worker_num, send, send_fills, send_bills, new_fill_executor,
  new_bill_executor,
}

mod_lt : (a n : ℕ) → 0 < n → a % n < n
mod_lt a n h = grind arith

module _ {A : Type 0} where
  -- The values that go to a worker, by the key that they are sharded by.
  abbrev pub shard : (A → ℕ) → ℕ → ℕ → List A → List A
  shard key n k [] = []
  shard key n k (a ∷ as') =
      let rest = shard key n k as' in if key a % n == k then a ∷ rest else rest

  abbrev pub send_all : (A → ℕ) → ℕ → List A → List (List A) → Option (List (List A))
  send_all key n [] chs = some chs
  send_all key n (a ∷ as') chs = elim (send (key a % n) a chs) [
    | none ↦ none
    | some chs' ↦ send_all key n as' chs'
  ]

  -- The queues hold these values on top of what they held.
  pub record Sent (key : A → ℕ) (n : ℕ) (as' : List A) (chs chs' : List (List A)) : Type 0 where
    pub size : length chs' ≡ n
    pub queue :
        (k : ℕ) (q : List A)
        → get_elem? chs k ≡ some q
        → get_elem? chs' k ≡ some (q ++ shard key n k as')

  send_all-Sent :
      (key : A → ℕ) (n : ℕ) (as' : List A) (chs : List (List A))
      → 0 < n
      → length chs ≡ n
      → (chs' : List (List A)) × (send_all key n as' chs ≡ some chs') × Sent key n as' chs chs'
  unfolding send
  send_all-Sent key n [] chs pos size =
      (chs, refl, record { size = size; queue = λ k q e. rw append-nil e })
  send_all-Sent key n (a ∷ as') chs pos size =
      let i = key a % n in
      let small : i < length chs = rw size (mod_lt (key a) n pos) in
      let (old, at) = get_elem?-total chs i small in
      let chs1 = set chs i (old ++ a ∷ []) in
      let (chs', rest, sent) = send_all-Sent key n as' chs1 pos (length-set chs i _ ∙ size) in
      (
        chs',
        rw (send_all, at) rest,
        record {
          size = sent.size;
          queue = λ k q e. elim (Bool-cases (i == k)) [
            | inl here ↦
                let own : get_elem? chs1 k ≡ some (q ++ a ∷ []) =
                  subst (λ (z : ℕ). get_elem? chs1 z ≡ some (q ++ a ∷ [])) (==→≡ i k here)
                    (get_elem?-set_self chs i _ small
                      ∙ ap (λ (z : List A). some (z ++ a ∷ []))
                          (some_inj (sym at ∙ ap (get_elem? chs) (==→≡ i k here) ∙ e))) in
                rw here (sent.queue k (q ++ a ∷ []) own ∙ ap some (append_assoc q (a ∷ []) _))
            | inr other ↦
                rw other (sent.queue k q (get_elem?-set_ne chs i k _ (==→≢ i k other) ∙ e))
          ];
        },
      )

  -- Each of n workers has exactly the values of its keys, in their order.
  abbrev pub IsSharded : (A → ℕ) → ℕ → List A → Option (List (List A)) → Type 0
  IsSharded key n as' r =
      (chs : List (List A)) × (r ≡ some chs)
      × (length chs ≡ n)
      × ((k : ℕ) → k < n → get_elem? chs k ≡ some (shard key n k as'))

  send_all-IsSharded :
      (key : A → ℕ) (n : ℕ) (as' : List A)
      → 0 < n
      → IsSharded key n as' (send_all key n as' (replicate n []))
  send_all-IsSharded key n as' pos =
      let (chs, runs, sent) = send_all-Sent key n as' (replicate n []) pos (length-replicate n _) in
      (chs, runs, sent.size, λ k h. sent.queue k [] (get_elem?-replicate n k [] h))

module _ {D : Type 0} where
  send_fills-all :
      (fs : List (Fill D)) (chs : List (List (Fill D)))
      → send_all (λ f. f.order_id) fill_worker_num fs chs ≡ send_fills fs chs
  unfolding send_fills
  send_fills-all [] chs = refl
  send_fills-all (f ∷ fs) chs = elim (Option-cases (send (f.order_id % fill_worker_num) f chs)) [
    | inl out ↦ rw (send_all, send_fills, out) refl
    | inr (chs', sent) ↦ rw (send_all, send_fills, sent) (send_fills-all fs chs')
  ]

  send_bills-all :
      (bs : List (Bill D)) (chs : List (List (Bill D)))
      → send_all (λ b. b.user_id) bill_worker_num bs chs ≡ send_bills bs chs
  unfolding send_bills
  send_bills-all [] chs = refl
  send_bills-all (b ∷ bs) chs = elim (Option-cases (send (b.user_id % bill_worker_num) b chs)) [
    | inl out ↦ rw (send_all, send_bills, out) refl
    | inr (chs', sent) ↦ rw (send_all, send_bills, sent) (send_bills-all bs chs')
  ]

  -- Whatever fills and bills the listeners and the inspectors send, one after the other and in
  -- whatever order, no send is out of bounds, and each of the ten workers gets exactly the fills of
  -- its orders, and the bills of its users, in the order in which they were sent: the fills of one
  -- order, or the bills of one user, are never with two workers and never overtake each other.
  pub send_fills-bills-IsSharded :
      (fs : List (Fill D)) (bs : List (Bill D))
      → IsSharded (λ f. f.order_id) fill_worker_num fs (send_fills fs new_fill_executor)
        × IsSharded (λ b. b.user_id) bill_worker_num bs (send_bills bs new_bill_executor)
  unfolding new_fill_executor new_bill_executor
  send_fills-bills-IsSharded fs bs = (
    subst (IsSharded (λ (f : Fill D). f.order_id) fill_worker_num fs)
        (send_fills-all fs (replicate fill_worker_num []))
        (send_all-IsSharded (λ f. f.order_id) fill_worker_num fs (omega arith)),
    subst (IsSharded (λ (b : Bill D). b.user_id) bill_worker_num bs)
        (send_bills-all bs (replicate bill_worker_num []))
        (send_all-IsSharded (λ b. b.user_id) bill_worker_num bs (omega arith)),
  )
