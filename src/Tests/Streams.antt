-- ===== src/Tests/Streams.antt =====
-- The theorems on the changes that a client is sent, and on the queues of the workers.
use cheetah_exchange.Prelude.{
  ℕ, ◌≡◌, refl, Bool, true, false, Option, none, some, List, [], ◌∷◌, arith, inl, inr, ◌==◌,
  Bool-cases, ==→≡, ◌||◌, subst, some_inj,
}
use cheetah_exchange.Prelude.Ids.{IdMap, lookup, insert}
use cheetah_exchange.Prelude.Int.{ℤ, pos}
use cheetah_exchange.Models.{buy, Fill, Bill, open_status, filled}
use cheetah_exchange.Pushing.PriceBook.{Change, Level2Snapshot}
use cheetah_exchange.Pushing.Changes.{
  WriterState, Incoming, send_snapshot, add_change, handle_change, write_change, write_changes,
}
use cheetah_exchange.Pushing.Changes.Stream.{Delivered, write_changes-Delivered}
use cheetah_exchange.Pushing.Changes.Delivery.{IsFed}
use cheetah_exchange.Pushing.Changes.Repair.{IsRepaired, gap_repaired}
use cheetah_exchange.Workers.Executors.{
  fill_worker_num, bill_worker_num, send_fills, send_bills, new_fill_executor, new_bill_executor,
  Cache, IsCache, Arrival, work_all,
}
use cheetah_exchange.Workers.Executors.Sharding.{IsSharded, send_fills-bills-IsSharded}
use cheetah_exchange.Workers.Executors.Caching.{work_all-executed}
use cheetah_exchange.Tests.Services.{a_fill, a_bill}

abbrev a_change : ℕ → Change ℤ
a_change n = record { seq = n; side = buy; price = pos n; size = pos 1 }

abbrev a_picture : ℕ → Level2Snapshot ℤ
a_picture n = record { seq = n; asks = []; bids = [] }

abbrev incoming : ℕ → ℕ → Option (Level2Snapshot ℤ) → Incoming ℤ
incoming p n snap = record { product_id = p; change = a_change n; last_snapshot = snap; queued = 0 }

abbrev asking : ℕ → ℕ → Incoming ℤ
asking p n = incoming p 0 (some (a_picture n))

-- A first request, a change of another product, two changes, and one behind a gap.
abbrev some_incoming : List (Incoming ℤ)
some_incoming =
    asking 1 4
    ∷ incoming 2 9 none
    ∷ incoming 1 5 none
    ∷ incoming 1 6 none
    ∷ incoming 1 9 none
    ∷ asking 1 10
    ∷ []

came : (p n : ℕ) → IsFed a_change a_picture (incoming p n none)
came p n = record { numbered = λ _. refl; pictured = λ snap e. cc }

asked : (p n : ℕ) → IsFed a_change a_picture (asking p n)
asked p n = record {
  numbered = λ _. refl;
  pictured = λ snap e. subst (λ (z : Level2Snapshot ℤ). z ≡ a_picture z.seq) (some_inj e) refl;
}

write_changes-Delivered_example :
    Delivered a_change a_picture 1 none (write_changes some_incoming [])
unfolding lookup insert write_change handle_change send_snapshot add_change
write_changes-Delivered_example =
    write_changes-Delivered a_change a_picture 1 some_incoming [] none (inl (refl, refl, tt))
      (
        (λ _. asked 1 4),
        (
          (λ e. absurd (omega (arith, e))),
          ((λ _. came 1 5), ((λ _. came 1 6), ((λ _. came 1 9), ((λ _. asked 1 10), tt)))),
        ),
      )
      (
        (λ _ _. refl),
        ((λ _ _. refl), ((λ _ _. refl), ((λ _ _. refl), ((λ _ _. refl), ((λ _ _. refl), tt))))),
      )

-- The writer of product 1 is at 5; an older snapshot and another product come behind the gap.
abbrev writers : IdMap (WriterState ℤ)
writers = insert 1 (record { resend_snapshot = false; changes = a_change 5 ∷ []; last_seq = 5 }) []

gap_repaired_example :
    IsRepaired 1 (asking 1 10) (a_picture 10) (
      write_changes (incoming 1 8 none ∷ asking 1 7 ∷ incoming 2 3 none ∷ asking 1 10 ∷ []) writers)
    × ((write_change (incoming 1 8 none) writers).1.asks ≡ true)
unfolding insert lookup
gap_repaired_example =
    gap_repaired 1 writers (incoming 1 8 none) (asking 1 10) (asking 1 7 ∷ incoming 2 3 none ∷ [])
      (a_picture 10) refl refl (omega arith)
      ((λ own snap e. ground (arith, e)), ((λ own snap e. absurd (omega (arith, own))), tt)) refl
      refl (omega arith)

send_fills-bills-IsSharded_example :
    IsSharded
      (λ (f : Fill ℤ). f.order_id)
      fill_worker_num
      (a_fill 20 buy false ∷ a_fill 31 buy true ∷ [])
      (send_fills (a_fill 20 buy false ∷ a_fill 31 buy true ∷ []) new_fill_executor)
    × IsSharded
        (λ (b : Bill ℤ). b.user_id)
        bill_worker_num
        (a_bill (pos 1) (pos 2) ∷ [])
        (send_bills (a_bill (pos 1) (pos 2) ∷ []) new_bill_executor)
send_fills-bills-IsSharded_example =
    send_fills-bills-IsSharded (a_fill 20 buy false ∷ a_fill 31 buy true ∷ [])
      (a_bill (pos 1) (pos 2) ∷ [])

-- A cache that forgets nothing.
abbrev listed : ℕ → List ℕ → Bool
listed id [] = false
listed id (k ∷ ks) = (k == id) || listed id ks

instance abbrev list_cache : Cache (List ℕ)
list_cache = record { new_cache = []; contains = listed; add = λ id c. id ∷ c }

list_cache-IsCache : IsCache list_cache
list_cache-IsCache = record {
  contains-new = λ id. refl;
  contains-add = λ id other c h. elim (Bool-cases (id == other)) [
    | inl same ↦ inl (==→≡ id other same)
    | inr differ ↦ inr (ground (arith, h, differ))
  ];
}

abbrev arrivals : List Arrival
arrivals =
    record { order_id = 20; order = some (20, open_status) }
    ∷ record { order_id = 20; order = some (20, filled) }
    ∷ record { order_id = 20; order = some (20, filled) }
    ∷ []

work_all-executed_example : work_all arrivals list_cache.new_cache ≡ 20 ∷ []
work_all-executed_example = work_all-executed list_cache-IsCache arrivals (
  (λ id status e done. absurd (ground (arith, e, done))),
  (
    (λ id status e done. (ground (arith, e), ((λ _. refl), tt))),
    ((λ id status e done. (ground (arith, e), tt)), tt),
  ),
)
