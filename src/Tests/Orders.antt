-- ===== src/Tests/Orders.antt =====
-- The theorems on `ApplyOrder`, at a buyer of five who meets two sellers.
use cheetah_exchange.Prelude.{ℕ, ◌≡◌, refl, some, List, [], ◌∷◌, ◌++◌, arith, All}
use cheetah_exchange.Prelude.Int.{ℤ, pos, ◌+ℤ◌}
use cheetah_exchange.Matching.Log.{Log}
use cheetah_exchange.Matching.Log.Sequence.{Numbered, last_seq}
use cheetah_exchange.Matching.Depth.{Key}
use cheetah_exchange.Matching.Book.{Book}
use cheetah_exchange.Matching.Book.Invariant.{IsBook}
use cheetah_exchange.Matching.Apply.{apply_order}
use cheetah_exchange.Matching.Apply.Outcome.{
  apply_order-IsBook, apply_order_conserves, apply_order_prices, traded, remaining, FairPrice,
}
use cheetah_exchange.Models.{buy}
use cheetah_exchange.Matching.Book.{prepare}
use cheetah_exchange.Tests.Instances.{integers, integers-IsExact, list_map, list_map-IsTreeMap}
use cheetah_exchange.Tests.Books.{
  Queue, a_book, a_book-IsBook, buyer, buyer-IsValidOrder, old_unseen,
}

-- The run of that order, with its logs and the book behind it.
abbrev Bought : Type 0
Bought =
    (logs : List (Log ℤ)) × (b' : Book ℤ Queue) × (apply_order a_book (buyer 20 10 5)
      ≡ some (logs, b'))
    × IsBook (list_map-IsTreeMap (Key ℤ) ℕ) b'
    × Numbered 0 logs
    × (b'.log_seq ≡ last_seq 0 logs)

bought : Bought
bought =
    apply_order-IsBook integers-IsExact (list_map-IsTreeMap (Key ℤ) ℕ) a_book a_book-IsBook
      (buyer 20 10 5) (buyer-IsValidOrder 20 10 5 (omega arith) (omega arith))

apply_order_conserves_example :
    (trades : List (Log ℤ)) × (last : Log ℤ) × (b' : Book ℤ Queue) × (apply_order a_book
        (buyer 20 10 5)
      ≡ some (trades ++ last ∷ [], b'))
    × (traded trades +ℤ remaining last ≡ pos 5)
apply_order_conserves_example =
    apply_order_conserves integers-IsExact (list_map-IsTreeMap (Key ℤ) ℕ) a_book a_book-IsBook
      (buyer 20 10 5) (buyer-IsValidOrder 20 10 5 (omega arith) (omega arith))
      (old_unseen 20 (omega arith)) refl

apply_order_prices_example : All (FairPrice buy (pos 10)) bought.0
unfolding prepare
apply_order_prices_example =
    apply_order_prices integers-IsExact (list_map-IsTreeMap (Key ℤ) ℕ) a_book a_book-IsBook
      (buyer 20 10 5) (buyer-IsValidOrder 20 10 5 (omega arith) (omega arith)) bought.0 bought.1
      bought.2
