-- ===== src/Tests/Instances.antt =====
-- Integers as decimals, and sorted lists as treemaps: both meet what the program relies on.
use cheetah_exchange.Prelude.{ℕ, ◌*◌, ◌/◌, ◌<◌, ◌≡◌, refl, List, [], Ordering, arith}
use cheetah_exchange.Prelude.Int.{ℤ, pos, negsuc, ◌+ℤ◌, ◌-ℤ◌, neg_ℤ, ◌*ℤ◌, compare_ℤ}
use cheetah_exchange.Extern.Decimal.{Decimal, IsExact}
use cheetah_exchange.Extern.TreeMap.{
  TreeMap, IsTreeMap, put_sorted, remove_sorted, get_sorted, first_of_list, last_of_list,
}

-- Quotients round down, as they do for what is not negative.
abbrev quotient : ℤ → ℤ → ℤ
quotient (pos a) (pos b) = pos (a / b)
quotient a b = pos 0

instance abbrev pub integers : Decimal ℤ
integers = record {
  nought = pos 0;
  one = pos 1;
  add = ◌+ℤ◌;
  sub = ◌-ℤ◌;
  neg = neg_ℤ;
  mul = ◌*ℤ◌;
  div = quotient;
  mod_by = λ a b. pos 0;
  truncate = λ a n. a;
  round = λ a n. a;
  max_float32 = pos 1_000_000;
  cmp = compare_ℤ;
}

product_pos : (n m : ℕ) → 0 < n → 0 < m → 0 < n * m
product_pos n m h k = grind arith

times_pos :
    (a b : ℤ)
    → compare_ℤ (pos 0) a ≡ Ordering.lt
    → compare_ℤ (pos 0) b ≡ Ordering.lt
    → compare_ℤ (pos 0) (a *ℤ b) ≡ Ordering.lt
times_pos (pos n) (pos m) h k = ground (arith, product_pos n m (ground arith) (ground arith))
times_pos (pos n) (negsuc m) h k = ground arith
times_pos (negsuc n) b h k = ground arith

pub integers-IsExact : IsExact ℤ
integers-IsExact = record {
  cmp_eq = λ a b h. ground arith;
  cmp_self = λ a. ground arith;
  cmp_flip = λ a b. ground arith;
  cmp_trans = λ a b c h k. ground arith;
  add_comm = λ a b. ground arith;
  add_assoc = λ a b c. ground arith;
  add_nought = λ a. ground arith;
  add_neg = λ a. ground arith;
  sub_as_add = λ a b. ground arith;
  cmp_add = λ a b c. ground arith;
  mul_nought = λ a. ground arith;
  mul_pos = times_pos;
}

pub record ListMap (K V : Type 0) : Type 0 where
  pub order : K → K → Ordering
  pub listing : List (K × V)

instance abbrev pub list_map : {K V : Type 0} → TreeMap K V (ListMap K V)
list_map = record {
  new_with = λ c. record { order = c; listing = [] };
  put = λ k v m. record m { listing = put_sorted m.order k v m.listing };
  remove = λ k m. record m { listing = remove_sorted m.order k m.listing };
  get = λ k m. get_sorted m.order k m.listing;
  min = λ m. first_of_list m.listing;
  max = λ m. last_of_list m.listing;
  entries = λ m. m.listing;
}

pub list_map-IsTreeMap : (K V : Type 0) → IsTreeMap (list_map {K = K} {V = V})
list_map-IsTreeMap K V = record {
  comparator = λ m. m.order;
  comparator-new = λ c. refl;
  comparator-put = λ k v m. refl;
  comparator-remove = λ k m. refl;
  entries-new = λ c. refl;
  entries-put = λ k v m. refl;
  entries-remove = λ k m. refl;
  get-entries = λ k m. refl;
  min-entries = λ m. refl;
  max-entries = λ m. refl;
}
