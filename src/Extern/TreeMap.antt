-- ===== src/Extern/TreeMap.antt =====
-- The part of github.com/emirpasic/gods/maps/treemap that the program uses: a map ordered by the
-- comparator that it was made with. `entries` is what its iterator yields, first to last.
pub mod Sorted
use cheetah_exchange.Prelude.{ℕ, ◌≡◌, Option, none, some, List, [], ◌∷◌, Ordering}

pub record TreeMap (K V T : Type 0) : Type 0 where
  pub new_with : (K → K → Ordering) → T
  pub put : K → V → T → T
  pub remove : K → T → T
  pub get : K → T → Option V
  pub min : T → Option (K × V)
  pub max : T → Option (K × V)
  pub entries : T → List (K × V)

module _ {K V : Type 0} where
  -- A sorted listing under a write, a removal and a look-up.
  abbrev pub put_sorted : (K → K → Ordering) → K → V → List (K × V) → List (K × V)
  put_sorted c k v [] = (k, v) ∷ []
  put_sorted c k v ((j, w) ∷ es) =
      let rest = put_sorted c k v es in
      elim (c k j) [
        | Ordering.lt ↦ (k, v) ∷ (j, w) ∷ es
        | Ordering.eq ↦ (k, v) ∷ es
        | Ordering.gt ↦ (j, w) ∷ rest
      ]

  abbrev pub remove_sorted : (K → K → Ordering) → K → List (K × V) → List (K × V)
  remove_sorted c k [] = []
  remove_sorted c k ((j, w) ∷ es) =
      let rest = remove_sorted c k es in elim (c k j) [ Ordering.eq ↦ es | _ ↦ (j, w) ∷ rest ]

  abbrev pub get_sorted : (K → K → Ordering) → K → List (K × V) → Option V
  get_sorted c k [] = none
  get_sorted c k ((j, w) ∷ es) =
      let rest = get_sorted c k es in elim (c k j) [ Ordering.eq ↦ some w | _ ↦ rest ]

  abbrev pub first_of_list : List (K × V) → Option (K × V)
  first_of_list [] = none
  first_of_list (e ∷ es) = some e

  abbrev pub last_of_list : List (K × V) → Option (K × V)
  last_of_list [] = none
  last_of_list (e ∷ []) = some e
  last_of_list (e ∷ (f ∷ es)) = last_of_list (f ∷ es)

-- What the package documents: the listing is sorted by the comparator, and the smallest and the
-- largest key are its ends.
pub record IsTreeMap {K V T : Type 0} (t : TreeMap K V T) : Type 0 where
  pub comparator : T → K → K → Ordering
  pub comparator-new : (c : K → K → Ordering) → comparator (t.new_with c) ≡ c
  pub comparator-put : (k : K) (v : V) (m : T) → comparator (t.put k v m) ≡ comparator m
  pub comparator-remove : (k : K) (m : T) → comparator (t.remove k m) ≡ comparator m
  pub entries-new : (c : K → K → Ordering) → t.entries (t.new_with c) ≡ []
  pub entries-put :
      (k : K) (v : V) (m : T)
      → t.entries (t.put k v m) ≡ put_sorted (comparator m) k v (t.entries m)
  pub entries-remove :
      (k : K) (m : T) → t.entries (t.remove k m) ≡ remove_sorted (comparator m) k (t.entries m)
  pub get-entries : (k : K) (m : T) → t.get k m ≡ get_sorted (comparator m) k (t.entries m)
  pub min-entries : (m : T) → t.min m ≡ first_of_list (t.entries m)
  pub max-entries : (m : T) → t.max m ≡ last_of_list (t.entries m)
