-- ===== src/Extern/TreeMap/Sorted.antt =====
-- Listings that a comparator sorts: what a write and a removal leave in them.
use cheetah_exchange.Prelude.{◌≡◌, refl, none, some, List, [], ◌∷◌, Ordering, arith}
use cheetah_exchange.Extern.Decimal.{flip}
use cheetah_exchange.Extern.TreeMap.{put_sorted, remove_sorted, get_sorted}

-- A comparator that tells every two keys apart and is a strict order.
pub record IsOrder {K : Type 0} (c : K → K → Ordering) : Type 0 where
  pub same : (a b : K) → c a b ≡ Ordering.eq → a ≡ b
  pub itself : (a : K) → c a a ≡ Ordering.eq
  pub turned : (a b : K) → c b a ≡ flip (c a b)
  pub chained : (a b e : K) → c a b ≡ Ordering.lt → c b e ≡ Ordering.lt → c a e ≡ Ordering.lt

-- The first value for equal keys, the second otherwise.
abbrev pub pick : {A : Type 0} → Ordering → A → A → A
pick Ordering.eq x y = x
pick _ x y = y

module _ {K V : Type 0} (c : K → K → Ordering) where
  -- The key comes before every key of the listing.
  abbrev pub Before : K → List (K × V) → Type 0
  Before k [] = Unit
  Before k ((j, w) ∷ es) = (c k j ≡ Ordering.lt) × Before k es

  abbrev pub Sorted : List (K × V) → Type 0
  Sorted [] = Unit
  Sorted ((k, v) ∷ es) = Before k es × Sorted es

  -- Each key of the second listing is looked up in the first to its value.
  abbrev pub Found : List (K × V) → List (K × V) → Type 0
  Found all [] = Unit
  Found all ((k, v) ∷ es) = (get_sorted c k all ≡ some v) × Found all es

  module _ (o : IsOrder c) where
    Before-put :
        (j k : K) (v : V) (es : List (K × V))
        → c j k ≡ Ordering.lt
        → Before j es
        → Before j (put_sorted c k v es)
    Before-put j k v [] h b = (h, tt)
    Before-put j k v ((i, w) ∷ es) h b = ground (arith, Before-put j k v es h b.1)

    Before-chained : (j k : K) (es : List (K × V)) → c j k ≡ Ordering.lt → Before k es → Before j es
    Before-chained j k [] h b = tt
    Before-chained j k ((i, w) ∷ es) h b = (o.chained j k i h b.0, Before-chained j k es h b.1)

    pub Sorted-put : (k : K) (v : V) (es : List (K × V)) → Sorted es → Sorted (put_sorted c k v es)
    Sorted-put k v [] s = (tt, tt)
    Sorted-put k v ((j, w) ∷ es) s = ground (
      arith,
      o.same k j,
      o.turned k j,
      Sorted-put k v es s.1,
      Before-put j k v es,
      Before-chained k j es,
    )

    Before-remove : (j k : K) (es : List (K × V)) → Before j es → Before j (remove_sorted c k es)
    Before-remove j k [] b = tt
    Before-remove j k ((i, w) ∷ es) b = ground (arith, Before-remove j k es b.1)

    pub Sorted-remove : (k : K) (es : List (K × V)) → Sorted es → Sorted (remove_sorted c k es)
    Sorted-remove k [] s = tt
    Sorted-remove k ((j, w) ∷ es) s =
        ground (arith, Sorted-remove k es s.1, Before-remove j k es s.0)

    pub get-put :
        (j k : K) (v : V) (es : List (K × V))
        → get_sorted c j (put_sorted c k v es) ≡ pick (c j k) (some v) (get_sorted c j es)
    get-put j k v [] = ground arith
    get-put j k v ((i, w) ∷ es) =
        ground (arith, o.same k i, o.same j k, o.same j i, get-put j k v es)

    Before-get : (k : K) (es : List (K × V)) → Before k es → get_sorted c k es ≡ none
    Before-get k [] b = refl
    Before-get k ((j, w) ∷ es) b = ground (arith, Before-get k es b.1)

    pub get-remove :
        (j k : K) (es : List (K × V))
        → Sorted es
        → get_sorted c j (remove_sorted c k es) ≡ pick (c j k) none (get_sorted c j es)
    get-remove j k [] s = ground arith
    get-remove j k ((i, w) ∷ es) s =
        ground
          (arith, o.same k i, o.same j k, o.same j i, get-remove j k es s.1, Before-get i es s.0)

    Found-cons :
        (k : K) (v : V) (all es : List (K × V))
        → Before k es
        → Found all es
        → Found ((k, v) ∷ all) es
    Found-cons k v all [] b f = tt
    Found-cons k v all ((j, w) ∷ es) b f =
        ground (arith, o.turned k j, Found-cons k v all es b.1 f.1)

    -- Every entry of a sorted listing is what its key is looked up to.
    pub Sorted-Found : (es : List (K × V)) → Sorted es → Found es es
    Sorted-Found [] s = tt
    Sorted-Found ((k, v) ∷ es) s =
        (ground (arith, o.itself k), Found-cons k v es es s.0 (Sorted-Found es s.1))

    first_alike :
        (k j : K) (v w : V) (es fs : List (K × V))
        → Sorted ((k, v) ∷ es)
        → Sorted ((j, w) ∷ fs)
        → ((i : K) → get_sorted c i ((k, v) ∷ es) ≡ get_sorted c i ((j, w) ∷ fs))
        → c k j ≡ Ordering.eq
    first_alike k j v w es fs s r h = ground (
      arith,
      h k,
      h j,
      o.itself k,
      o.itself j,
      o.turned k j,
      Before-get k fs,
      Before-get j es,
      Before-chained k j fs,
      Before-chained j k es,
    )

    rest_alike :
        (k j : K) (v w : V) (es fs : List (K × V))
        → Sorted ((k, v) ∷ es)
        → Sorted ((j, w) ∷ fs)
        → c k j ≡ Ordering.eq
        → ((i : K) → get_sorted c i ((k, v) ∷ es) ≡ get_sorted c i ((j, w) ∷ fs))
        → (i : K) → get_sorted c i es ≡ get_sorted c i fs
    rest_alike k j v w es fs s r same h i =
        ground (arith, h i, o.same k j, o.same i k, Before-get k es, Before-get j fs)

    -- Two sorted listings that answer every look-up alike are one.
    pub Sorted-unique :
        (es fs : List (K × V))
        → Sorted es
        → Sorted fs
        → ((k : K) → get_sorted c k es ≡ get_sorted c k fs)
        → es ≡ fs
    Sorted-unique [] [] s r h = refl
    Sorted-unique [] ((j, w) ∷ fs) s r h = ground (arith, h j, o.itself j)
    Sorted-unique ((k, v) ∷ es) [] s r h = ground (arith, h k, o.itself k)
    Sorted-unique ((k, v) ∷ es) ((j, w) ∷ fs) s r h =
        let same = first_alike k j v w es fs s r h in
        let alike : (k, v) ≡ (j, w) = ground (arith, same, h k, o.same k j, o.itself k) in
        λ i. alike i ∷ Sorted-unique es fs s.1 r.1 (rest_alike k j v w es fs s r same h) i
