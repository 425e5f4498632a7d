-- ===== src/Utils/Keys.antt =====
-- The keys of a map, and the loops that erase the keys which a list of names does not hold.
use monio.Base.{
  String, ◌≡◌, refl, ◌∙◌, ◌≢◌, true, false, ◌&&◌, not, none, List, [], ◌∷◌, arith, if◌then◌else◌,
  string_eq, ==_iff, ==_self, Bool-cases, inl, inr,
}
use monio.Map.{Map, lookup, contains, erase}
use monio.Map.Order.{key_lt_irrefl}
use monio.Map.Laws.{lookup-erase}
use monio.Map.Sorted.{IsSorted, Above, erase-IsSorted}
use monio.Utils.{extract_keys, find_in_vector}
use monio.Utils.Vectors.{find_in_vector-cons}

module _ {ℓ} {V : Type ℓ} where
  -- The loop, on the map alone.
  unfoldable pub erase_unlisted : List String → List String → Map V → Map V
  erase_unlisted names [] m = m
  erase_unlisted names (key ∷ keys) m =
      erase_unlisted names keys (if find_in_vector names key then m else erase key m)

  pub lookup-erase_unlisted :
      (names keys : List String) (j : String) (m : Map V)
      → lookup j (erase_unlisted names keys m)
        ≡ (if find_in_vector keys j && not (find_in_vector names j) then none else lookup j m)
  unfolding erase_unlisted
  lookup-erase_unlisted names [] j m = unfold find_in_vector in refl
  lookup-erase_unlisted names (key ∷ keys) j m = ground (
    arith,
    find_in_vector-cons key keys j,
    ==_iff key j,
    lookup-erase key j m,
    lookup-erase_unlisted names keys j m,
    lookup-erase_unlisted names keys j (erase key m),
  )

  pub erase_unlisted-IsSorted :
      (names keys : List String) (m : Map V) → IsSorted m → IsSorted (erase_unlisted names keys m)
  unfolding erase_unlisted
  erase_unlisted-IsSorted names [] m s = s
  erase_unlisted-IsSorted names (key ∷ keys) m s = elim (Bool-cases (find_in_vector names key)) [
    | inl kept ↦ rw kept (erase_unlisted-IsSorted names keys m s)
    | inr gone ↦ rw gone (erase_unlisted-IsSorted names keys (erase key m) (erase-IsSorted key m s))
  ]

  -- A lookup finds exactly the keys.
  pub lookup_unlisted :
      (j : String) (m : Map V) → find_in_vector (extract_keys m) j ≡ false → lookup j m ≡ none
  unfolding lookup extract_keys
  lookup_unlisted j [] h = refl
  lookup_unlisted j ((k, v) ∷ m) h =
      ground (arith, find_in_vector-cons k (extract_keys m) j, lookup_unlisted j m)

  -- The keys are there, and each stands once.
  abbrev pub Present : List String → Map V → Type 0
  Present [] m = Unit {0}
  Present (key ∷ keys) m =
      (contains key m ≡ true) × (find_in_vector keys key ≡ false) × Present keys m

  contains-erase : (k j : String) (m : Map V) → k ≢ j → contains j (erase k m) ≡ contains j m
  unfolding contains
  contains-erase k j m h = ground (arith, lookup-erase k j m, ==_iff k j)

  pub Present-erase :
      (k : String) (keys : List String) (m : Map V)
      → find_in_vector keys k ≡ false
      → Present keys m
      → Present keys (erase k m)
  Present-erase k [] m h p = tt
  Present-erase k (key ∷ keys) m h p =
      let parts = find_in_vector-cons key keys k in
      let apart : k ≢ key = λ e. ground (arith, parts, ==_iff key k) in
      let rest : find_in_vector keys k ≡ false = ground (arith, parts) in
      (contains-erase k key m apart ∙ p.0, p.1, Present-erase k keys m rest p.2)

  Present-cons :
      (k : String) (v : V) (keys : List String) (m : Map V)
      → Present keys m
      → Present keys ((k, v) ∷ m)
  unfolding contains lookup
  Present-cons k v [] m p = tt
  Present-cons k v (key ∷ keys) m p =
      let here : contains key ((k, v) ∷ m) ≡ true = ground (arith, p.0) in
      (here, p.1, Present-cons k v keys m p.2)

  unlisted_below : (k : String) (m : Map V) → Above k m → find_in_vector (extract_keys m) k ≡ false
  unfolding extract_keys
  unlisted_below k [] a = unfold find_in_vector in refl
  unlisted_below k ((j, v) ∷ m) a = ground (
    arith,
    find_in_vector-cons j (extract_keys m) k,
    ==_iff j k,
    key_lt_irrefl k,
    unlisted_below k m a.1,
  )

  pub extract_keys-Present : (m : Map V) → IsSorted m → Present (extract_keys m) m
  unfolding extract_keys
  extract_keys-Present [] s = tt
  extract_keys-Present ((k, v) ∷ m) s =
      let head : contains k ((k, v) ∷ m) ≡ true =
        unfold contains lookup in ground (arith, ==_self k) in
      (
        head,
        unlisted_below k m s.0,
        Present-cons k v (extract_keys m) m (extract_keys-Present m s.1),
      )

  pub find_in_vector-extract_keys :
      (k : String) (m : Map V) → find_in_vector (extract_keys m) k ≡ contains k m
  unfolding extract_keys contains lookup
  find_in_vector-extract_keys k [] = unfold find_in_vector in refl
  find_in_vector-extract_keys k ((j, v) ∷ m) =
      ground (arith, find_in_vector-cons j (extract_keys m) k, find_in_vector-extract_keys k m)
