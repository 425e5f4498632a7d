-- ===== src/Map/Sorted.antt =====
-- The representation invariant of std::map: the keys ascend, so that they are distinct and the
-- entries are determined by what a lookup finds.
use monio.Base.{
  String, ◌≡◌, refl, ◌≢◌, ◌∙◌, true, none, [], ◌∷◌, arith, ◌==◌, string_eq, ==_iff, inl, inr,
  Bool-cases,
}
use monio.Map.Order.{key_lt, key_lt_trans, key_lt_irrefl, key_lt_total}
use monio.Map.Laws.{lookup_head, lookup_skip}
use monio.Map.{Map, lookup, insert, erase}

module _ {ℓ} {V : Type ℓ} where
  -- Every key lies above `k`.
  abbrev pub Above : String → Map V → Type 0
  Above k [] = Unit {0}
  Above k ((j, v) ∷ m) = (key_lt k j ≡ true) × Above k m

  abbrev pub IsSorted : Map V → Type 0
  IsSorted [] = Unit {0}
  IsSorted ((k, v) ∷ m) = Above k m × IsSorted m

  pub Above-trans : (i k : String) (m : Map V) → key_lt i k ≡ true → Above k m → Above i m
  Above-trans i k [] h a = tt
  Above-trans i k ((j, v) ∷ m) h a = (key_lt_trans i k j h a.0, Above-trans i k m h a.1)

  Above-insert :
      (i k : String) (v : V) (m : Map V) → key_lt i k ≡ true → Above i m → Above i (insert k v m)
  unfolding insert
  Above-insert i k v [] h a = (h, tt)
  Above-insert i k v ((j, w) ∷ m) h a =
      let rest = Above-insert i k v m h a.1 in ground (arith, rest)

  pub insert-IsSorted : (k : String) (v : V) (m : Map V) → IsSorted m → IsSorted (insert k v m)
  unfolding insert
  insert-IsSorted k v [] s = (tt, tt)
  insert-IsSorted k v ((j, w) ∷ m) s = elim (Bool-cases (key_lt j k)) [
    | inl lt ↦ rw lt (Above-insert j k v m lt s.0, insert-IsSorted k v m s.1)
    | inr ge ↦ rw ge (elim (Bool-cases (j == k)) [
      | inl here ↦ rw here s
      | inr other ↦
          let up = key_lt_total j k ge (λ e. ground (arith, ==_iff j k)) in
          rw other ((up, Above-trans k j m up s.0), s)
    ])
  ]

  Above-erase : (i k : String) (m : Map V) → Above i m → Above i (erase k m)
  unfolding erase
  Above-erase i k [] a = tt
  Above-erase i k ((j, v) ∷ m) a = let rest = Above-erase i k m a.1 in ground (arith, rest)

  pub erase-IsSorted : (k : String) (m : Map V) → IsSorted m → IsSorted (erase k m)
  unfolding erase
  erase-IsSorted k [] s = tt
  erase-IsSorted k ((j, v) ∷ m) s =
      let rest = erase-IsSorted k m s.1 in
      let low = Above-erase j k m s.0 in ground (arith, rest, low)

  pub lookup_below : (k : String) (m : Map V) → Above k m → lookup k m ≡ none
  unfolding lookup
  lookup_below k [] a = refl
  lookup_below k ((j, v) ∷ m) a = ground (arith, ==_iff j k, key_lt_irrefl k, lookup_below k m a.1)

  -- Sorted entries are determined by the lookups: a std::map is a finite function.
  pub eq_of_lookup :
      (m n : Map V) → IsSorted m → IsSorted n → ((k : String) → lookup k m ≡ lookup k n) → m ≡ n
  eq_of_lookup [] [] s t h = refl
  eq_of_lookup [] ((k, v) ∷ n) s t h = cc (h k, lookup_head k v n, lookup_below k [] tt)
  eq_of_lookup ((k, v) ∷ m) [] s t h = cc (h k, lookup_head k v m, lookup_below k [] tt)
  eq_of_lookup ((k, v) ∷ m) ((j, w) ∷ n) s t h = elim (Bool-cases (key_lt k j)) [
    | inl lt ↦
        cc (h k, lookup_head k v m, lookup_below k ((j, w) ∷ n) (lt, Above-trans k j n lt t.0))
    | inr ge ↦ elim (Bool-cases (k == j)) [
      | inl e ↦
          let same : k ≡ j = (==_iff k j).0 e in
          let value : v ≡ w = cc (h k, lookup_head k v m, lookup_head j w n) in
          let rest : m ≡ n = eq_of_lookup m n s.1 t.1 (λ i. elim (Bool-cases (k == i)) [
            | inl at ↦
                let here : k ≡ i = (==_iff k i).0 at in
                cc (lookup_below k m s.0, lookup_below j n t.0)
            | inr off ↦
                let apart : k ≢ i = λ e. ground (arith, ==_iff k i) in
                let off' : j ≢ i = λ e. apart (same ∙ e) in
                cc (h i, lookup_skip i k v m apart, lookup_skip i j w n off')
          ]) in
          cc
      | inr ne ↦
          let up = key_lt_total k j ge (λ e. ground (arith, ==_iff k j)) in
          cc (h j, lookup_head j w n, lookup_below j ((k, v) ∷ m) (up, Above-trans j k m up s.0))
    ]
  ]

-- The values of a map through a function.
abbrev pub map_values {ℓ κ} : {A : Type ℓ} {B : Type κ} → (A → B) → Map A → Map B
map_values f [] = []
map_values f ((k, v) ∷ m) = (k, f v) ∷ map_values f m

module _ {ℓ κ} {A : Type ℓ} {B : Type κ} (f : A → B) where
  pub map_values-Above : (k : String) (m : Map A) → Above k m → Above k (map_values f m)
  map_values-Above k [] a = tt
  map_values-Above k ((j, v) ∷ m) a = (a.0, map_values-Above k m a.1)

  pub map_values-IsSorted : (m : Map A) → IsSorted m → IsSorted (map_values f m)
  map_values-IsSorted [] s = tt
  map_values-IsSorted ((k, v) ∷ m) s = (map_values-Above k m s.0, map_values-IsSorted m s.1)
