-- ===== src/Heap/Trims.antt =====
-- Heaps in which the variables that were there have lost dimensions of two names at most.
use monio.Base.{
  ℕ, ◌≡◌, refl, ◌∙◌, String, ◌||◌, true, List, [], ◌∷◌, some, get_elem?, lt_of_get_elem?,
  if◌then◌else◌, ◌==◌, string_eq, nat_eq, ==_iff, Bool-cases, inl, inr,
}
use monio.Variable.{Variable, has_dimension, erase_dimension}
use monio.Variable
use monio.Heap.{Heap, Pointer, update, make_shared}
use monio.Heap.Laws.{get_elem?-update}
use monio.Container.Datum.{get_elem?-append_left}

-- Every variable of the first heap stands in the second, as it is and at its place.
abbrev pub Extends : Heap → Heap → Type 0
Extends h h' = (p : Pointer) (v : Variable) → get_elem? h p ≡ some v → get_elem? h' p ≡ some v

pub Extends-make_shared : (h : Heap) (v : Variable) → Extends h (make_shared h v).1
unfolding make_shared
Extends-make_shared h v p w q = get_elem?-append_left h (v ∷ []) p (lt_of_get_elem? h p w q) ∙ q

module _ (a b : String) where
  -- The dimensions under other names than the two.
  abbrev pub others : List (String × ℕ) → List (String × ℕ)
  others [] = []
  others ((name, size) ∷ dims) =
      let rest = others dims in if name == a || name == b then rest else (name, size) ∷ rest

  -- The second variable has the name, the type, the attributes and the other dimensions of the first.
  abbrev pub Trimmed : Variable → Variable → Type 0
  Trimmed v u =
      (u.name ≡ v.name)
      × (u.type ≡ v.type)
      × (u.attributes ≡ v.attributes)
      × (others u.dimensions ≡ others v.dimensions)

  -- Every variable of the first heap stands in the second at its place, trimmed.
  abbrev pub Trims : Heap → Heap → Type 0
  Trims h h' =
      (p : Pointer) (v : Variable)
      → get_elem? h p ≡ some v
      → (u : Variable) × (get_elem? h' p ≡ some u) × Trimmed v u

  pub Trims-refl : (h : Heap) → Trims h h
  Trims-refl h p v q = (v, q, (refl, refl, refl, refl))

  pub Extends-Trims : (h h' h'' : Heap) → Trims h h' → Extends h' h'' → Trims h h''
  Extends-Trims h h' h'' trims extends p v q =
      let (u, at_p, same) = trims p v q in (u, extends p u at_p, same)

  pub Trims-Trims : (h h' h'' : Heap) → Trims h h' → Trims h' h'' → Trims h h''
  Trims-Trims h h' h'' first second p v q =
      let (u, at_p, (name, type, attributes, dims)) = first p v q in
      let (w, at_p', (name', type', attributes', dims')) = second p u at_p in
      (w, at_p', (name' ∙ name, type' ∙ type, attributes' ∙ attributes, dims' ∙ dims))

  others-erase_dimension :
      (name : String) (dims : List (String × ℕ))
      → (name == a || name == b) ≡ true
      → others (erase_dimension name dims) ≡ others dims
  unfolding erase_dimension
  others-erase_dimension name [] h = refl
  others-erase_dimension name ((n, size) ∷ dims) h =
      let rest = others-erase_dimension name dims h in
      elim (Bool-cases (n == name)) [
        | inl here ↦
            let same : n ≡ name = (==_iff n name).0 here in
            let listed : (n == a || n == b) ≡ true = rw (← same) at h in rw (here, listed)
        | inr past ↦ rw (past, rest)
      ]

  Trimmed-delete_dimension :
      (name : String) (v : Variable)
      → (name == a || name == b) ≡ true
      → Trimmed v (Variable.delete_dimension v name)
  unfolding Variable.delete_dimension
  Trimmed-delete_dimension name v h = elim (Bool-cases (has_dimension name v.dimensions)) [
    | inl there ↦ rw there (refl, refl, refl, others-erase_dimension name v.dimensions h)
    | inr gone ↦ rw gone (refl, refl, refl, refl)
  ]

  pub Trims-update :
      (name : String) (h : Heap) (r : Pointer)
      → (name == a || name == b) ≡ true
      → Trims h (update h r (λ v. Variable.delete_dimension v name))
  Trims-update name h r listed p v q =
      let after = get_elem?-update h r p (λ v. Variable.delete_dimension v name) in
      elim (Bool-cases (r == p)) [
        | inl here ↦ (
          Variable.delete_dimension v name,
          after ∙ (rw (here, q)),
          Trimmed-delete_dimension name v listed,
        )
        | inr apart ↦ (v, after ∙ (rw apart q), (refl, refl, refl, refl))
      ]
