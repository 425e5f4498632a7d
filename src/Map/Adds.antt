-- ===== src/Map/Adds.antt =====
-- A map to which the entries of another are added one by one, as the lookups see it.
use monio.Base.{
  String, ◌≡◌, refl, ◌∙◌, sym, true, Option, none, some, [], ◌∷◌, ◌==◌, string_eq, ==_iff,
  if◌then◌else◌, Bool-cases, inl, inr,
}
use monio.Map.{Map, lookup}
use monio.Map.Sorted.{IsSorted, Above, eq_of_lookup, lookup_below}

abbrev pub or_else {ℓ} : {A : Type ℓ} → Option A → Option A → Option A
or_else none o = o
or_else (some a) o = some a

module _ {V : Type 0} where
  -- One entry is new, and all else is as it was.
  abbrev pub Adds : String → V → Map V → Map V → Type 0
  Adds k v before after =
      (j : String) → lookup j after ≡ (if k == j then some v else lookup j before)

  abbrev pub AddsAll : Map V → Map V → Map V → Type 0
  AddsAll m before after = (j : String) → lookup j after ≡ or_else (lookup j m) (lookup j before)

  -- No key of the first map is one of the second.
  abbrev pub Apart : Map V → Map V → Type 0
  Apart [] n = Unit {0}
  Apart ((k, v) ∷ m) n = (lookup k n ≡ none) × Apart m n

  pub Apart-empty : (m : Map V) → Apart m []
  unfolding lookup
  Apart-empty [] = tt
  Apart-empty ((k, v) ∷ m) = (refl, Apart-empty m)

  pub AddsAll-empty : (n : Map V) → AddsAll [] n n
  unfolding lookup
  AddsAll-empty n j = refl

  pub AddsAll-cons :
      (k : String) (v : V) (m before middle after : Map V)
      → Above k m
      → Adds k v before middle
      → AddsAll m middle after
      → AddsAll ((k, v) ∷ m) before after
  unfolding lookup
  AddsAll-cons k v m before middle after a one rest j = elim (Bool-cases (k == j)) [
    | inl here ↦
        let at_j : k ≡ j = (==_iff k j).0 here in
        let gone : lookup j m ≡ none = rw (← at_j) (lookup_below k m a) in
        let now : lookup j middle ≡ some v = one j ∙ rw here in rw here (rest j ∙ rw (gone, now))
    | inr past ↦
        let same : lookup j middle ≡ lookup j before = one j ∙ rw past in rw past (rest j ∙ rw same)
  ]

  pub Apart-Adds :
      (k : String) (v : V) (m before after : Map V)
      → Above k m
      → Adds k v before after
      → Apart m before
      → Apart m after
  unfolding lookup
  Apart-Adds k v [] before after a one h = tt
  Apart-Adds k v ((j, w) ∷ m) before after a one h = elim (Bool-cases (k == j)) [
    | inl here ↦
        let gone = lookup_below k ((j, w) ∷ m) a in
        let at_j : k ≡ j = (==_iff k j).0 here in
        let there : (j == k) ≡ true = (==_iff j k).1 (sym at_j) in
        let bad : some w ≡ none = rw there at gone in absurd cc
    | inr past ↦ (one j ∙ rw past h.0, Apart-Adds k v m before after a.1 one h.1)
  ]

  -- All of a map added to an empty one is the map.
  pub AddsAll-eq : (m after : Map V) → IsSorted m → IsSorted after → AddsAll m [] after → after ≡ m
  unfolding lookup
  AddsAll-eq m after s t all = eq_of_lookup after m t s (λ k. all k ∙ or_else_none (lookup k m))
    where
      or_else_none : (o : Option V) → or_else o none ≡ o
      or_else_none none = refl
      or_else_none (some v) = refl
