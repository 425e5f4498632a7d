-- ===== src/Data/Equality.antt =====
-- operator== of Data compares the containers name by name.
use monio.Base.{
  suc, String, ◌≡◌, refl, ap, sym, ◌∙◌, ◌≢◌, ◌↔◌, true, false, Option, none, some, [], ◌∷◌, arith,
  length, ◌==◌, nat_eq, string_eq, ==_iff, Bool-cases, inl, inr, subst,
}
use monio.Map.{Map, lookup}
use monio.Map.Order.{key_lt, key_lt_total}
use monio.Map.Laws.{lookup_head, lookup_skip}
use monio.Map.Sorted.{IsSorted, Above-trans, lookup_below}
use monio.Container.{DataContainer, get_name}
use monio.Constants.{data_type_eq}
use monio.Data.Containers.{SameContainer, same_container_iff}
use monio.Data.{Data, same_container, same_containers, data_eq}

-- Every container stands under its own name.
abbrev pub Named : Map DataContainer → Type 0
Named [] = Unit {0}
Named ((k, c) ∷ m) = (get_name c ≡ k) × Named m

-- Two lookups that the comparison accepts.
abbrev Accepted : Option DataContainer → Option DataContainer → Type 0
Accepted none none = Unit {0}
Accepted (some c) (some d) = same_container c d ≡ true
Accepted none (some d) = ⊥
Accepted (some c) none = ⊥

same_container-name : (c d : DataContainer) → same_container c d ≡ true → get_name c ≡ get_name d
unfolding same_container
same_container-name c d h = ground (arith, ==_iff (get_name c) (get_name d))

same_containers-Accepted :
    (a b : Map DataContainer)
    → Named a
    → Named b
    → length a ≡ length b
    → same_containers a b ≡ true
    → (k : String) → Accepted (lookup k a) (lookup k b)
unfolding same_containers lookup
same_containers-Accepted [] [] n p e h k = tt
same_containers-Accepted [] (y ∷ b) n p e h k = absurd (omega arith)
same_containers-Accepted (x ∷ a) [] n p e h k = absurd (omega arith)
same_containers-Accepted ((i, c) ∷ a) ((j, d) ∷ b) n p e h k =
    let head : same_container c d ≡ true = ground arith in
    let tail : same_containers a b ≡ true = ground arith in
    let keys : i ≡ j = sym n.0 ∙ same_container-name c d head ∙ p.0 in
    let rest = same_containers-Accepted a b n.1 p.1 (omega arith) tail k in
    elim (Bool-cases (i == k)) [
      | inl here ↦ let there : (j == k) ≡ true = rw (← keys) here in rw (here, there) head
      | inr past ↦ let past' : (j == k) ≡ false = rw (← keys) past in rw (past, past') rest
    ]

Accepted-none : (o : Option DataContainer) → Accepted none o → o ≡ none
Accepted-none none h = refl
Accepted-none (some d) h = absurd h

none-Accepted : (o : Option DataContainer) → Accepted o none → o ≡ none
none-Accepted none h = refl
none-Accepted (some d) h = absurd h

module _ (i j : String) (c d : DataContainer) (a b : Map DataContainer) (s : IsSorted ((i, c) ∷ a))
    (t : IsSorted ((j, d) ∷ b))
    (same : (k : String) → Accepted (lookup k ((i, c) ∷ a)) (lookup k ((j, d) ∷ b))) where
  same_keys : i ≡ j
  same_keys = elim (Bool-cases (key_lt i j)) [
    | inl lt ↦
        let gone = lookup_below i ((j, d) ∷ b) (lt, Above-trans i j b lt t.0) in
        let left = none-Accepted _ (subst (Accepted (lookup i ((i, c) ∷ a))) gone (same i)) in
        cc (lookup_head i c a)
    | inr ge ↦ elim (Bool-cases (i == j)) [
      | inl e ↦ (==_iff i j).0 e
      | inr ne ↦
          let up = key_lt_total i j ge (λ e. ground (arith, ==_iff i j)) in
          let gone = lookup_below j ((i, c) ∷ a) (up, Above-trans j i a up s.0) in
          let right =
            Accepted-none _ (subst (λ o. Accepted o (lookup j ((j, d) ∷ b))) gone (same j)) in
          cc (lookup_head j d b)
    ]
  ]

  same_heads : same_container c d ≡ true
  same_heads =
      let right : lookup i ((j, d) ∷ b) ≡ some d = rw (same_keys) (lookup_head j d b) in
      rw (lookup_head i c a, right) at (same i)

  Accepted-tails : (k : String) → Accepted (lookup k a) (lookup k b)
  Accepted-tails k = elim (Bool-cases (i == k)) [
    | inl here ↦
        let at_k : i ≡ k = (==_iff i k).0 here in
        let left : lookup k a ≡ none = rw (← at_k) (lookup_below i a s.0) in
        let right : lookup k b ≡ none = rw (← at_k, same_keys) (lookup_below j b t.0) in
        rw (left, right) tt
    | inr past ↦
        let apart : i ≢ k = λ e. ground (arith, ==_iff i k) in
        let apart' : j ≢ k = λ e. apart (same_keys ∙ e) in
        rw (lookup_skip k i c a apart, lookup_skip k j d b apart') at (same k)
  ]

Accepted→same_containers :
    (a b : Map DataContainer)
    → IsSorted a
    → IsSorted b
    → ((k : String) → Accepted (lookup k a) (lookup k b))
    → (length a ≡ length b) × (same_containers a b ≡ true)
unfolding same_containers
Accepted→same_containers [] [] s t h = (refl, refl)
Accepted→same_containers [] ((j, d) ∷ b) s t h =
    let bad : Accepted none (some d) =
      rw (lookup_below {V = DataContainer} j [] tt, lookup_head j d b) at (h j) in
    absurd bad
Accepted→same_containers ((i, c) ∷ a) [] s t h =
    let bad : Accepted (some c) none =
      rw (lookup_below {V = DataContainer} i [] tt, lookup_head i c a) at (h i) in
    absurd bad
Accepted→same_containers ((i, c) ∷ a) ((j, d) ∷ b) s t h =
    let heads = same_heads i j c d a b s t h in
    let (size, rest) = Accepted→same_containers a b s.1 t.1 (Accepted-tails i j c d a b s t h) in
    (ap suc size, rw heads rest)

-- Both lack it, or both hold one and the two are the same.
abbrev pub Same : Option DataContainer → Option DataContainer → Type 0
Same none none = Unit {0}
Same (some c) (some d) = SameContainer c d
Same none (some d) = ⊥
Same (some c) none = ⊥

Accepted-Same : (o p : Option DataContainer) → Accepted o p ↔ Same o p
Accepted-Same none none = ((λ h. h), (λ h. h))
Accepted-Same (some c) (some d) = same_container_iff c d
Accepted-Same none (some d) = ((λ h. h), (λ h. h))
Accepted-Same (some c) none = ((λ h. h), (λ h. h))

-- Two Data whose maps are ordered and hold each container under its own name are equal exactly when,
-- for every name, both lack it, or both hold a container of it with the same type, as many values,
-- and equal ones at each place: doubles and floats that are no NaN and have the same bits or are both
-- zeros, and ints that are the same.
pub data_eq_iff :
    (a b : Data)
    → IsSorted a.data_containers
    → IsSorted b.data_containers
    → Named a.data_containers
    → Named b.data_containers
    → (data_eq a b ≡ true)
      ↔ ((k : String) → Same (lookup k a.data_containers) (lookup k b.data_containers))
unfolding data_eq
data_eq_iff a b s t n p =
    let meaning =
      λ (k : String). Accepted-Same (lookup k a.data_containers) (lookup k b.data_containers) in
    (
      (λ h k.
          let size : length a.data_containers ≡ length b.data_containers = ground arith in
          (meaning k).0 (
            same_containers-Accepted a.data_containers b.data_containers n p size (ground arith)
              k)),
      (λ h.
          let (size, rest) =
            Accepted→same_containers a.data_containers b.data_containers s t
              (λ k. (meaning k).1 (h k)) in
          rw ((==_iff _ _).1 size) rest),
    )
