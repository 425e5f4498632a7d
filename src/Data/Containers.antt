-- ===== src/Data/Containers.antt =====
-- When two containers are equal: a description that does not use the comparisons of
-- src/monio/Data.cc, and that these decide it.
use monio.Base.{◌≡◌, ◌↔◌, Bool, true, List, [], ◌∷◌, arith, ◌==◌, nat_eq, int_eq, string_eq, ==_iff}
use monio.Constants.{data_type_eq}
use monio.Values.{double_eq, float_eq}
use monio.Values.Equality.{SameDouble, SameFloat, double_eq_iff, float_eq_iff}
use monio.Container.{DataContainer, doubles, floats, ints, get_name, get_type}
use monio.Data.{same_elements, compare_data, same_values, same_container}

-- As many values in both, and related ones at each place.
abbrev pub Pairwise : {T : Type 0} → (T → T → Type 0) → List T → List T → Type 0
Pairwise R [] [] = Unit {0}
Pairwise R (x ∷ xs) (y ∷ ys) = R x y × Pairwise R xs ys
Pairwise R [] (y ∷ ys) = ⊥
Pairwise R (x ∷ xs) [] = ⊥

-- The same class, the same name and the same values in the same order.
abbrev pub SameContainer : DataContainer → DataContainer → Type 0
SameContainer (doubles c) (doubles d) =
    (c.name ≡ d.name) × Pairwise SameDouble c.data_vector d.data_vector
SameContainer (floats c) (floats d) =
    (c.name ≡ d.name) × Pairwise SameFloat c.data_vector d.data_vector
SameContainer (ints c) (ints d) =
    (c.name ≡ d.name) × Pairwise (λ a b. a ≡ b) c.data_vector d.data_vector
SameContainer _ _ = ⊥

module _ {T : Type 0} (eq : T → T → Bool) (R : T → T → Type 0)
    (eq_iff : (x y : T) → (eq x y ≡ true) ↔ R x y) where
  compare_data_iff : (xs ys : List T) → (compare_data eq xs ys ≡ true) ↔ Pairwise R xs ys
  unfolding compare_data same_elements
  compare_data_iff [] [] = ground arith
  compare_data_iff [] (y ∷ ys) = ground arith
  compare_data_iff (x ∷ xs) [] = ground arith
  compare_data_iff (x ∷ xs) (y ∷ ys) =
      let rest : (compare_data eq xs ys ≡ true) ↔ Pairwise R xs ys = compare_data_iff xs ys in
      let here = eq_iff x y in ground arith

pub same_container_iff : (c d : DataContainer) → (same_container c d ≡ true) ↔ SameContainer c d
unfolding same_container same_values get_name get_type
same_container_iff (doubles c) (doubles d) =
    let values = compare_data_iff double_eq SameDouble double_eq_iff c.data_vector d.data_vector in
    ground (arith, ==_iff c.name d.name)
same_container_iff (floats c) (floats d) =
    let values = compare_data_iff float_eq SameFloat float_eq_iff c.data_vector d.data_vector in
    ground (arith, ==_iff c.name d.name)
same_container_iff (ints c) (ints d) =
    let values =
      compare_data_iff (λ a b. a == b) (λ a b. a ≡ b) (λ a b. ==_iff a b) c.data_vector
        d.data_vector in
    ground (arith, ==_iff c.name d.name)
same_container_iff (doubles c) (floats d) = ground arith
same_container_iff (doubles c) (ints d) = ground arith
same_container_iff (floats c) (doubles d) = ground arith
same_container_iff (floats c) (ints d) = ground arith
same_container_iff (ints c) (doubles d) = ground arith
same_container_iff (ints c) (floats d) = ground arith
