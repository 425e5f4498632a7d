-- ===== src/Metadata/Equality.antt =====
-- What operator== of Metadata decides.
use monio.Base.{
  ℕ, String, ◌≡◌, refl, sym, ◌∙◌, ◌≢◌, Bool, true, false, ◌&&◌, List, [], ◌∷◌, ℤ, length,
  if◌then◌else◌, ◌==◌, nat_eq, string_eq, int_eq, ==_iff, not, to_int32, arith, inl, inr,
  Bool-cases, ==_ne,
}
use monio.Constants.{data_type_eq, number}
use monio.Values.{Double, double_eq}
use monio.Map.{Map}
use monio.Variable.{
  Attribute, attribute_string, attribute_int, attribute_double, Variable, get_total_size,
}
use monio.Heap.{Heap, Pointer, deref-cases}
use monio.Metadata.{Metadata}
use monio.Metadata.Compare.{
  same_values, same_dims, same_attribute, same_attributes, same_variable, same_variables,
  metadata_eq,
}

double_eq_comm : (a b : Double) → double_eq a b ≡ double_eq b a
unfolding double_eq
double_eq_comm a b = ground arith

==_comm_ℕ : (a b : ℕ) → (a == b) ≡ (b == a)
==_comm_ℕ a b = ground arith

==_comm_String : (a b : String) → (a == b) ≡ (b == a)
==_comm_String a b = ground (arith, ==_iff a b, ==_iff b a)

==_comm_ℤ : (a b : ℤ) → (a == b) ≡ (b == a)
==_comm_ℤ a b = ground (arith, ==_iff a b, ==_iff b a)

same_values_comm : (a b : Map ℤ) → length a ≡ length b → same_values a b ≡ same_values b a
unfolding same_values
same_values_comm [] [] h = refl
same_values_comm [] (y ∷ b) h = absurd (omega arith)
same_values_comm (x ∷ a) [] h = absurd (omega arith)
same_values_comm ((n, v) ∷ a) ((m, w) ∷ b) h =
    rw (==_comm_ℤ v w, same_values_comm a b (omega arith))

same_dims_comm : (a b : List (String × ℕ)) → length a ≡ length b → same_dims a b ≡ same_dims b a
unfolding same_dims
same_dims_comm [] [] h = refl
same_dims_comm [] (y ∷ b) h = absurd (omega arith)
same_dims_comm (x ∷ a) [] h = absurd (omega arith)
same_dims_comm ((n, v) ∷ a) ((m, w) ∷ b) h =
    rw (==_comm_String n m, ==_comm_ℕ v w, same_dims_comm a b (omega arith))

same_attribute_comm : (a b : Attribute) → same_attribute a b ≡ same_attribute b a
unfolding same_attribute
same_attribute_comm (attribute_double n v) (attribute_double m w) =
    rw (==_comm_String n m, double_eq_comm v w)
same_attribute_comm (attribute_int n v) (attribute_int m w) = rw (==_comm_String n m, ==_comm_ℤ v w)
same_attribute_comm (attribute_string n v) (attribute_string m w) =
    rw (==_comm_String n m, ==_comm_String v w)
same_attribute_comm (attribute_double n v) (attribute_int m w) = refl
same_attribute_comm (attribute_double n v) (attribute_string m w) = refl
same_attribute_comm (attribute_int n v) (attribute_double m w) = refl
same_attribute_comm (attribute_int n v) (attribute_string m w) = refl
same_attribute_comm (attribute_string n v) (attribute_double m w) = refl
same_attribute_comm (attribute_string n v) (attribute_int m w) = refl

same_attributes_comm :
    (a b : Map Attribute) → length a ≡ length b → same_attributes a b ≡ same_attributes b a
unfolding same_attributes
same_attributes_comm [] [] h = refl
same_attributes_comm [] (y ∷ b) h = absurd (omega arith)
same_attributes_comm (x ∷ a) [] h = absurd (omega arith)
same_attributes_comm ((n, v) ∷ a) ((m, w) ∷ b) h =
    rw (same_attribute_comm v w, same_attributes_comm a b (omega arith))

-- The test of the scalar parts.
abbrev head_test : Variable → Variable → Bool
head_test v w =
    v.name == w.name
    && v.type == w.type
    && to_int32 (get_total_size v) == to_int32 (get_total_size w)
    && length v.dimensions == length w.dimensions

head_test_comm : (v w : Variable) → head_test v w ≡ head_test w v
head_test_comm v w = rw (
  ==_comm_String v.name w.name,
  ==_comm_ℤ (to_int32 (get_total_size v)) (to_int32 (get_total_size w)),
  ==_comm_ℕ (length v.dimensions) (length w.dimensions),
  ==_comm_ℕ (number v.type) (number w.type),
)

head_test-length :
    (v w : Variable) → head_test v w ≡ true → length v.dimensions ≡ length w.dimensions
head_test-length v w h = ground arith

same_attribute_lists_comm :
    (a b : Map Attribute)
    → (if length a == length b then same_attributes a b else false)
      ≡ (if length b == length a then same_attributes b a else false)
same_attribute_lists_comm a b = elim (Bool-cases (length a == length b)) [
  | inl same ↦
      rw (==_comm_ℕ (length b) (length a), same)
        (same_attributes_comm a b ((==_iff (length a) (length b)).0 same))
  | inr other ↦ rw (==_comm_ℕ (length b) (length a), other)
]

same_variable_comm : (v w : Variable) → same_variable v w ≡ same_variable w v
unfolding same_variable
same_variable_comm v w = elim (Bool-cases (head_test v w)) [
  | inr other ↦ rw (other, sym (head_test_comm v w) ∙ other)
  | inl same ↦ rw (
    same,
    sym (head_test_comm v w) ∙ same,
    same_dims_comm v.dimensions w.dimensions (head_test-length v w same),
    same_attribute_lists_comm v.attributes w.attributes,
  )
]

same_variables_comm :
    (h : Heap) (a b : Map Pointer)
    → length a ≡ length b
    → same_variables h a b ≡ same_variables h b a
unfolding same_variables
same_variables_comm h [] [] e = refl
same_variables_comm h [] (y ∷ b) e = absurd (omega arith)
same_variables_comm h (x ∷ a) [] e = absurd (omega arith)
same_variables_comm h ((n, p) ∷ a) ((m, q) ∷ b) e =
    let rest = same_variables_comm h a b (omega arith) in
    elim (deref-cases h p) [
      | inl bad ↦ elim (deref-cases h q) [
        | inl bad' ↦ rw (bad, bad')
        | inr (w, good') ↦ rw (bad, good')
      ]
      | inr (v, good) ↦ elim (deref-cases h q) [
        | inl bad' ↦ rw (good, bad')
        | inr (w, good') ↦ rw (good, good', same_variable_comm v w, rest)
      ]
    ]

-- The test that finds a difference of dimensions.
abbrev dimension_part : Map ℤ → Map ℤ → Bool
dimension_part a b = length a == length b && not (same_values a b)

dimension_part_comm : (a b : Map ℤ) → dimension_part a b ≡ dimension_part b a
dimension_part_comm a b = elim (Bool-cases (length a == length b)) [
  | inl same ↦ rw (
    ==_comm_ℕ (length b) (length a),
    same,
    same_values_comm a b ((==_iff (length a) (length b)).0 same),
  )
  | inr other ↦ rw (==_comm_ℕ (length b) (length a), other)
]

-- operator== does not depend on the order of its operands.
pub metadata_eq_comm : (h : Heap) (a b : Metadata) → metadata_eq h a b ≡ metadata_eq h b a
unfolding metadata_eq
metadata_eq_comm h a b =
    rw
      (
        ==_comm_ℕ (length a.variables) (length b.variables),
        dimension_part_comm a.dimensions b.dimensions,
      )
      (elim (Bool-cases (length b.variables == length a.variables)) [
        | inl same ↦ rw (
          same,
          same_variables_comm h a.variables b.variables
              (sym ((==_iff (length b.variables) (length a.variables)).0 same)),
        )
        | inr other ↦ rw other
      ])

-- Where the numbers of dimensions differ, operator== passes over the dimensions: the result is the
-- one for operands that have no dimensions at all.
pub metadata_eq_dimensions :
    (h : Heap) (a b : Metadata)
    → length a.dimensions ≢ length b.dimensions
    → metadata_eq h a b
      ≡ metadata_eq h (record a { dimensions = [] }) (record b { dimensions = [] })
unfolding metadata_eq
metadata_eq_dimensions h a b n = rw (==_ne (length a.dimensions) (length b.dimensions) n)
