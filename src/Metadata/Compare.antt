-- ===== src/Metadata/Compare.antt =====
-- operator== of Metadata.cc.
use monio.Base.{
  ℕ, String, Bool, true, false, ◌&&◌, ◌||◌, List, [], ◌∷◌, ℤ, length, if◌then◌else◌, ◌==◌, nat_eq,
  string_eq, int_eq, not, to_int32,
}
use monio.Result.{Result, ok, ◌>>=◌}
use monio.Constants.{data_type_eq}
use monio.Values.{double_eq}
use monio.Map.{Map}
use monio.Variable.{
  Attribute, attribute_string, attribute_int, attribute_double, Variable, get_total_size,
}
use monio.Heap.{Heap, Pointer, deref}
use monio.Metadata.{Metadata}

-- The loop over the dimensions compares the values and not the names.
unfoldable pub same_values : Map ℤ → Map ℤ → Bool
same_values [] rhs = true
same_values (l ∷ lhs) [] = true
same_values ((n, v) ∷ lhs) ((m, w) ∷ rhs) = if v == w then same_values lhs rhs else false

-- The loop over the dimensions of two variables.
unfoldable pub same_dims : List (String × ℕ) → List (String × ℕ) → Bool
same_dims [] rhs = true
same_dims (l ∷ lhs) [] = true
same_dims ((n, v) ∷ lhs) ((m, w) ∷ rhs) =
    if not (n == m) || not (v == w) then false else same_dims lhs rhs

-- One pair of attributes: the class, the name, then the value.
unfoldable pub same_attribute : Attribute → Attribute → Bool
same_attribute (attribute_double n v) (attribute_double m w) = n == m && double_eq v w
same_attribute (attribute_int n v) (attribute_int m w) = n == m && v == w
same_attribute (attribute_string n v) (attribute_string m w) = n == m && v == w
same_attribute _ _ = false

unfoldable pub same_attributes : Map Attribute → Map Attribute → Bool
same_attributes [] rhs = true
same_attributes (l ∷ lhs) [] = true
same_attributes ((n, a) ∷ lhs) ((m, b) ∷ rhs) =
    if same_attribute a b then same_attributes lhs rhs else false

unfoldable pub same_variable : Variable → Variable → Bool
unfolding same_dims same_attributes same_attribute
same_variable lhs rhs =
    if lhs.name == rhs.name
      && lhs.type == rhs.type
      && to_int32 (get_total_size lhs) == to_int32 (get_total_size rhs)
      && length lhs.dimensions == length rhs.dimensions
    then if same_dims lhs.dimensions rhs.dimensions
      then if length lhs.attributes == length rhs.attributes
        then same_attributes lhs.attributes rhs.attributes
        else false
      else false
    else false

unfoldable pub same_variables : Heap → Map Pointer → Map Pointer → Result Bool
same_variables h [] rhs = ok true
same_variables h (l ∷ lhs) [] = ok true
same_variables h ((n, p) ∷ lhs) ((m, q) ∷ rhs) = do
  v ← deref h p
  w ← deref h q
  if same_variable v w then same_variables h lhs rhs else ok false

unfoldable pub metadata_eq : Heap → Metadata → Metadata → Result Bool
unfolding same_values same_variables same_variable
metadata_eq h lhs rhs =
    if length lhs.dimensions == length rhs.dimensions
      && not (same_values lhs.dimensions rhs.dimensions)
    then ok false
    else if length lhs.variables == length rhs.variables
    then same_variables h lhs.variables rhs.variables
    else ok false
