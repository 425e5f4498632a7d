-- ===== src/Variable.antt =====
-- src/monio/Variable.cc and the attribute classes (AttributeBase, AttributeDouble, AttributeInt,
-- AttributeString): a variable of a file, with its dimensions in order and its attributes.
pub mod Invariant
pub mod Laws
use monio.Base.{
  ℕ, zero, suc, ◌*◌, ◌%◌, ◌^◌, String, Bool, true, false, List, [], ◌∷◌, ◌++◌, map, Option, none,
  some, ℤ, if◌then◌else◌, ◌==◌, string_eq,
}
use monio.Result.{
  Result, ok, err, Error, attribute_not_found, attribute_not_coded, dimension_defined,
  attribute_defined,
}
use monio.Constants.{DataType}
use monio.Values.{Double}
use monio.Map.{Map, lookup, contains, insert, erase}

-- The classes derived from AttributeBase; `type_` is given by the class.
pub data Attribute : Type 0 where
  attribute_double : String → Double → Attribute
  attribute_int : String → ℤ → Attribute
  attribute_string : String → String → Attribute

unfoldable pub attribute_name : Attribute → String
attribute_name (attribute_double n v) = n
attribute_name (attribute_int n v) = n
attribute_name (attribute_string n v) = n

unfoldable pub attribute_type : Attribute → DataType
attribute_type (attribute_double n v) = DataType.double
attribute_type (attribute_int n v) = DataType.int
attribute_type (attribute_string n v) = DataType.string

pub record Variable : Type 0 where
  pub name : String
  pub type : DataType
  pub dimensions : List (String × ℕ)
  pub attributes : Map Attribute

unfoldable pub make_variable : String → DataType → Variable
make_variable name type = record { name = name; type = type; dimensions = []; attributes = [] }

-- The product of the sizes in a size_t, which wraps.
total_size_from : ℕ → List (String × ℕ) → ℕ
total_size_from total [] = total
total_size_from total ((n, size) ∷ dims) = total_size_from ((total * size) % 2 ^ 64) dims

unfoldable pub get_total_size : Variable → ℕ
unfolding total_size_from
get_total_size v = total_size_from 1 v.dimensions

unfoldable pub get_dimension_names : Variable → List String
get_dimension_names v = map (λ d. d.0) v.dimensions

unfoldable pub get_attribute : Variable → String → Result Attribute
get_attribute v name = elim (lookup name v.attributes) [
  | none ↦ err (attribute_not_found name)
  | some a ↦ ok a
]

string_value : Attribute → Result String
string_value (attribute_string n value) = ok value
string_value (attribute_double n value) = err attribute_not_coded
string_value (attribute_int n value) = err attribute_not_coded

unfoldable pub get_str_attr : Variable → String → Result String
unfolding string_value
get_str_attr v name = elim (lookup name v.attributes) [
  | none ↦ err (attribute_not_found name)
  | some a ↦ string_value a
]

-- std::find_if for a dimension of that name, != end()
unfoldable pub has_dimension : String → List (String × ℕ) → Bool
has_dimension name [] = false
has_dimension name ((n, size) ∷ dims) = if n == name then true else has_dimension name dims

-- erase of the first dimension of that name
unfoldable pub erase_dimension : String → List (String × ℕ) → List (String × ℕ)
erase_dimension name [] = []
erase_dimension name ((n, size) ∷ dims) =
    if n == name then dims else (n, size) ∷ erase_dimension name dims

unfoldable pub add_dimension : Variable → String → ℕ → Result Variable
add_dimension v name size =
    if has_dimension name v.dimensions
    then err (dimension_defined name)
    else ok (record v { dimensions = v.dimensions ++ (name, size) ∷ [] })

unfoldable pub add_attribute : Variable → Attribute → Result Variable
unfolding contains
add_attribute v a =
    let name = attribute_name a in
    if contains name v.attributes
    then err (attribute_defined name)
    else ok (record v { attributes = insert name a v.attributes })

unfoldable pub delete_dimension : Variable → String → Variable
delete_dimension v name =
    if has_dimension name v.dimensions
    then record v { dimensions = erase_dimension name v.dimensions }
    else v

unfoldable pub delete_attribute : Variable → String → Result Variable
unfolding contains
delete_attribute v name =
    if contains name v.attributes
    then ok (record v { attributes = erase name v.attributes })
    else err (attribute_not_found name)
