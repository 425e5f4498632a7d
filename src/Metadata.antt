-- ===== src/Metadata.antt =====
-- src/monio/Metadata.cc: the dimensions, global attributes and variables of a file.
pub mod Compare
pub mod Equality
pub mod Removal
pub mod Shared
pub mod Additions
pub mod Convention
use monio.Base.{
  ℕ, zero, suc, String, Bool, true, false, ◌&&◌, ◌||◌, List, [], ◌∷◌, Option, none, some, ℤ, pos,
  negsuc, length, codes, if◌then◌else◌, ◌==◌, nat_eq, string_eq, int_eq, not,
}
use monio.Result.{
  Result, ok, err, ◌>>=◌, throw_if, ◌>>◌, dimension_not_found, variable_not_found,
  unmatched_attributes, undefined_access,
}
use monio.Constants.{not_found_error, variable_convention_name, naming_conventions}
use monio.Map.{Map, lookup, contains, insert, erase}
use monio.Utils.{extract_keys, find_pos_in_vector, find_in_vector}
use monio.Variable.{
  Attribute, attribute_string, attribute_int, attribute_double, Variable, get_str_attr,
}
use monio.Variable
use monio.Heap.{Heap, Pointer, deref, update}

pub record Metadata : Type 0 where
  pub dimensions : Map ℤ
  pub global_attrs : Map Attribute
  pub variables : Map Pointer

abbrev pub empty : Metadata
empty = record { dimensions = []; global_attrs = []; variables = [] }

unfoldable pub is_dim_defined : Metadata → String → Bool
is_dim_defined m name = contains name m.dimensions

unfoldable pub get_dimension : Metadata → String → Result ℤ
get_dimension m name = elim (lookup name m.dimensions) [
  | none ↦ err (dimension_not_found name)
  | some value ↦ ok value
]

-- The loop of getDimensionName over the dimensions.
unfoldable pub name_of_value : ℤ → Map ℤ → String
name_of_value value [] = not_found_error
name_of_value value ((name, v) ∷ dims) = if v == value then name else name_of_value value dims

unfoldable pub get_dimension_name : Metadata → ℤ → String
unfolding name_of_value
get_dimension_name m value = name_of_value value m.dimensions

unfoldable pub get_variable : Metadata → String → Result Pointer
get_variable m name = elim (lookup name m.variables) [
  | none ↦ err (variable_not_found name)
  | some p ↦ ok p
]

unfoldable pub get_variables : Metadata → List String → Result (List Pointer)
unfolding get_variable
get_variables m [] = ok []
get_variables m (name ∷ names) = do p ← get_variable m name; ps ← get_variables m names; ok (p ∷ ps)

str_attrs : Heap → List Pointer → String → Result (List String)
str_attrs h [] attr = ok []
str_attrs h (p ∷ ps) attr = do
  v ← deref h p
  value ← get_str_attr v attr
  values ← str_attrs h ps attr
  ok (value ∷ values)

unfoldable pub get_var_str_attrs : Heap → Metadata → List String → String → Result (List String)
unfolding get_variables str_attrs
get_var_str_attrs h m names attr = do
  ps ← get_variables m names
  values ← str_attrs h ps attr
  throw_if (not (length names == length values)) unmatched_attributes
  ok values

unfoldable pub add_dimension : Metadata → String → ℤ → Metadata
add_dimension m name value =
    if contains name m.dimensions
    then m
    else record m { dimensions = insert name value m.dimensions }

unfoldable pub add_global_attr : Metadata → String → Attribute → Metadata
add_global_attr m name attr =
    if contains name m.global_attrs
    then m
    else record m { global_attrs = insert name attr m.global_attrs }

unfoldable pub add_variable : Metadata → String → Pointer → Metadata
add_variable m name p =
    if contains name m.variables then m else record m { variables = insert name p m.variables }

unfoldable pub get_dimension_names : Metadata → List String
get_dimension_names m = extract_keys m.dimensions

unfoldable pub get_variable_names : Metadata → List String
get_variable_names m = extract_keys m.variables

unfoldable pub get_global_attr_names : Metadata → List String
get_global_attr_names m = extract_keys m.global_attrs

-- std::string::find(term) != npos
unfoldable pub begins_with : List ℕ → List ℕ → Bool
begins_with text [] = true
begins_with [] (t ∷ ts) = false
begins_with (c ∷ cs) (t ∷ ts) = c == t && begins_with cs ts

unfoldable pub holds_text : List ℕ → List ℕ → Bool
unfolding begins_with
holds_text [] term = begins_with [] term
holds_text (c ∷ cs) term = begins_with (c ∷ cs) term || holds_text cs term

matching : String → List String → List String
matching term [] = []
matching term (key ∷ keys) =
    let rest = matching term keys in
    if holds_text (codes key) (codes term) then key ∷ rest else rest

unfoldable pub find_variable_names : Metadata → String → List String
unfolding matching holds_text
find_variable_names m term = matching term (extract_keys m.variables)

-- A dynamic_pointer_cast of another class gives a null pointer, which is then read.
pub convention_text : Attribute → Result String
convention_text (attribute_string name value) = ok value
convention_text (attribute_int name value) = err undefined_access
convention_text (attribute_double name value) = err undefined_access

pub convention_from : ℤ → Map Attribute → Result ℤ
convention_from convention [] = ok convention
convention_from convention ((name, attr) ∷ attrs) =
    if name == variable_convention_name
    then (do
      text ← convention_text attr
      let position = find_pos_in_vector naming_conventions text
      convention_from (if not (position == negsuc 0) then position else convention) attrs)
    else convention_from convention attrs

unfoldable pub get_variable_convention : Metadata → Result ℤ
unfolding convention_from convention_text
get_variable_convention m = convention_from (pos 0) m.global_attrs

unfoldable pub delete_variable : Metadata → String → Result Metadata
delete_variable m name =
    if contains name m.variables
    then ok (record m { variables = erase name m.variables })
    else err (variable_not_found name)

-- The loop of removeAllButTheseVariables over the keys.
pub remove_keys : List String → List String → Metadata → Result Metadata
remove_keys names [] m = ok m
remove_keys names (key ∷ keys) m =
    (if find_in_vector names key then ok m else delete_variable m key) >>= λ kept.
    remove_keys names keys kept

unfoldable pub remove_all_but_these_variables : Metadata → List String → Result Metadata
unfolding remove_keys delete_variable
remove_all_but_these_variables m names = remove_keys names (extract_keys m.variables) m

-- deleteDimension of every variable, in place.
unfoldable pub delete_from_variables : String → Map Pointer → Heap → Heap
delete_from_variables name [] h = h
delete_from_variables name ((key, p) ∷ variables) h =
    delete_from_variables name variables (update h p (λ v. Variable.delete_dimension v name))

unfoldable pub delete_dimension : Heap → Metadata → String → Heap × Metadata
unfolding delete_from_variables update
delete_dimension h m name = (
  delete_from_variables name m.variables h,
  if contains name m.dimensions then record m { dimensions = erase name m.dimensions } else m,
)

-- The dimensions stay: variables that are written later need them.
unfoldable pub clear : Metadata → Metadata
clear m = record m { variables = []; global_attrs = [] }

unfoldable pub clear_global_attributes : Metadata → Metadata
clear_global_attributes m = record m { global_attrs = [] }
