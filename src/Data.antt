-- ===== src/Data.antt =====
-- src/monio/Data.cc: the data containers of a file by name. A container is filled before it is
-- added and not changed afterwards, so that the model may keep it by value.
pub mod Containers
pub mod Equality
pub mod Removal
use monio.Base.{
  ℕ, String, Bool, true, false, List, [], ◌∷◌, Option, none, some, ℤ, length, if◌then◌else◌, ◌==◌,
  nat_eq, string_eq, int_eq, ◌&&◌, not,
}
use monio.Result.{Result, ok, err, container_not_found}
use monio.Constants.{data_type_eq}
use monio.Values.{Double, Float, double_eq, float_eq}
use monio.Map.{Map, lookup, contains, insert, erase}
use monio.Utils.{extract_keys, find_in_vector}
use monio.Container.{Container, DataContainer, doubles, floats, ints, get_name, get_type}

pub record Data : Type 0 where
  pub data_containers : Map DataContainer

abbrev pub empty : Data
empty = record { data_containers = [] }

-- compareData, over the `==` of the values.
unfoldable pub same_elements : {T : Type 0} → (T → T → Bool) → List T → List T → Bool
same_elements eq [] rhs = true
same_elements eq (l ∷ lhs) [] = true
same_elements eq (l ∷ lhs) (r ∷ rhs) = if eq l r then same_elements eq lhs rhs else false

unfoldable pub compare_data : {T : Type 0} → (T → T → Bool) → List T → List T → Bool
unfolding same_elements
compare_data eq lhs rhs = if length lhs == length rhs then same_elements eq lhs rhs else false

-- The switch of operator==, on containers of one type.
unfoldable pub same_values : DataContainer → DataContainer → Bool
same_values (doubles c) (doubles d) = compare_data double_eq c.data_vector d.data_vector
same_values (floats c) (floats d) = compare_data float_eq c.data_vector d.data_vector
same_values (ints c) (ints d) = compare_data (λ a b. a == b) c.data_vector d.data_vector
same_values _ _ = false

unfoldable pub same_container : DataContainer → DataContainer → Bool
unfolding same_values compare_data
same_container c d =
    if get_type c == get_type d && get_name c == get_name d then same_values c d else false

unfoldable pub same_containers : Map DataContainer → Map DataContainer → Bool
unfolding same_container
same_containers [] rhs = true
same_containers (l ∷ lhs) [] = true
same_containers ((n, c) ∷ lhs) ((m, d) ∷ rhs) =
    if same_container c d then same_containers lhs rhs else false

unfoldable pub data_eq : Data → Data → Bool
data_eq lhs rhs =
    if length lhs.data_containers == length rhs.data_containers
    then same_containers lhs.data_containers rhs.data_containers
    else false

unfoldable pub add_container : Data → DataContainer → Data
add_container d c =
    if contains (get_name c) d.data_containers
    then d
    else record d { data_containers = insert (get_name c) c d.data_containers }

unfoldable pub delete_container : Data → String → Data
delete_container d name =
    if contains name d.data_containers
    then record d { data_containers = erase name d.data_containers }
    else d

-- The loop of removeAllButTheseContainers over the keys.
pub remove_keys : List String → List String → Data → Data
remove_keys names [] d = d
remove_keys names (key ∷ keys) d =
    remove_keys names keys (if find_in_vector names key then d else delete_container d key)

unfoldable pub remove_all_but_these_containers : Data → List String → Data
unfolding remove_keys delete_container
remove_all_but_these_containers d names = remove_keys names (extract_keys d.data_containers) d

unfoldable pub is_container_present : Data → String → Bool
is_container_present d name = contains name d.data_containers

unfoldable pub get_container : Data → String → Result DataContainer
get_container d name = elim (lookup name d.data_containers) [
  | none ↦ err (container_not_found name)
  | some c ↦ ok c
]

unfoldable pub get_data_container_names : Data → List String
get_data_container_names d = extract_keys d.data_containers

unfoldable pub clear : Data → Data
clear d = record { data_containers = [] }
