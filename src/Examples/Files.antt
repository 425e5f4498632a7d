-- ===== src/Examples/Files.antt =====
-- Metadata, variables and containers of small files.
use monio.Base.{
  string_eq, String, ◌≡◌, refl, ◌↔◌, true, [], ◌∷◌, ℤ, pos, negsuc, arith, if◌then◌else◌, none,
}
use monio.Constants.{DataType}
use monio.Map.{lookup}
use monio.Map.Order.{key_lt}
use monio.Map.Sorted.{IsSorted}
use monio.Variable.{Variable, has_dimension, attribute_name, attribute_string, attribute_int}
use monio.Variable.Invariant.{IsWf, adds_dimension, deletes_dimension, Keeps, run, run-IsWf}
use monio.Variable.Laws.{AddsDimension, add_dimension-cases, AddsAttribute, add_attribute-cases}
use monio.Utils.{find_in_vector}
use monio.Heap.{Heap}
use monio.Metadata.{Metadata}
use monio.Metadata.Compare.{metadata_eq}
use monio.Metadata.Equality.{metadata_eq_comm, metadata_eq_dimensions}
use monio.Metadata.Removal.{KeepsOnly, remove_all_but_these_variables-lookup}
use monio.Metadata.Shared.{DropsDimension, delete_dimension-get}
use monio.Container.{get_name, ints, Container}
use monio.Container.Datum.{ReadsDatum, get_datum-cases}
use monio.Data.{Data, data_eq, remove_all_but_these_containers}
use monio.Data.Equality.{Named, Same, data_eq_iff}
use monio.Data.Removal.{remove_all_but_these_containers-lookup}

abbrev theta : Variable
theta = record {
  name = "theta";
  type = DataType.double;
  dimensions = ("time_counter", 2) ∷ ("full_levels", 71) ∷ [];
  attributes = ("units", attribute_string "units" "K") ∷ [];
}

theta-IsWf : IsWf theta
unfolding has_dimension attribute_name
theta-IsWf = record { distinct = (refl, (refl, tt)); sorted = (tt, tt); named = (refl, tt) }

abbrev heap : Heap
heap = theta ∷ theta ∷ []

abbrev metadata : Metadata
metadata = record {
  dimensions = ("full_levels", pos 71) ∷ ("time_counter", pos 2) ∷ [];
  global_attrs = [];
  variables = ("rho", 0) ∷ ("theta", 1) ∷ [];
}

abbrev other : Metadata
other = record metadata { dimensions = [] }

abbrev temperature : Container ℤ
temperature = record { name = "theta"; data_vector = pos 3 ∷ negsuc 0 ∷ [] }

abbrev data_held : Data
data_held = record {
  data_containers =
      ("rho", ints (record temperature { name = "rho" })) ∷ ("theta", ints temperature) ∷ [];
}

rho_below_theta : key_lt "rho" "theta" ≡ true
unfolding key_lt
rho_below_theta = refl

two-Named : Named data_held.data_containers
unfolding get_name
two-Named = (refl, (refl, tt))

delete_dimension-get_example : DropsDimension heap metadata "time_counter"
delete_dimension-get_example =
    delete_dimension-get heap metadata "time_counter" (theta-IsWf, (theta-IsWf, tt))

remove_all_but_these_variables-lookup_example : KeepsOnly metadata ("theta" ∷ [])
remove_all_but_these_variables-lookup_example =
    remove_all_but_these_variables-lookup metadata ("theta" ∷ []) ((rho_below_theta, tt), (tt, tt))

metadata_eq_comm_example : metadata_eq heap metadata other ≡ metadata_eq heap other metadata
metadata_eq_comm_example = metadata_eq_comm heap metadata other

metadata_eq_dimensions_example :
    metadata_eq heap metadata other
    ≡ metadata_eq heap (record metadata { dimensions = [] }) (record other { dimensions = [] })
metadata_eq_dimensions_example = metadata_eq_dimensions heap metadata other (λ p. omega (arith, p))

run-IsWf_example :
    Keeps (run theta (deletes_dimension "time_counter" ∷ adds_dimension "time_counter" 4 ∷ []))
run-IsWf_example =
    run-IsWf theta (deletes_dimension "time_counter" ∷ adds_dimension "time_counter" 4 ∷ [])
      theta-IsWf

add_dimension-cases_example : AddsDimension theta "horizontal" 864
add_dimension-cases_example = add_dimension-cases theta "horizontal" 864

add_attribute-cases_example : AddsAttribute theta (attribute_int "valid_max" (pos 500))
add_attribute-cases_example = add_attribute-cases theta (attribute_int "valid_max" (pos 500))

get_datum-cases_example : ReadsDatum temperature 2
get_datum-cases_example = get_datum-cases temperature 2

data_eq_iff_example : (data_eq data_held data_held ≡ true) ↔ (
    (k : String) → Same (lookup k data_held.data_containers) (lookup k data_held.data_containers))
data_eq_iff_example =
    data_eq_iff data_held data_held ((rho_below_theta, tt), (tt, tt))
      ((rho_below_theta, tt), (tt, tt)) two-Named two-Named

remove_all_but_these_containers-lookup_example :
    IsSorted (remove_all_but_these_containers data_held ("theta" ∷ [])).data_containers
    × ((name : String)
        → lookup name (remove_all_but_these_containers data_held ("theta" ∷ [])).data_containers ≡ (
            if find_in_vector ("theta" ∷ []) name
            then lookup name data_held.data_containers
            else none))
remove_all_but_these_containers-lookup_example =
    remove_all_but_these_containers-lookup data_held ("theta" ∷ [])
      ((rho_below_theta, tt), (tt, tt))
