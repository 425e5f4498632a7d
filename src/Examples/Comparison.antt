-- ===== src/Examples/Comparison.antt =====
-- Two sets of fields through compareFieldSets of src/monio/UtilsAtlas.cc.
use monio.Base.{
  ℕ, ◌+◌, ◌*◌, String, refl, true, List, [], ◌∷◌, pos, arith, ◌==◌, string_eq, if◌then◌else◌,
}
use monio.Result.{Result, ok, err, undefined_access}
use monio.Values.{zero_float}
use monio.Atlas.Fields.{kind_real64}
use monio.Atlas.Typed.{TypedGrid, typed_library}
use monio.UtilsAtlas.{compare_field_sets}
use monio.UtilsAtlas.Comparison.{Decides, Agree, compare_field_sets-Decides}

abbrev wind : String → ℕ → TypedGrid
wind name levels = record {
  label = name;
  kind = kind_real64;
  global = true;
  width = 2;
  height = levels;
  ghost = pos 0 ∷ pos 0 ∷ [];
  double_cell = λ k l. record { bits = 1000 * k + l };
  float_cell = λ k l. zero_float;
  int_cell = λ k l. pos 0;
}

abbrev winds : List TypedGrid
winds = wind "u" 2 ∷ wind "v" 2 ∷ []

abbrev taller : String → Result TypedGrid
taller name =
    if name == "u"
    then ok (wind "u" 3)
    else if name == "v"
    then ok (wind "v" 4)
    else err undefined_access

compare_field_sets-Decides_example :
    Decides (compare_field_sets typed_library taller winds) (Agree typed_library taller winds)
compare_field_sets-Decides_example = compare_field_sets-Decides typed_library taller winds (
  (wind "u" 3, refl, refl, refl, omega arith, omega arith),
  ((wind "v" 4, refl, refl, refl, omega arith, omega arith), tt),
)
