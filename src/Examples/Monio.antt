-- ===== src/Examples/Monio.antt =====
-- Files on their way through Monio, the writer and the reader.
use monio.Base.{
  some, ℕ, ◌≡◌, refl, ◌∙◌, ◌*◌, ◌+◌, Bool, true, false, List, [], ◌∷◌, pos, arith, ap, sym,
  replicate, length-replicate, nat_eq, string_eq, int_eq,
}
use monio.Result.{Result, ok, err, dimension_defined}
use monio.Constants.{DataType, FieldMetadata, time_var_name}
use monio.Values.{Double, zero_double, zero_float}
use monio.Map.{lookup, contains, insert}
use monio.Map.Order.{key_lt}
use monio.Variable.{
  Variable, attribute_string, has_dimension, attribute_name, add_attribute, make_variable,
}
use monio.Variable
use monio.Variable.Invariant.{IsWf}
use monio.Heap.{Heap, make_shared}
use monio.Metadata.{
  Metadata, get_variable_convention, get_dimension_name, is_dim_defined, get_dimension,
  add_variable,
}
use monio.Container.{Container, doubles}
use monio.FileData.{FileData}
use monio.Monio.Cleaning.{Cleans, clean_file_data-Cleans}
use monio.Monio.JediData.{AddsCoordinates, add_jedi_data-HasCoordinate}
use monio.Atlas.Fields.{kind_real64}
use monio.Atlas.Typed.{TypedGrid, typed_library}
use monio.UtilsAtlas.{PointLonLat, atlas_type_to_monio_enum}
use monio.UtilsAtlas.Coordinates.{MapsColumns, create_lfric_atlas_map-Distinct}
use monio.AtlasReader.Files.{populate_field_with_file_data}
use monio.AtlasReader.Dropped.{populate_field_with_file_data_dropped}
use monio.AtlasWriter.Metadata.{
  add_global_attributes, add_variable_dimensions, populate_metadata_with_field, written_columns,
  add_sized_dimension, dimension_name, add_increment_attributes, attribute_value,
}
use monio.AtlasWriter.Convention.{get_variable_convention-add_global_attributes}
use monio.AtlasWriter.Dimensions.{add_variable_dimensions-eq}
use monio.RoundTrip.Files.{
  ComesBackFromFile, populate_field_with_file_data-populate_file_data_with_field,
}

abbrev timed : Variable
timed = record {
  name = "theta";
  type = DataType.double;
  dimensions = ("time_counter", 2) ∷ ("full_levels", 71) ∷ [];
  attributes = [];
}

timed-IsWf : IsWf timed
unfolding has_dimension
timed-IsWf = record { distinct = (refl, (refl, tt)); sorted = tt; named = tt }

abbrev file_read : FileData ℕ
file_read = record {
  metadata = record {
    dimensions = ("full_levels", pos 71) ∷ ("time_counter", pos 2) ∷ [];
    global_attrs = ("title", attribute_string "title" "increments") ∷ [];
    variables = ("theta", 0) ∷ [];
  };
  data_held = record {
    data_containers =
        ("theta", doubles (record { name = "theta"; data_vector = zero_double ∷ [] }))
        ∷ (time_var_name, doubles (record { name = time_var_name; data_vector = [] }))
        ∷ [];
  };
  lfric_atlas_map = 1 ∷ 0 ∷ [];
  date_times = 3600 ∷ [];
}

clean_file_data-Cleans_example : Cleans (timed ∷ []) file_read
clean_file_data-Cleans_example =
    clean_file_data-Cleans (timed ∷ []) file_read (timed-IsWf, tt) (tt, tt)

add_jedi_data-HasCoordinate_example : AddsCoordinates (timed ∷ []) file_read
unfolding lookup
add_jedi_data-HasCoordinate_example =
    add_jedi_data-HasCoordinate (timed ∷ []) file_read
      (record { dimension = refl; variable = refl; container = refl })
      (record { dimension = refl; variable = refl; container = refl })

abbrev west : PointLonLat
west = record { lon = zero_double; lat = zero_double }

abbrev east : PointLonLat
east = record { lon = record { bits = 1 }; lat = zero_double }

-- The nearer of the two points.
abbrev nearer : List PointLonLat → PointLonLat → ℕ
nearer points p = p.lon.bits

create_lfric_atlas_map-Distinct_example :
    MapsColumns nearer (λ a p. a ≡ p) (west ∷ east ∷ []) (east ∷ west ∷ [])
create_lfric_atlas_map-Distinct_example =
    create_lfric_atlas_map-Distinct nearer (λ a p. a ≡ p) (west ∷ east ∷ []) (east ∷ west ∷ []) refl
      ((east, refl, refl), ((west, refl, refl), tt))
      (((λ a p q. omega (arith, ap (λ (x : PointLonLat). x.lon.bits) (sym p ∙ q))), tt), (tt, tt))

abbrev pub theta_field : ℕ → TypedGrid
theta_field levels = record {
  label = "theta";
  kind = kind_real64;
  global = true;
  width = 2;
  height = levels;
  ghost = pos 0 ∷ pos 0 ∷ pos 1 ∷ [];
  double_cell = λ k l. record { bits = 1000 * k + l };
  float_cell = λ k l. zero_float;
  int_cell = λ k l. pos 0;
}

abbrev pub described_before : Metadata
described_before = record {
  dimensions = ("levels", pos 3) ∷ ("nMesh2d_face", pos 2) ∷ [];
  global_attrs = [];
  variables = [];
}

get_variable_convention-add_global_attributes_example :
    get_variable_convention (add_global_attributes described_before false) ≡ ok (pos 1)
unfolding lookup
get_variable_convention-add_global_attributes_example =
    get_variable_convention-add_global_attributes described_before false refl

faces : get_dimension_name described_before (pos 2) ≡ "nMesh2d_face"
unfolding get_dimension_name
faces = refl

-- As many levels as columns.
abbrev square : Metadata
square = record described_before { dimensions = ("levels", pos 2) ∷ [] }

add_variable_dimensions-eq_example :
    (add_variable_dimensions typed_library
        (theta_field 3)
        described_before
        (make_variable "theta" DataType.double)
        "levels"
      ≡ ok (record (make_variable "theta" DataType.double) {
        dimensions = ("levels", 3) ∷ (get_dimension_name described_before (pos 2), 2) ∷ [];
      }))
    × (add_variable_dimensions typed_library
          (theta_field 2)
          square
          (make_variable "theta" DataType.double)
          "levels"
        ≡ err (dimension_defined "levels"))
unfolding lookup written_columns make_variable
add_variable_dimensions-eq_example = (
  add_variable_dimensions-eq typed_library (theta_field 3) described_before
      (make_variable "theta" DataType.double) "levels" refl (λ p. cc) (λ p. cc) refl
      (λ p. ((rw faces (λ p. cc)), (rw faces (λ p. cc)))),
  add_variable_dimensions-eq typed_library (theta_field 2) square
      (make_variable "theta" DataType.double) "levels" refl (λ p. cc) (λ p. cc) refl
      (λ p. absurd (p refl)),
)

abbrev pub theta_metadata : Bool → FieldMetadata
theta_metadata no_first_level = record {
  lfric_read_name = "theta";
  lfric_write_name = "theta_inc";
  jedi_name = "potential_temperature";
  lfric_vert_config = "levels";
  jedi_vert_config = "levels";
  units = "K";
  number_of_levels = 3;
  no_first_level = no_first_level;
}

abbrev theta_data : Container Double
theta_data = record { name = "theta"; data_vector = replicate 142 zero_double }

abbrev file_of_theta : FileData ℕ
file_of_theta = record file_read {
  data_held = record { data_containers = ("theta", doubles theta_data) ∷ [] };
}

populate_field_with_file_data_dropped_example :
    populate_field_with_file_data typed_library
      (theta_field 71)
      file_of_theta
      (theta_metadata true)
      "theta"
      true
    ≡ ok (theta_field 71)
unfolding lookup
populate_field_with_file_data_dropped_example =
    populate_field_with_file_data_dropped typed_library (theta_field 71) file_of_theta
      (theta_metadata true) "theta" true theta_data refl refl refl refl refl
      (omega (arith, length-replicate 142 zero_double)) (omega arith, (omega arith, tt))
      (omega arith) (omega (arith, length-replicate 142 zero_double))

abbrev described_or : Result (Heap × Metadata) → Heap × Metadata
described_or (ok d) = d
described_or (err e) = ([], described_before)

abbrev pub file_to_write : FileData ℕ
file_to_write = record file_read {
  metadata = described_before;
  data_held = record { data_containers = [] };
}

abbrev pub described : Heap × Metadata
described = described_or (
    populate_metadata_with_field typed_library [] described_before (theta_field 3)
      (theta_metadata false) "theta" "levels")

pub theta_described :
    populate_metadata_with_field typed_library [] described_before
      (theta_field 3)
      (theta_metadata false)
      "theta"
      "levels"
    ≡ ok described
unfolding populate_metadata_with_field lookup written_columns make_variable make_shared
    add_variable_dimensions atlas_type_to_monio_enum add_sized_dimension dimension_name
    is_dim_defined get_dimension get_dimension_name Variable.add_dimension has_dimension
    add_increment_attributes attribute_value add_attribute attribute_name contains insert key_lt
    add_variable
theta_described = refl

pub theta_known : lookup "theta" described.1.variables ≡ some 0
unfolding populate_metadata_with_field lookup written_columns make_variable make_shared
    add_variable_dimensions atlas_type_to_monio_enum add_sized_dimension dimension_name
    is_dim_defined get_dimension get_dimension_name Variable.add_dimension has_dimension
    add_increment_attributes attribute_value add_attribute attribute_name contains insert key_lt
    add_variable
theta_known = refl

populate_field_with_file_data-populate_file_data_with_field_example :
    ComesBackFromFile typed_library [] file_to_write
      (theta_field 3)
      (theta_field 3)
      (theta_metadata false)
      "theta"
      "levels"
      described
unfolding lookup
populate_field_with_file_data-populate_file_data_with_field_example =
    populate_field_with_file_data-populate_file_data_with_field typed_library [] file_to_write
      (theta_field 3) (theta_field 3) (theta_metadata false) "theta" "levels" described
      theta_described refl refl refl (omega arith, (omega arith, tt))
      ((λ p. omega (arith, p), tt), (tt, tt)) refl (omega arith) (omega arith) refl refl
