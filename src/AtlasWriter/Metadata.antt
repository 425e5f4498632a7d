-- ===== src/AtlasWriter/Metadata.antt =====
-- src/monio/AtlasWriter.cc: the metadata of a field that is written.
use Prim.Native.String.{◌++◌ as ◌<+>◌}
use monio.Base.{
  ℕ, zero, suc, String, Bool, ◌&&◌, List, [], ◌∷◌, pos, if◌then◌else◌, not, ◌==◌, string_eq, int_eq,
}
use monio.Result.{Result, ok, ◌>>=◌}
use monio.Constants.{
  FieldMetadata, not_found_error, increment_attribute_names, increment_variable_values,
  variable_convention_name, produced_by_name, produced_by_string,
}
use monio.Variable.{Variable, attribute_string, make_variable, add_attribute}
use monio.Variable
use monio.Heap.{Heap, make_shared}
use monio.Metadata.{
  Metadata, is_dim_defined, get_dimension, get_dimension_name, add_variable, add_global_attr,
}
use monio.Atlas.Fields.{FieldLibrary}
use monio.UtilsAtlas.{get_horizontal_size, atlas_type_to_monio_enum}

-- The name that the variable's dimension of a size gets.
unfoldable pub dimension_name : Metadata → String → ℕ → Result String
dimension_name m vert_config_name size =
    if not (vert_config_name == "") && is_dim_defined m vert_config_name
    then (get_dimension m vert_config_name >>= λ value.
        ok (if pos size == value then vert_config_name else get_dimension_name m (pos size)))
    else ok (get_dimension_name m (pos size))

-- One round of addVariableDimensions.
unfoldable pub add_sized_dimension : Metadata → String → ℕ → Variable → Result Variable
unfolding dimension_name
add_sized_dimension m vert_config_name size v = do
  name ← dimension_name m vert_config_name size
  if not (name == not_found_error) then Variable.add_dimension v name size else ok v

-- The value of the i-th attribute; the default is that of kIncrementVariableValues.
unfoldable pub attribute_value : FieldMetadata → ℕ → String → String
attribute_value field_metadata zero default = field_metadata.jedi_name
attribute_value field_metadata (suc zero) default = field_metadata.jedi_name <+> "_inc"
attribute_value field_metadata (suc (suc zero)) default = field_metadata.units
attribute_value field_metadata (suc (suc (suc i))) default = default

unfoldable pub add_increment_attributes :
    FieldMetadata → ℕ → List String → List String → Variable → Result Variable
unfolding attribute_value
add_increment_attributes field_metadata i [] values v = ok v
add_increment_attributes field_metadata i (name ∷ names) [] v = ok v
add_increment_attributes field_metadata i (name ∷ names) (value ∷ values) v = do
  u ← add_attribute v (attribute_string name (attribute_value field_metadata i value))
  add_increment_attributes field_metadata (suc i) names values u

unfoldable pub add_global_attributes : Metadata → Bool → Metadata
add_global_attributes m is_lfric_convention =
    let variable_convention = if is_lfric_convention then "LFRic" else "JEDI" in
    let named =
      add_global_attr m variable_convention_name
        (attribute_string variable_convention_name variable_convention) in
    add_global_attr named produced_by_name (attribute_string produced_by_name produced_by_string)

module _ {F : Type 0} (atlas : FieldLibrary F) where
  -- The number of columns that are written: all of a global field, else those that are no ghosts.
  unfoldable pub written_columns : F → ℕ
  written_columns f = if atlas.is_global f then atlas.columns f else get_horizontal_size atlas f

  -- addVariableDimensions: the shape reversed, levels before columns.
  unfoldable pub add_variable_dimensions : F → Metadata → Variable → String → Result Variable
  unfolding add_sized_dimension written_columns
  add_variable_dimensions f m v vert_config_name = do
    with_levels ← add_sized_dimension m vert_config_name (atlas.levels f) v
    add_sized_dimension m vert_config_name (written_columns f) with_levels

  -- populateMetadataWithField for a field with metadata, and for a field alone.
  unfoldable pub populate_metadata_with_field :
      Heap → Metadata → F → FieldMetadata → String → String → Result (Heap × Metadata)
  unfolding add_variable_dimensions add_increment_attributes
  populate_metadata_with_field h m f field_metadata var_name vert_config_name = do
    type ← atlas_type_to_monio_enum (atlas.kind f)
    sized ← add_variable_dimensions f m (make_variable var_name type) vert_config_name
    var ←
        add_increment_attributes field_metadata 0 increment_attribute_names
          increment_variable_values sized
    let (p, h') = make_shared h var
    ok (h', add_variable m var_name p)

  unfoldable pub populate_metadata_of_field :
      Heap → Metadata → F → String → Result (Heap × Metadata)
  unfolding add_variable_dimensions
  populate_metadata_of_field h m f var_name = do
    type ← atlas_type_to_monio_enum (atlas.kind f)
    var ← add_variable_dimensions f m (make_variable var_name type) ""
    let (p, h') = make_shared h var
    ok (h', add_variable m var_name p)
