-- ===== src/Constants.antt =====
-- src/monio/Constants.h: the names, sizes and enumerations that the components share.
use monio.Base.{ℕ, String, Bool, true, List, [], ◌∷◌, ◌≡◌, ◌↔◌, arith, Eq, nat_beq}

-- FieldMetadata: how a field is called and laid out in the files and in JEDI.
pub record FieldMetadata : Type 0 where
  pub lfric_read_name : String
  pub lfric_write_name : String
  pub jedi_name : String
  pub lfric_vert_config : String
  pub jedi_vert_config : String
  pub units : String
  pub number_of_levels : ℕ
  pub no_first_level : Bool

-- eDataTypes
pub data DataType : Type 0 where
  byte char short int float double ubyte ushort uint uint64 string : DataType

-- The enumerator's number.
abbrev pub number : DataType → ℕ
number DataType.byte = 0
number DataType.char = 1
number DataType.short = 2
number DataType.int = 3
number DataType.float = 4
number DataType.double = 5
number DataType.ubyte = 6
number DataType.ushort = 7
number DataType.uint = 8
number DataType.uint64 = 9
number DataType.string = 10

abbrev pub type_beq : DataType → DataType → Bool
type_beq a b = nat_beq (number a) (number b)

pub type_beq_iff : (a b : DataType) → (type_beq a b ≡ true) ↔ (a ≡ b)
type_beq_iff a b = ground arith

instance abbrev pub data_type_eq : Eq DataType
data_type_eq = record { beq = type_beq; beq_iff = type_beq_iff }

-- kDataTypeNames
unfoldable pub data_type_name : DataType → String
data_type_name DataType.byte = "byte"
data_type_name DataType.char = "char"
data_type_name DataType.short = "short"
data_type_name DataType.int = "int"
data_type_name DataType.float = "float"
data_type_name DataType.double = "double"
data_type_name DataType.ubyte = "unsigned byte"
data_type_name DataType.ushort = "unsigned short"
data_type_name DataType.uint = "unsigned int"
data_type_name DataType.uint64 = "long int"
data_type_name DataType.string = "std::string"

-- eVariableConventions
pub data VariableConvention : Type 0 where
  lfric_convention jedi_convention : VariableConvention

abbrev pub time_dim_name : String
time_dim_name = "time_counter"

abbrev pub time_var_name : String
time_var_name = "time_instant"

abbrev pub time_origin_name : String
time_origin_name = "time_origin"

abbrev pub tile_dim_name : String
tile_dim_name = "surface_tiles"

abbrev pub tile_var_name : String
tile_var_name = "tile_fraction"

abbrev pub vertical_full_name : String
vertical_full_name = "full_levels"

abbrev pub vertical_half_name : String
vertical_half_name = "half_levels"

abbrev pub vert_full_no_surf_name : String
vert_full_no_surf_name = "full_levels_no_surf"

abbrev pub vert_half_with_top_name : String
vert_half_with_top_name = "half_levels_with_top"

abbrev pub lfric_mesh_term : String
lfric_mesh_term = "Mesh2d"

abbrev pub lfric_lon_var_name : String
lfric_lon_var_name = "Mesh2d_face_y"

abbrev pub lfric_lat_var_name : String
lfric_lat_var_name = "Mesh2d_face_x"

abbrev pub not_found_error : String
not_found_error = "NOT_FOUND"

abbrev pub produced_by_name : String
produced_by_name = "produced_by"

abbrev pub produced_by_string : String
produced_by_string = "MONIO: Met Office NetCDF I/O"

abbrev pub variable_convention_name : String
variable_convention_name = "variable_convention"

abbrev pub naming_conventions : List String
naming_conventions = "LFRic" ∷ "JEDI" ∷ []

abbrev pub missing_variable_names : List String
missing_variable_names = "TO BE DERIVED" ∷ "TO BE IMPLEMENTED" ∷ "none" ∷ []

abbrev pub lfric_coord_var_names : List String
lfric_coord_var_names = lfric_lon_var_name ∷ lfric_lat_var_name ∷ []

abbrev pub vertical_full_size : ℕ
vertical_full_size = 71

abbrev pub vertical_half_size : ℕ
vertical_half_size = 70

abbrev pub vert_full_no_surf_size : ℕ
vert_full_no_surf_size = 70

abbrev pub vert_half_with_top_size : ℕ
vert_half_with_top_size = 71

-- The attributes of an increment's variable, in the order of eAttributeNames.
abbrev pub increment_attribute_names : List String
increment_attribute_names =
    "standard_name" ∷ "long_name" ∷ "units" ∷ "mesh" ∷ "location" ∷ "online_operation"
    ∷ "interval_operation" ∷ "interval_write" ∷ "cell_methods" ∷ "coordinates" ∷ []

abbrev pub increment_variable_values : List String
increment_variable_values =
    not_found_error ∷ not_found_error ∷ not_found_error ∷ "Mesh2d" ∷ "face" ∷ "instant" ∷ "3600 s"
    ∷ "3600 s" ∷ "time: point" ∷ "Mesh2d_face_y Mesh2d_face_x" ∷ []

abbrev pub longitude_var_name : String
longitude_var_name = "longitude"

abbrev pub latitude_var_name : String
latitude_var_name = "latitude"
