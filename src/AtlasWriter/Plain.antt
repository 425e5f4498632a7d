-- ===== src/AtlasWriter/Plain.antt =====
-- src/monio/AtlasWriter.cc: populateFileDataWithField for a field without metadata. getAtlasCoords is
-- a call of Atlas, and is a parameter.
use Prim.Native.String.{◌++◌ as ◌<+>◌}
use monio.Base.{
  ℕ, zero, suc, ◌/◌, ◌%◌, String, false, List, [], ◌∷◌, length, pos, if◌then◌else◌, ◌==◌, ltb,
  nat_eq, string_eq,
}
use monio.Result.{Result, ok, ◌>>=◌}
use monio.Constants.{not_found_error, longitude_var_name, latitude_var_name, DataType}
use monio.Variable.{Variable, make_variable}
use monio.Variable
use monio.Heap.{Heap, make_shared}
use monio.Metadata.{Metadata, get_dimension_name, add_dimension, add_variable}
use monio.Container.{DataContainer}
use monio.Data.{Data, add_container}
use monio.FileData.{FileData}
use monio.Atlas.Fields.{FieldLibrary}
use monio.UtilsAtlas.{idx, PointLonLat, convert_lat_lon_to_containers}
use monio.AtlasWriter.Metadata.{written_columns, populate_metadata_of_field, add_global_attributes}
use monio.AtlasWriter.Files.{populate_data_container_by_shape}

digit : ℕ → String
digit zero = "0"
digit (suc zero) = "1"
digit (suc (suc zero)) = "2"
digit (suc (suc (suc zero))) = "3"
digit (suc (suc (suc (suc zero)))) = "4"
digit (suc (suc (suc (suc (suc zero))))) = "5"
digit (suc (suc (suc (suc (suc (suc zero)))))) = "6"
digit (suc (suc (suc (suc (suc (suc (suc zero))))))) = "7"
digit (suc (suc (suc (suc (suc (suc (suc (suc zero)))))))) = "8"
digit (suc (suc (suc (suc (suc (suc (suc (suc (suc n))))))))) = "9"

-- The decimal digits of a number below 10 ^ fuel.
digits : ℕ → ℕ → String
digits zero n = ""
digits (suc fuel) n =
    let higher = digits fuel (n / 10) in if ltb n 10 then digit n else higher <+> digit (n % 10)

-- std::to_string of an int that is not negative, which is below 10 ^ 10.
unfoldable pub to_string : ℕ → String
unfolding digits digit
to_string n = digits 10 n

-- "dim" + std::to_string(dimCount_)
abbrev pub counted_name : ℕ → String
counted_name count = "dim" <+> to_string count

-- One round of the loop over the shape: a size without a name gets one, and dimCount_ is advanced.
unfoldable pub name_dimension : Metadata → ℕ → ℕ → Result (Metadata × ℕ)
name_dimension m count size =
    if get_dimension_name m (pos size) == not_found_error
    then (do next ← idx (suc count); ok (add_dimension m (counted_name count) (pos size), next))
    else ok (m, count)

unfoldable pub name_dimensions : Metadata → ℕ → List ℕ → Result (Metadata × ℕ)
unfolding name_dimension
name_dimensions m count [] = ok (m, count)
name_dimensions m count (size ∷ sizes) =
    name_dimension m count size >>= λ named. name_dimensions named.0 named.1 sizes

unfoldable pub add_containers : Data → List DataContainer → Data
add_containers d [] = d
add_containers d (c ∷ containers) = add_containers (add_container d c) containers

-- The variable of one axis of the coordinates, over their number.
unfoldable pub coord_variable : Metadata → String → ℕ → Result Variable
coord_variable m axis size =
    Variable.add_dimension (make_variable axis DataType.double) (get_dimension_name m (pos size))
      size

module _ {F : Type 0} (atlas : FieldLibrary F) (get_atlas_coords : F → List PointLonLat)
    {DateTime : Type 0} where
  -- The heap, the data of the file and dimCount_ are those after the call.
  unfoldable pub populate_file_data_of_field :
      Heap → FileData DateTime → ℕ → F → String → Result (Heap × (FileData DateTime × ℕ))
  unfolding name_dimensions populate_metadata_of_field add_containers coord_variable
      populate_data_container_by_shape
  populate_file_data_of_field h file count f write_name = do
    let columns = written_columns atlas f
    named ← name_dimensions file.metadata count (columns ∷ atlas.levels f ∷ [])
    described ← populate_metadata_of_field atlas h named.0 f write_name
    let coords = get_atlas_coords f
    let with_coords =
        add_containers file.data_held
          (convert_lat_lon_to_containers coords longitude_var_name latitude_var_name)
    lon_var ← coord_variable described.1 longitude_var_name (length coords)
    lat_var ← coord_variable described.1 latitude_var_name (length coords)
    let (lon, with_lon) = make_shared described.0 lon_var
    let (lat, with_lat) = make_shared with_lon lat_var
    let metadata =
        add_variable (add_variable described.1 longitude_var_name lon) latitude_var_name lat
    container ← populate_data_container_by_shape atlas f columns (atlas.levels f)
    ok (
      with_lat,
      (
        record file {
          metadata = add_global_attributes metadata false;
          data_held = add_container with_coords container;
        },
        named.1,
      ),
    )
