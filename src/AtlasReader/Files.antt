-- ===== src/AtlasReader/Files.antt =====
-- src/monio/AtlasReader.cc: the data of a file put into a field, on the rank that owns the files.
use monio.Base.{ℕ, zero, suc, ◌+◌, ◌*◌, String, Bool, ◌&&◌, List, if◌then◌else◌, ◌==◌, nat_eq}
use monio.Result.{Result, ok, err, ◌>>=◌, ◌>>◌, data_type_not_coded}
use monio.Constants.{FieldMetadata, vertical_full_size, vertical_half_size}
use monio.Container.{DataContainer, doubles, floats, ints}
use monio.Data.{get_container}
use monio.FileData.{FileData}
use monio.Atlas.{ArrayView, view_set}
use monio.Atlas.Fields.{FieldLibrary, kind_int32, kind_real32, kind_real64, kind_other}
use monio.UtilsAtlas.{idx, get_horizontal_size}
use monio.AtlasReader.{checked_datum, populate_field}

module _ {F V : Type 0} (view : ArrayView F V) where
  -- populateField without a map: `count` levels of column `i` from level `j`. Its message does not
  -- name the field.
  pub fill_column : List V → ℕ → ℕ → ℕ → ℕ → F → Result F
  fill_column data_vec columns i j zero f = ok f
  fill_column data_vec columns i j (suc count) f = do
    index ← idx (i + j * columns)
    v ← checked_datum view data_vec index ""
    g ← view_set view f i j v
    fill_column data_vec columns i (suc j) count g

  pub fill_columns : List V → ℕ → ℕ → ℕ → ℕ → F → Result F
  fill_columns data_vec columns levels i zero f = ok f
  fill_columns data_vec columns levels i (suc count) f =
      fill_column data_vec columns i 0 levels f >>= λ g.
      fill_columns data_vec columns levels (suc i) count g

-- What getReadField returns: the field itself, or a new one.
pub data ReadField (F : Type 0) : Type 0 where
  the_field : F → ReadField F
  created : F → ReadField F

module _ {F : Type 0} (atlas : FieldLibrary F) where
  unfoldable pub populate_field_without_map : {V : Type 0} → ArrayView F V → List V → F → Result F
  unfolding fill_columns fill_column
  populate_field_without_map view data_vec f =
      let columns = if atlas.is_global f then atlas.columns f else get_horizontal_size atlas f in
      fill_columns view data_vec columns (atlas.levels f) 0 columns f

  -- The view is the first thing that populateField makes.
  unfoldable pub populate_field_with_data_container :
      F → DataContainer → List ℕ → Bool → Bool → Result F
  populate_field_with_data_container f (doubles c) map no_first_level is_lfric_convention =
      atlas.make_view kind_real64 f
      >> populate_field atlas.doubles c.data_vector map no_first_level is_lfric_convention f
  populate_field_with_data_container f (floats c) map no_first_level is_lfric_convention =
      atlas.make_view kind_real32 f
      >> populate_field atlas.floats c.data_vector map no_first_level is_lfric_convention f
  populate_field_with_data_container f (ints c) map no_first_level is_lfric_convention =
      atlas.make_view kind_int32 f
      >> populate_field atlas.ints c.data_vector map no_first_level is_lfric_convention f

  unfoldable pub populate_field_with_container_alone : F → DataContainer → Result F
  populate_field_with_container_alone f (doubles c) =
      atlas.make_view kind_real64 f >> populate_field_without_map atlas.doubles c.data_vector f
  populate_field_with_container_alone f (floats c) =
      atlas.make_view kind_real32 f >> populate_field_without_map atlas.floats c.data_vector f
  populate_field_with_container_alone f (ints c) =
      atlas.make_view kind_int32 f >> populate_field_without_map atlas.ints c.data_vector f

  unfoldable pub get_read_field : F → Bool → Result (ReadField F)
  get_read_field f no_first_level =
      if no_first_level && atlas.levels f == vertical_full_size
      then elim (atlas.kind f) [
        | kind_other ↦ err data_type_not_coded
        | _ ↦ ok (created (atlas.create f (atlas.name f) vertical_half_size))
      ]
      else ok (the_field f)

  -- The caller's field once the field that was read into is filled.
  pub caller_field : F → ReadField F → (F → Result F) → Result F
  caller_field f (the_field g) fill = fill g
  caller_field f (created g) fill = fill g >>= λ _. ok f

  -- populateFieldWithFileData: the caller's field afterwards.
  unfoldable pub populate_field_with_file_data :
      {DateTime : Type 0} → F → FileData DateTime → FieldMetadata → String → Bool → Result F
  unfolding caller_field get_read_field
  populate_field_with_file_data f file field_metadata read_name is_lfric_convention = do
    read_field ← get_read_field f field_metadata.no_first_level
    container ← get_container file.data_held read_name
    caller_field f read_field (λ g.
        populate_field_with_data_container g container file.lfric_atlas_map
          field_metadata.no_first_level is_lfric_convention)
