-- ===== src/AtlasWriter/Files.antt =====
-- src/monio/AtlasWriter.cc: a field put into the data of a file, on the rank that owns the files.
use monio.Base.{
  ℕ, zero, suc, ◌+◌, ◌*◌, String, Bool, ◌&&◌, List, pos, if◌then◌else◌, ◌==◌, nat_eq, string_eq,
}
use monio.Result.{Result, ok, err, ◌>>=◌, data_type_not_coded, field_levels, field_write_name}
use monio.Constants.{FieldMetadata, vertical_full_size, vertical_half_size, missing_variable_names}
use monio.Values.{zero_double, zero_float}
use monio.Utils.{find_in_vector}
use monio.Heap.{Heap}
use monio.Container.{
  Container, DataContainer, doubles, floats, ints, make_container, clear, set_size,
}
use monio.Data.{add_container}
use monio.FileData.{FileData}
use monio.Atlas.{ArrayView, view_get}
use monio.Atlas.Fields.{FieldLibrary, kind_int32, kind_real32, kind_real64, kind_other}
use monio.UtilsAtlas.{idx, get_global_data_size}
use monio.AtlasWriter.{store, populate_data_vec, copy_surface_level}
use monio.AtlasWriter.Metadata.{add_global_attributes, populate_metadata_with_field}

module _ {F V : Type 0} (view : ArrayView F V) where
  -- populateDataVec with dimensions: `count` levels of column `i` from level `j`.
  unfoldable pub write_column : F → ℕ → ℕ → ℕ → ℕ → List V → Result (List V)
  write_column f levels i j zero data_vec = ok data_vec
  write_column f levels i j (suc count) data_vec = do
    index ← idx (j + i * levels)
    v ← view_get view f i j
    stored ← store data_vec index v
    write_column f levels i (suc j) count stored

  -- `count` columns from column `i`.
  unfoldable pub write_shape : F → ℕ → ℕ → ℕ → List V → Result (List V)
  write_shape f levels i zero data_vec = ok data_vec
  write_shape f levels i (suc count) data_vec =
      write_column f levels i 0 levels data_vec >>= λ written.
      write_shape f levels (suc i) count written

  unfoldable pub populate_data_vec_by_shape : List V → F → ℕ → ℕ → Result (List V)
  unfolding write_shape write_column
  populate_data_vec_by_shape data_vec f columns levels = write_shape f levels 0 columns data_vec

  -- One case of populateDataContainerWithField: a new container, cleared, sized and filled.
  unfoldable pub filled_container :
      V → String → ℕ → (List V → Result (List V)) → Result (Container V)
  filled_container filler name size fill =
      let sized = set_size filler (clear (make_container name)) size in
      fill sized.data_vector >>= λ values. ok (record sized { data_vector = values })

module _ {F : Type 0} (atlas : FieldLibrary F) where
  -- populateDataContainerWithField with the map; its caller passes a null pointer.
  unfoldable pub populate_data_container_with_field : F → List ℕ → String → Result DataContainer
  unfolding filled_container
  populate_data_container_with_field f map name = do
    size ← get_global_data_size atlas f
    elim (atlas.kind f) [
      | kind_int32 ↦
          filled_container atlas.ints (pos 0) name size
            (λ data_vec. populate_data_vec atlas.ints data_vec f map)
          >>= λ c. ok (ints c)
      | kind_real32 ↦
          filled_container atlas.floats zero_float name size
            (λ data_vec. populate_data_vec atlas.floats data_vec f map)
          >>= λ c. ok (floats c)
      | kind_real64 ↦
          filled_container atlas.doubles zero_double name size
            (λ data_vec. populate_data_vec atlas.doubles data_vec f map)
          >>= λ c. ok (doubles c)
      | kind_other ↦ err data_type_not_coded
    ]

  -- The same without a map, over the dimensions.
  unfoldable pub populate_data_container_by_shape : F → ℕ → ℕ → Result DataContainer
  unfolding filled_container
  populate_data_container_by_shape f columns levels = do
    size ← get_global_data_size atlas f
    elim (atlas.kind f) [
      | kind_int32 ↦
          filled_container atlas.ints (pos 0) (atlas.name f) size
            (λ data_vec. populate_data_vec_by_shape atlas.ints data_vec f columns levels)
          >>= λ c. ok (ints c)
      | kind_real32 ↦
          filled_container atlas.floats zero_float (atlas.name f) size
            (λ data_vec. populate_data_vec_by_shape atlas.floats data_vec f columns levels)
          >>= λ c. ok (floats c)
      | kind_real64 ↦
          filled_container atlas.doubles zero_double (atlas.name f) size
            (λ data_vec. populate_data_vec_by_shape atlas.doubles data_vec f columns levels)
          >>= λ c. ok (doubles c)
      | kind_other ↦ err data_type_not_coded
    ]

  -- getWriteField: the field with the surface level filled in, or the field itself, renamed.
  unfoldable pub get_write_field : F → String → Bool → Result F
  get_write_field f write_name no_first_level =
      let created = atlas.create f write_name vertical_full_size in
      elim (atlas.kind f) [
        | kind_other ↦ err data_type_not_coded
        | kind_int32 ↦
            levelled f write_name no_first_level (copy_surface_level atlas.ints f created)
        | kind_real32 ↦
            levelled f write_name no_first_level (copy_surface_level atlas.floats f created)
        | kind_real64 ↦
            levelled f write_name no_first_level (copy_surface_level atlas.doubles f created)
      ]
    where
      levelled : F → String → Bool → Result F → Result F
      levelled f write_name no_first_level copied =
          if no_first_level && atlas.levels f == vertical_full_size
          then err field_levels
          else if find_in_vector missing_variable_names write_name
          then err field_write_name
          else if no_first_level && atlas.levels f == vertical_half_size
          then copied
          else ok (atlas.set_name f write_name)

  module _ {DateTime : Type 0} where
    -- populateFileDataWithField for a field with metadata.
    unfoldable pub populate_file_data_with_field :
        Heap
        → FileData DateTime
        → F
        → FieldMetadata
        → String
        → String
        → Bool
        → Result (Heap × FileData DateTime)
    unfolding populate_metadata_with_field populate_data_container_with_field get_write_field
    populate_file_data_with_field h file f field_metadata write_name vert_config_name
          is_lfric_convention =
        do
          write_field ←
              (if is_lfric_convention
                then get_write_field f write_name field_metadata.no_first_level
                else ok f)
          described ←
              populate_metadata_with_field atlas h file.metadata write_field field_metadata
                write_name vert_config_name
          container ← populate_data_container_with_field write_field file.lfric_atlas_map write_name
          ok (
            described.0,
            record file {
              metadata = add_global_attributes described.1 is_lfric_convention;
              data_held = add_container file.data_held container;
            },
          )
