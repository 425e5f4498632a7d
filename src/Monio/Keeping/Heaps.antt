-- ===== src/Monio/Keeping/Heaps.antt =====
-- The heaps that the components of src/monio/Monio.cc return where it writes.
use monio.Base.{
  if◌then◌else◌, length, ℕ, List, ◌≡◌, refl, subst, String, Bool, ◌||◌, true, [], ◌∷◌, ◌==◌,
  string_eq,
}
use monio.Result.{Result, ok, err, ◌>>=◌}
use monio.Constants.{
  FieldMetadata, time_dim_name, tile_dim_name, increment_attribute_names, increment_variable_values,
  time_var_name, tile_var_name, vert_full_no_surf_name, vert_half_with_top_name,
  vert_full_no_surf_size, vert_half_with_top_size, longitude_var_name, latitude_var_name,
}
use monio.Map.{Map}
use monio.Variable.{Variable, make_variable}
use monio.Variable
use monio.Heap.{Heap, Pointer, update, make_shared}
use monio.Heap.Trims.{Extends, Extends-make_shared, Trims, Trims-refl, Trims-Trims, Trims-update}
use monio.Metadata.{Metadata, delete_from_variables, clear_global_attributes, get_variable_names}
use monio.Data.{delete_container, get_data_container_names}
use monio.Metadata
use monio.FileData.{FileData}
use monio.Atlas.Fields.{FieldLibrary}
use monio.UtilsAtlas.{PointLonLat, atlas_type_to_monio_enum}
use monio.AtlasWriter.Metadata.{
  written_columns, add_variable_dimensions, add_increment_attributes, populate_metadata_with_field,
  populate_metadata_of_field,
}
use monio.AtlasWriter.Files.{
  get_write_field, populate_data_container_with_field, populate_data_container_by_shape,
  populate_file_data_with_field,
}
use monio.AtlasWriter.Plain.{name_dimensions, coord_variable, populate_file_data_of_field}
use monio.Monio.{clean_file_data, jedi_variable, add_jedi_data}

-- Where there is a result, its heap meets the condition.
pub record After {X : Type 0} (P : Heap → Type 0) (r : Result (Heap × X)) : Type 0 where
  pub at : (x : Heap × X) → r ≡ ok x → P x.0

module _ {X : Type 0} (P : Heap → Type 0) where
  After-ok : (x : Heap × X) → P x.0 → After P (ok x)
  After-ok x h = record {
    at = λ y p. let same : x ≡ y = cc in subst (λ (z : Heap × X). P z.0) same h;
  }

  After-bind :
      {A : Type 0} (r : Result A) (k : A → Result (Heap × X))
      → ((a : A) → After P (k a))
      → After P (r >>= k)
  After-bind (ok a) k g = g a
  After-bind (err e) k g = record { at = λ x p. absurd cc }

  After-then :
      {Y : Type 0} (r : Result (Heap × Y)) (k : Heap × Y → Result (Heap × X))
      → After P r
      → ((x : Heap × Y) → P x.0 → After P (k x))
      → After P (r >>= k)
  After-then (ok x) k h g = g x (h.at x refl)
  After-then (err e) k h g = record { at = λ x p. absurd cc }

delete_from_variables-Trims :
    (a b name : String) (variables : Map Pointer) (h : Heap)
    → (name == a || name == b) ≡ true
    → Trims a b h (delete_from_variables name variables h)
unfolding delete_from_variables
delete_from_variables-Trims a b name [] h listed = Trims-refl a b h
delete_from_variables-Trims a b name ((k, p) ∷ variables) h listed =
    let cut = update h p (λ v. Variable.delete_dimension v name) in
    Trims-Trims a b h cut _ (Trims-update a b name h p listed)
      (delete_from_variables-Trims a b name variables cut listed)

delete_dimension-Trims :
    (a b name : String) (h : Heap) (m : Metadata)
    → (name == a || name == b) ≡ true
    → Trims a b h (Metadata.delete_dimension h m name).0
unfolding Metadata.delete_dimension
delete_dimension-Trims a b name h m listed =
    delete_from_variables-Trims a b name m.variables h listed

module _ {DateTime : Type 0} where
  pub clean_file_data-Trims :
      (h : Heap) (f : FileData DateTime)
      → After (Trims time_dim_name tile_dim_name h) (clean_file_data h f)
  unfolding clean_file_data
  clean_file_data-Trims h f =
      let m = clear_global_attributes f.metadata in
      let h₁ = (Metadata.delete_dimension h m time_dim_name).0 in
      let m₁ = (Metadata.delete_dimension h m time_dim_name).1 in
      let h₂ = (Metadata.delete_dimension h₁ m₁ tile_dim_name).0 in
      let m₂ = (Metadata.delete_dimension h₁ m₁ tile_dim_name).1 in
      let kept = delete_container (delete_container f.data_held time_var_name) tile_var_name in
      let trims : Trims time_dim_name tile_dim_name h h₂ =
        Trims-Trims time_dim_name tile_dim_name h h₁ h₂
          (delete_dimension-Trims time_dim_name tile_dim_name time_dim_name h m refl)
          (delete_dimension-Trims time_dim_name tile_dim_name tile_dim_name h₁ m₁ refl) in
      After-bind (Trims time_dim_name tile_dim_name h)
        (Metadata.remove_keys (get_data_container_names kept) (get_variable_names m₂) m₂)
        (λ reconciled. ok (h₂, record f { metadata = reconciled; data_held = kept }))
        (λ reconciled.
          After-ok (Trims time_dim_name tile_dim_name h)
            (h₂, record f { metadata = reconciled; data_held = kept }) trims)

  pub add_jedi_data-Extends :
      (h : Heap) (f : FileData DateTime) → After (Extends h) (add_jedi_data h f)
  unfolding add_jedi_data
  add_jedi_data-Extends h f =
      After-bind (Extends h) (jedi_variable vert_full_no_surf_name vert_full_no_surf_size) _
        (λ full.
          After-bind (Extends h) (jedi_variable vert_half_with_top_name vert_half_with_top_size) _
            (λ half_levels. After-ok (Extends h) _ (λ p v q.
              Extends-make_shared (make_shared h full).1 half_levels p v
                (Extends-make_shared h full p v q))))

module _ {F : Type 0} (atlas : FieldLibrary F) where
  populate_metadata_with_field-Extends :
      (h : Heap) (m : Metadata) (f : F) (field_metadata : FieldMetadata)
      (var_name vert_config_name : String)
      → After
          (Extends h)
          (populate_metadata_with_field atlas h m f field_metadata var_name vert_config_name)
  unfolding populate_metadata_with_field
  populate_metadata_with_field-Extends h m f field_metadata var_name vert_config_name =
      After-bind (Extends h) (atlas_type_to_monio_enum (atlas.kind f)) _ (λ type.
        After-bind (Extends h)
          (add_variable_dimensions atlas f m (make_variable var_name type) vert_config_name) _
          (λ sized.
            After-bind (Extends h)
              (add_increment_attributes field_metadata 0 increment_attribute_names
                increment_variable_values sized)
              _ (λ var. After-ok (Extends h) _ (Extends-make_shared h var))))

  populate_metadata_of_field-Extends :
      (h : Heap) (m : Metadata) (f : F) (var_name : String)
      → After (Extends h) (populate_metadata_of_field atlas h m f var_name)
  unfolding populate_metadata_of_field
  populate_metadata_of_field-Extends h m f var_name =
      After-bind (Extends h) (atlas_type_to_monio_enum (atlas.kind f)) _ (λ type.
        After-bind (Extends h) (add_variable_dimensions atlas f m (make_variable var_name type) "")
          _ (λ var. After-ok (Extends h) _ (Extends-make_shared h var)))

  pub populate_file_data_with_field-Extends :
      {DateTime : Type 0} (h : Heap) (file : FileData DateTime) (f : F)
      (field_metadata : FieldMetadata) (write_name vert_config_name : String)
      (is_lfric_convention : Bool)
      → After (Extends h) (
          populate_file_data_with_field atlas h file f field_metadata write_name vert_config_name
            is_lfric_convention)
  unfolding populate_file_data_with_field
  populate_file_data_with_field-Extends h file f field_metadata write_name vert_config_name
        is_lfric_convention =
      After-bind (Extends h)
        (if is_lfric_convention
          then get_write_field atlas f write_name field_metadata.no_first_level
          else ok f)
        _
        (λ write_field.
          After-then (Extends h)
            (populate_metadata_with_field atlas h file.metadata write_field field_metadata
              write_name vert_config_name)
            _
            (populate_metadata_with_field-Extends h file.metadata write_field field_metadata
              write_name vert_config_name)
            (λ described extends.
              After-bind (Extends h)
                (populate_data_container_with_field atlas write_field file.lfric_atlas_map
                  write_name)
                _ (λ container. After-ok (Extends h) _ extends)))

  pub populate_file_data_of_field-Extends :
      {DateTime : Type 0} (get_atlas_coords : F → List PointLonLat) (h : Heap)
      (file : FileData DateTime) (count : ℕ) (f : F) (write_name : String)
      → After
          (Extends h)
          (populate_file_data_of_field atlas get_atlas_coords h file count f write_name)
  unfolding populate_file_data_of_field
  populate_file_data_of_field-Extends get_atlas_coords h file count f write_name =
      let columns = written_columns atlas f in
      let size = length (get_atlas_coords f) in
      After-bind (Extends h) (name_dimensions file.metadata count (columns ∷ atlas.levels f ∷ [])) _
        (λ named.
          After-then (Extends h) (populate_metadata_of_field atlas h named.0 f write_name) _
            (populate_metadata_of_field-Extends h named.0 f write_name)
            (λ described extends.
              After-bind (Extends h) (coord_variable described.1 longitude_var_name size) _
                (λ lon_var.
                  After-bind (Extends h) (coord_variable described.1 latitude_var_name size) _
                    (λ lat_var.
                      After-bind (Extends h)
                        (populate_data_container_by_shape atlas f columns (atlas.levels f)) _
                        (λ container. After-ok (Extends h) _ (λ p v q.
                          Extends-make_shared (make_shared described.0 lon_var).1 lat_var p v
                            (Extends-make_shared described.0 lon_var p v (extends p v q))))))))
