-- ===== src/AtlasReader/Dropped.antt =====
-- populateFieldWithFileData on a field that is set up with a first level that it should lack.
use monio.Base.{
  ℕ, ◌+◌, ◌*◌, ◌^◌, ◌≤◌, String, ◌≡◌, refl, ◌∙◌, Bool, true, false, ◌&&◌, some, length, arith, ◌==◌,
  nat_eq,
}
use monio.Result.{ok}
use monio.Constants.{FieldMetadata, vertical_full_size, vertical_half_size}
use monio.Values.{Double}
use monio.Map.{lookup}
use monio.Container.{Container, doubles}
use monio.Data.{get_container}
use monio.FileData.{FileData}
use monio.Atlas.Fields.{FieldLibrary, kind_real64}
use monio.AtlasReader.Populate.{AllBelow, skipped, populate_field-Copies}
use monio.AtlasReader.Files.{
  caller_field, get_read_field, populate_field_with_data_container, populate_field_with_file_data,
}

scaled : (n a b total : ℕ) → a ≤ b → n * b ≤ total → n * a ≤ total
scaled n a b total h k = grind arith

module _ {F DateTime : Type 0} (atlas : FieldLibrary F) where
  -- For a global field of doubles that is set up with 71 levels where its metadata ask for 70, and a
  -- container with enough data, populateFieldWithFileData succeeds and leaves the field as it was:
  -- the data go into a new field of 70 levels, which is dropped.
  pub populate_field_with_file_data_dropped :
      (f : F) (file : FileData DateTime) (field_metadata : FieldMetadata) (read_name : String)
      (is_lfric_convention : Bool) (c : Container Double)
      → field_metadata.no_first_level ≡ true
      → atlas.levels f ≡ vertical_full_size
      → atlas.kind f ≡ kind_real64
      → atlas.is_global f ≡ true
      → lookup read_name file.data_held.data_containers ≡ some (doubles c)
      → length c.data_vector ≤ 2 ^ 31
      → AllBelow (length file.lfric_atlas_map) file.lfric_atlas_map
      → length file.lfric_atlas_map ≤ atlas.columns f
      → length file.lfric_atlas_map * vertical_full_size ≤ length c.data_vector
      → populate_field_with_file_data atlas f file field_metadata read_name is_lfric_convention
        ≡ ok f
  unfolding populate_field_with_file_data get_read_field populate_field_with_data_container
      get_container
  populate_field_with_file_data_dropped f file field_metadata read_name is_lfric_convention c first
        levels kind global found small below columns enough =
      let entries = file.lfric_atlas_map in
      let new = atlas.create f (atlas.name f) vertical_half_size in
      let half : atlas.doubles.levels new ≡ vertical_half_size =
        atlas.levels-doubles new ∙ atlas.levels-create f (atlas.name f) vertical_half_size in
      let wide : atlas.doubles.columns new ≡ atlas.columns f =
        atlas.columns-doubles new
        ∙ atlas.columns-create f (atlas.name f) vertical_half_size global in
      let one : skipped true is_lfric_convention (atlas.doubles.levels new) ≤ 1 = ground arith in
      let fits : length entries
            * (atlas.doubles.levels new
                + skipped true is_lfric_convention (atlas.doubles.levels new))
          ≤ length c.data_vector =
        scaled (length entries) _ vertical_full_size _ (omega (arith, half)) enough in
      let set_up : (true && atlas.doubles.levels new == vertical_full_size) ≡ false =
        rw half refl in
      let (g, r, _, _, _) =
        populate_field-Copies atlas.doubles c.data_vector entries true is_lfric_convention new small
          below (omega (arith, wide)) fits set_up in
      let view =
        atlas.make_view-eq kind_real64 new
          (atlas.kind-create f (atlas.name f) vertical_half_size ∙ kind) in
      rw (first, levels, kind, found, get_container) (rw (view, r, caller_field))
