-- ===== src/RoundTrip/Files.antt =====
-- From a field through the data of a file to a field, by the entry points of AtlasWriter.cc and
-- AtlasReader.cc.
use monio.Base.{
  ℕ, ◌*◌, ◌^◌, ◌≤◌, ◌<◌, String, ◌≡◌, refl, ap, sym, ◌∙◌, false, List, [], none, some, length,
  arith, string_eq, ==_self, lt→ltb,
}
use monio.Result.{ok}
use monio.Constants.{FieldMetadata}
use monio.Values.{Double, zero_double}
use monio.Map.{lookup}
use monio.Heap.{Heap}
use monio.Metadata.{Metadata}
use monio.Metadata.Additions.{lookup-add_container}
use monio.Container.{Container, doubles, get_name, make_container, set_size, clear, resize}
use monio.Container.Datum.{length-resize}
use monio.Data.{get_container, add_container}
use monio.FileData.{FileData}
use monio.Atlas.Fields.{FieldLibrary, kind_real64}
use monio.UtilsAtlas.{idx, get_global_data_size}
use monio.AtlasReader.Populate.{AllBelow}
use monio.AtlasReader.Files.{
  get_read_field, populate_field_with_data_container, populate_field_with_file_data,
}
use monio.AtlasWriter.{populate_data_vec}
use monio.AtlasWriter.Columns.{Distinct, populate_data_vec-Written}
use monio.AtlasWriter.Metadata.{populate_metadata_with_field, add_global_attributes}
use monio.AtlasWriter.Files.{
  filled_container, populate_data_container_with_field, populate_file_data_with_field,
}
use monio.RoundTrip.{populate_field-populate_data_vec}

module _ {F : Type 0} (atlas : FieldLibrary F) where
  data_container-eq :
      (f : F) (entries : List ℕ) (name : String) (after : List Double)
      → atlas.kind f ≡ kind_real64
      → atlas.columns f * atlas.levels f < 2 ^ 31
      → populate_data_vec atlas.doubles
          (resize zero_double (atlas.columns f * atlas.levels f) [])
          f
          entries
        ≡ ok after
      → populate_data_container_with_field atlas f entries name
        ≡ ok (doubles (record { name = name; data_vector = after }))
  unfolding populate_data_container_with_field get_global_data_size idx filled_container
      make_container clear set_size
  data_container-eq f entries name after kind small w = rw (
    lt→ltb (atlas.columns f * atlas.levels f) (2 ^ 31) small,
    kind,
    w,
    populate_data_container_with_field,
  )

module _ {F DateTime : Type 0} (atlas : FieldLibrary F) where
  abbrev pub ComesBackFromFile :
      Heap → FileData DateTime → F → F → FieldMetadata → String → String → Heap × Metadata → Type 0
  ComesBackFromFile h file f g field_metadata name vert_config_name described =
      (file' : FileData DateTime) × (g' : F) × (populate_file_data_with_field atlas h file f
          field_metadata name vert_config_name false
        ≡ ok (described.0, file'))
      × (populate_field_with_file_data atlas g file' field_metadata name false ≡ ok g')
      × ((k l : ℕ)
          → k < length file.lfric_atlas_map
          → l < atlas.levels f
          → atlas.doubles.read g' k l ≡ atlas.doubles.read f k l)

  -- The data that the field is put into, and what is read from any file's data that has them and the
  -- map.
  abbrev pub Populates :
      Heap → FileData DateTime → F → F → FieldMetadata → String → String → Heap × Metadata → Type 0
  Populates h file f g field_metadata name vert_config_name described =
      (after : List Double) × (g' : F) × (length after ≡ atlas.columns f * atlas.levels f)
      × (populate_file_data_with_field atlas h file f field_metadata name vert_config_name false
          ≡ ok (
            described.0,
            record file {
              metadata = add_global_attributes described.1 false;
              data_held =
                  add_container file.data_held
                    (doubles (record { name = name; data_vector = after }));
            },
          ))
      × ((to : FileData DateTime)
          → to.lfric_atlas_map ≡ file.lfric_atlas_map
          → lookup name to.data_held.data_containers
            ≡ some (doubles (record { name = name; data_vector = after }))
          → populate_field_with_file_data atlas g to field_metadata name false ≡ ok g')
      × ((k l : ℕ)
          → k < length file.lfric_atlas_map
          → l < atlas.levels f
          → atlas.doubles.read g' k l ≡ atlas.doubles.read f k l)

  pub populate_file_data_with_field-Populates :
      (h : Heap) (file : FileData DateTime) (f g : F) (field_metadata : FieldMetadata)
      (name vert_config_name : String) (described : Heap × Metadata)
      → populate_metadata_with_field atlas h file.metadata f field_metadata name vert_config_name
        ≡ ok described
      → atlas.kind f ≡ kind_real64
      → field_metadata.no_first_level ≡ false
      → AllBelow (length file.lfric_atlas_map) file.lfric_atlas_map
      → Distinct file.lfric_atlas_map
      → atlas.columns f ≡ length file.lfric_atlas_map
      → atlas.columns f * atlas.levels f < 2 ^ 31
      → length file.lfric_atlas_map ≤ atlas.columns g
      → atlas.levels g ≡ atlas.levels f
      → atlas.kind g ≡ kind_real64
      → Populates h file f g field_metadata name vert_config_name described
  unfolding populate_file_data_with_field populate_field_with_file_data get_read_field
      populate_field_with_data_container get_container
  populate_file_data_with_field-Populates h file f g field_metadata name vert_config_name described
        metadata kind first below distinct columns small hg levels typed =
      let entries = file.lfric_atlas_map in
      let size = atlas.columns f * atlas.levels f in
      let start = resize zero_double size [] in
      let fits : length start ≤ 2 ^ 31 = omega (arith, length-resize zero_double size []) in
      let whole : length entries * atlas.doubles.levels f ≡ length start =
        ap (λ (n : ℕ). length entries * n) (atlas.levels-doubles f)
        ∙ ap (λ (n : ℕ). n * atlas.levels f) (sym columns)
        ∙ sym (length-resize zero_double size []) in
      let wide : length entries ≤ atlas.doubles.columns f =
        omega (arith, atlas.columns-doubles f) in
      let (after, g', w, r, cells) =
        populate_field-populate_data_vec atlas.doubles start f g entries false fits whole wide below
          distinct (omega (arith, atlas.columns-doubles g))
          (atlas.levels-doubles g ∙ levels ∙ sym (atlas.levels-doubles f)) in
      let (written, w', kept, _) =
        populate_data_vec-Written atlas.doubles start f entries fits whole wide below distinct in
      let same : written ≡ after = cc in
      let made = data_container-eq atlas f entries name after kind small w in
      (
        after,
        g',
        ap length (sym same) ∙ kept ∙ length-resize zero_double size [],
        rw (metadata, made),
        λ to same_map found.
            rw (first, found, same_map, get_container, atlas.make_view-eq kind_real64 g typed) r,
        λ k l hk hl. cells k l hk (omega (arith, atlas.levels-doubles f)),
      )

  -- A field of doubles that populateFileDataWithField puts into a file in the JEDI convention, under
  -- a name that has no data yet, is what populateFieldWithFileData gets back by that name into a field
  -- of doubles of as many levels and at least as many columns, where the metadata can be written and do not lack
  -- the first level, the map sends the columns, one for each entry, to distinct columns, and the field
  -- has fewer than 2 ^ 31 values.
  pub populate_field_with_file_data-populate_file_data_with_field :
      (h : Heap) (file : FileData DateTime) (f g : F) (field_metadata : FieldMetadata)
      (name vert_config_name : String) (described : Heap × Metadata)
      → populate_metadata_with_field atlas h file.metadata f field_metadata name vert_config_name
        ≡ ok described
      → atlas.kind f ≡ kind_real64
      → field_metadata.no_first_level ≡ false
      → lookup name file.data_held.data_containers ≡ none
      → AllBelow (length file.lfric_atlas_map) file.lfric_atlas_map
      → Distinct file.lfric_atlas_map
      → atlas.columns f ≡ length file.lfric_atlas_map
      → atlas.columns f * atlas.levels f < 2 ^ 31
      → length file.lfric_atlas_map ≤ atlas.columns g
      → atlas.levels g ≡ atlas.levels f
      → atlas.kind g ≡ kind_real64
      → ComesBackFromFile h file f g field_metadata name vert_config_name described
  unfolding get_name
  populate_field_with_file_data-populate_file_data_with_field h file f g field_metadata name
        vert_config_name described metadata kind first free below distinct columns small hg levels
        typed =
      let (after, g', size, made, read, cells) =
        populate_file_data_with_field-Populates h file f g field_metadata name vert_config_name
          described metadata kind first below distinct columns small hg levels typed in
      let c : Container Double = record { name = name; data_vector = after } in
      let found : lookup name (add_container file.data_held (doubles c)).data_containers
          ≡ some (doubles c) =
        lookup-add_container file.data_held (doubles c) name free ∙ (rw (==_self name)) in
      let file' : FileData DateTime = record file {
        metadata = add_global_attributes described.1 false;
        data_held = add_container file.data_held (doubles c);
      } in
      (file', g', made, read file' refl found, cells)
