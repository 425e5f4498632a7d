-- ===== src/RoundTrip/Disk.antt =====
-- From a field through a NetCDF file to a field: AtlasWriter.cc, Writer.cc, File.cc, Reader.cc and
-- AtlasReader.cc after each other.
use monio.Base.{
  ℕ, ◌*◌, ◌^◌, ◌≤◌, ◌<◌, String, ◌≡◌, refl, subst, sym, ◌∙◌, ap, false, [], ◌∷◌, none, some, length,
  arith, string_eq, ==_self,
}
use monio.Result.{ok}
use monio.Constants.{DataType, FieldMetadata}
use monio.Values.{Double}
use monio.Map.{Map, lookup, contains, insert}
use monio.Map.Laws.{lookup_head}
use monio.Map.Sorted.{IsSorted}
use monio.Variable.{Variable, get_total_size}
use monio.Heap.{Heap, Pointer}
use monio.Metadata.{Metadata, add_global_attr}
use monio.Metadata.Additions.{lookup-add_container}
use monio.Container.{Container, DataContainer, doubles, get_name, get_type}
use monio.Data.{Data, add_container}
use monio.FileData.{FileData}
use monio.Atlas.Fields.{FieldLibrary, kind_real64}
use monio.NetCdf.{NcLibrary, FileMode, KeepsValues}
use monio.File.Writes.Entries.{opened}
use monio.File.Calls.{file_reads, file_writes}
use monio.File.Values.{file_stores, read_full_datum-write_data}
use monio.Reader.{variable_of, read_full_datum}
use monio.Writer.{write_data}
use monio.Writer.Stored.{Writable}
use monio.AtlasReader.Populate.{AllBelow}
use monio.AtlasReader.Files.{populate_field_with_file_data}
use monio.AtlasWriter.Columns.{Distinct}
use monio.AtlasWriter.Metadata.{populate_metadata_with_field, add_global_attributes}
use monio.AtlasWriter.Files.{populate_file_data_with_field}
use monio.RoundTrip.Files.{populate_file_data_with_field-Populates}

add_container_first :
    (d : Data) (c : DataContainer)
    → d.data_containers ≡ []
    → (add_container d c).data_containers ≡ (get_name c, c) ∷ []
unfolding add_container contains insert lookup
add_container_first d c empty = rw empty

variables-add_global_attributes :
    (m : Metadata) → (add_global_attributes m false).variables ≡ m.variables
unfolding add_global_attributes add_global_attr
variables-add_global_attributes m = ground arith

module _ {F N DateTime : Type 0} (atlas : FieldLibrary F) (nc : NcLibrary N)
    (keeps : KeepsValues nc) where
  -- The field is put into the data of a file, they are written into the open file, the container is
  -- read from a file with the contents that this leaves, and the second field has its values.
  abbrev pub ComesBackFromDisk :
      Heap
      → FileData DateTime
      → Heap
      → FileData DateTime
      → N
      → F
      → F
      → FieldMetadata
      → String
      → String
      → Heap × Metadata
      → Type 0
  ComesBackFromDisk h file stored to n f g field_metadata name vert_config_name described =
      (file' : FileData DateTime) × (n' : N) × (read : FileData DateTime) × (g' : F)
      × (populate_file_data_with_field atlas h file f field_metadata name vert_config_name false
          ≡ ok (described.0, file'))
      × (write_data (file_writes nc) file' (record { file = some (opened FileMode.replace n) })
          ≡ (ok tt, record { file = some (opened FileMode.replace n') }))
      × (read_full_datum (file_reads nc) stored to name
            (record { file = some (opened FileMode.read n') })
          ≡ (ok read, record { file = some (opened FileMode.read n') }))
      × (populate_field_with_file_data atlas g read field_metadata name false ≡ ok g')
      × ((k l : ℕ)
          → k < length file.lfric_atlas_map
          → l < atlas.levels f
          → atlas.doubles.read g' k l ≡ atlas.doubles.read f k l)

  -- Let a field of doubles be put by populateFileDataWithField, in the JEDI convention, into a file's
  -- data that hold no containers yet. Its metadata can be written, with a variable of the name, and do
  -- not lack the first level; the map sends the columns of the field, one for each entry, to distinct
  -- columns; and the field has fewer than 2 ^ 31 values. Where the open NetCDF file takes that many
  -- doubles under the name, writeData writes them; and where the data to read into have the same map,
  -- no container of the name and a variable of doubles of that size, and a second field of doubles has the levels
  -- of the first and at least its columns, readFullDatum and populateFieldWithFileData get the values
  -- of the first into the second from the file, column by column and level by level.
  pub populate_field-read_full_datum :
      (h stored : Heap) (file to : FileData DateTime) (n : N) (f g : F)
      (field_metadata : FieldMetadata) (name vert_config_name : String)
      (described : Heap × Metadata) (p : Pointer) (v : Variable)
      → populate_metadata_with_field atlas h file.metadata f field_metadata name vert_config_name
        ≡ ok described
      → atlas.kind f ≡ kind_real64
      → field_metadata.no_first_level ≡ false
      → AllBelow (length file.lfric_atlas_map) file.lfric_atlas_map
      → Distinct file.lfric_atlas_map
      → atlas.columns f ≡ length file.lfric_atlas_map
      → atlas.columns f * atlas.levels f < 2 ^ 31
      → length file.lfric_atlas_map ≤ atlas.columns g
      → atlas.levels g ≡ atlas.levels f
      → atlas.kind g ≡ kind_real64
      → file.data_held.data_containers ≡ []
      → lookup name described.1.variables ≡ some p
      → ((c : Container Double)
          → length c.data_vector ≡ atlas.columns f * atlas.levels f
          → keeps.Takes n name (doubles c))
      → to.lfric_atlas_map ≡ file.lfric_atlas_map
      → lookup name to.data_held.data_containers ≡ none
      → variable_of (file_reads nc) stored to name ≡ ok v
      → v.type ≡ DataType.double
      → get_total_size v ≡ atlas.columns f * atlas.levels f
      → ComesBackFromDisk h file stored to n f g field_metadata name vert_config_name described
  unfolding get_name get_type
  populate_field-read_full_datum h stored file to n f g field_metadata name vert_config_name
        described p v metadata kind first below distinct columns small hg levels held_type empty
        has_variable takes same_map free found typed sized =
      let (after, g', size, made, populate, cells) =
        populate_file_data_with_field-Populates atlas h file f g field_metadata name
          vert_config_name described metadata kind first below distinct columns small hg levels
          held_type in
      let c : Container Double = record { name = name; data_vector = after } in
      let file' : FileData DateTime = record file {
        metadata = add_global_attributes described.1 false;
        data_held = add_container file.data_held (doubles c);
      } in
      let one : file'.data_held.data_containers ≡ (name, doubles c) ∷ [] =
        add_container_first file.data_held (doubles c) empty in
      let known : lookup name file'.metadata.variables ≡ some p =
        ap (λ (m : Map Pointer). lookup name m) (variables-add_global_attributes described.1)
        ∙ has_variable in
      let written : lookup name file'.data_held.data_containers ≡ some (doubles c) =
        ap (λ (m : Map DataContainer). lookup name m) one ∙ lookup_head name (doubles c) [] in
      let (n', wrote, read) =
        read_full_datum-write_data nc keeps file' to n stored name (doubles c) v
          (subst IsSorted (sym one) (tt, tt))
          (subst
            (λ (m : Map DataContainer).
              Writable (file_writes nc) (file_stores nc keeps) file'.metadata
                (opened FileMode.replace n) m)
            (sym one) (((p, known), (n, refl, takes c size)), tt))
          written refl found typed (sized ∙ sym size) (omega (arith, size, small)) in
      let held : lookup name (add_container to.data_held (doubles c)).data_containers
          ≡ some (doubles c) =
        lookup-add_container to.data_held (doubles c) name free ∙ (rw (==_self name)) in
      (
        file',
        n',
        record to { data_held = add_container to.data_held (doubles c) },
        g',
        made,
        wrote,
        read,
        populate (record to { data_held = add_container to.data_held (doubles c) }) same_map held,
        cells,
      )
