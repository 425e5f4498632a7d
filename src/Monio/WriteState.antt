-- ===== src/Monio/WriteState.antt =====
-- src/monio/Monio.cc: writeIncrements, writeState and writeFieldSet, on the rank that owns the files.
use monio.Base.{String, Bool, List, [], ◌∷◌, if◌then◌else◌, ◌==◌, nat_eq, string_eq}
use monio.Result.{zero_fields, field_configuration, netcdf_failure}
use monio.Exec.{Exec, pure, ◌>>=◌, ◌>>◌, lift}
use monio.Constants.{FieldMetadata}
use monio.FileData.{FileData, empty_file, clear_data}
use monio.Writer.{FileWrites}
use monio.Writer
use monio.AtlasWriter.Files.{populate_file_data_with_field}
use monio.AtlasWriter.Plain.{populate_file_data_of_field}
use monio.Monio.{get_file_data, clean_file_data, add_jedi_data}
use monio.Monio.State.{
  Monio, AtlasHost, throwing, component, on_writer, close_writer, state, set_heap, set_dim_count,
  catch_netcdf,
}

module _ {S F G File DateTime : Type 0} (host : AtlasHost S F G) (api : FileWrites File) where
  -- The names to write a field and its levels by. `lfric_name` is the name of the field in the
  -- convention of LFRic, which writeIncrements and writeState take from different members.
  unfoldable pub write_names :
      (FieldMetadata → String)
      → Bool
      → F
      → FieldMetadata
      → Exec (Monio File DateTime) (String × String)
  write_names lfric_name is_lfric_convention global_field field_metadata =
      if is_lfric_convention
      then pure (lfric_name field_metadata, field_metadata.lfric_vert_config)
      else if field_metadata.jedi_name == host.fields.name global_field
      then pure (field_metadata.jedi_name, field_metadata.jedi_vert_config)
      else throwing field_configuration

  -- The populated data of a file, written, and cleared for the next field.
  unfoldable pub write_file_data :
      FileData DateTime → Exec (Monio File DateTime) (FileData DateTime)
  write_file_data file = do
    populated ← state
    on_writer (Writer.write_metadata api populated.heap file.metadata)
    on_writer (Writer.write_data api file)
    pure (clear_data file)

  unfoldable pub write_field :
      (FieldMetadata → String)
      → Bool
      → S
      → FileData DateTime
      → FieldMetadata
      → Exec (Monio File DateTime) (FileData DateTime)
  unfolding write_names write_file_data
  write_field lfric_name is_lfric_convention set file field_metadata = do
    local_field ← lift (host.field_of set field_metadata.jedi_name)
    let global_field = host.get_global_field local_field
    names ← write_names lfric_name is_lfric_convention global_field field_metadata
    before ← state
    populated ← component (
        populate_file_data_with_field host.fields before.heap file global_field field_metadata
          names.0 names.1 is_lfric_convention)
    set_heap populated.0
    write_file_data populated.1

  -- The loop over the metadata of the fields, with the data that persist over it.
  unfoldable pub write_fields :
      (FieldMetadata → String)
      → Bool
      → S
      → FileData DateTime
      → List FieldMetadata
      → Exec (Monio File DateTime) (Unit {0})
  unfolding write_field
  write_fields lfric_name is_lfric_convention set file [] = pure tt
  write_fields lfric_name is_lfric_convention set file (field_metadata ∷ rest) =
      write_field lfric_name is_lfric_convention set file field_metadata >>= λ cleared.
      write_fields lfric_name is_lfric_convention set cleared rest

  -- A copy of the data of the grid, cleaned, with the vertical coordinates of JEDI where its
  -- convention is written.
  unfoldable pub write_base : S → Bool → Exec (Monio File DateTime) (FileData DateTime)
  write_base set is_lfric_convention = do
    field ← lift (host.first_field set)
    before ← state
    let copied = get_file_data before.files_data (host.grid_name (host.grid_of field))
    cleaned ← component (clean_file_data before.heap copied)
    set_heap cleaned.0
    added ←
        (if is_lfric_convention
          then pure cleaned
          else component (add_jedi_data cleaned.0 cleaned.1))
    set_heap added.0
    pure added.1

  -- The guards of the three, round what is written to a file of a path.
  unfoldable pub writing_file :
      S → String → Exec (Monio File DateTime) (Unit {0}) → Exec (Monio File DateTime) (Unit {0})
  writing_file set path call =
      if host.set_size set == 0
      then throwing zero_fields
      else if path == ""
      then pure tt
      else catch_netcdf netcdf_failure (call >> on_writer close_writer)

  unfoldable pub write_named :
      (FieldMetadata → String)
      → S
      → List FieldMetadata
      → String
      → Bool
      → Exec (Monio File DateTime) (Unit {0})
  unfolding write_fields write_base writing_file
  write_named lfric_name set fields_metadata path is_lfric_convention = writing_file set path (do
    file ← write_base set is_lfric_convention
    on_writer (Writer.open_file api path)
    write_fields lfric_name is_lfric_convention set file fields_metadata)

  unfoldable pub write_increments :
      S → List FieldMetadata → String → Bool → Exec (Monio File DateTime) (Unit {0})
  unfolding write_named
  write_increments = write_named (λ field_metadata. field_metadata.lfric_write_name)

  unfoldable pub write_state :
      S → List FieldMetadata → String → Bool → Exec (Monio File DateTime) (Unit {0})
  unfolding write_named
  write_state = write_named (λ field_metadata. field_metadata.lfric_read_name)

  -- The loop of writeFieldSet over the fields of the set.
  unfoldable pub write_set_fields :
      FileData DateTime → List F → Exec (Monio File DateTime) (Unit {0})
  unfolding write_file_data
  write_set_fields file [] = pure tt
  write_set_fields file (local_field ∷ rest) =
      (do
        let global_field = host.get_global_field local_field
        before ← state
        populated ← component (
            populate_file_data_of_field host.fields host.field_coords before.heap file
              before.dim_count global_field (host.fields.name global_field))
        set_heap populated.0
        set_dim_count populated.1.1
        write_file_data populated.1.0)
      >>= λ cleared. write_set_fields cleared rest

  unfoldable pub write_field_set : S → String → Exec (Monio File DateTime) (Unit {0})
  unfolding write_set_fields writing_file
  write_field_set set path =
      writing_file set path
        (on_writer (Writer.open_file api path) >> write_set_fields empty_file (host.set_fields set))
