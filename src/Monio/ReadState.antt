-- ===== src/Monio/ReadState.antt =====
-- src/monio/Monio.cc: readState and readIncrements, on the rank that owns the files.
use monio.Base.{
  String, Bool, true, false, List, [], ◌∷◌, ℤ, pos, if◌then◌else◌, ◌==◌, nat_eq, int_eq, string_eq,
  Eq,
}
use monio.Result.{zero_fields, no_file_path, file_missing, netcdf_failure}
use monio.Exec.{Exec, pure, ◌>>=◌, lift}
use monio.Constants.{FieldMetadata, missing_variable_names, time_dim_name}
use monio.Utils.{find_in_vector}
use monio.Reader.{FileReads}
use monio.Reader
use monio.AtlasReader.Files.{populate_field_with_file_data}
use monio.Monio.{get_file_data}
use monio.Monio.State.{
  Monio, AtlasHost, Clock, throwing, view_component, on_reader, close_reader, state, catch_netcdf,
}
use monio.Monio.Initialise.{initialise_file}

-- The name to read: variableConvention == eJediConvention selects the name of JEDI.
unfoldable pub read_name_of : ℤ → FieldMetadata → String
read_name_of convention field_metadata =
    if convention == pos 1 then field_metadata.jedi_name else field_metadata.lfric_read_name

module _ {S F G File DateTime : Type 0} (host : AtlasHost S F G) (api : FileReads File)
    (clock : Clock DateTime) (file_exists : String → Bool) where
  -- One round of readState: the set of fields after it.
  unfoldable pub read_state_field :
      ⦃e : Eq DateTime⦄ → S → String → DateTime → FieldMetadata → Exec (Monio File DateTime) S
  unfolding read_name_of initialise_file
  read_state_field set path time field_metadata = do
    local_field ← lift (host.field_of set field_metadata.jedi_name)
    let global_field = host.get_global_field local_field
    let grid = host.grid_of global_field
    convention ← initialise_file host api clock grid path true
    initialised ← state
    let file = get_file_data initialised.files_data (host.grid_name grid)
    let read_name = read_name_of convention field_metadata
    filled ←
        (if find_in_vector missing_variable_names read_name
          then pure global_field
          else (on_reader
                (Reader.read_datum_at_time api initialised.heap file read_name time time_dim_name)
              >>= λ read. view_component (
                  populate_field_with_file_data host.fields global_field read field_metadata
                    read_name (convention == pos 0))))
    pure (host.put_field set field_metadata.jedi_name (host.scatter filled local_field))

  unfoldable pub read_state_fields :
      ⦃e : Eq DateTime⦄ → S → String → DateTime → List FieldMetadata → Exec (Monio File DateTime) S
  unfolding read_state_field
  read_state_fields set path time [] = pure set
  read_state_fields set path time (field_metadata ∷ rest) =
      read_state_field set path time field_metadata >>= λ read.
      read_state_fields read path time rest

  unfoldable pub read_increments_field : S → String → FieldMetadata → Exec (Monio File DateTime) S
  unfolding read_name_of initialise_file
  read_increments_field set path field_metadata = do
    local_field ← lift (host.field_of set field_metadata.jedi_name)
    let global_field = host.get_global_field local_field
    let grid = host.grid_of global_field
    convention ← initialise_file host api clock grid path false
    initialised ← state
    let file = get_file_data initialised.files_data (host.grid_name grid)
    let read_name = read_name_of convention field_metadata
    read ← on_reader (Reader.read_full_datum api initialised.heap file read_name)
    filled ← view_component (
        populate_field_with_file_data host.fields global_field read field_metadata read_name
          (convention == pos 0))
    pure (host.put_field set field_metadata.jedi_name (host.scatter filled local_field))

  unfoldable pub read_increments_fields :
      S → String → List FieldMetadata → Exec (Monio File DateTime) S
  unfolding read_increments_field
  read_increments_fields set path [] = pure set
  read_increments_fields set path (field_metadata ∷ rest) =
      read_increments_field set path field_metadata >>= λ read.
      read_increments_fields read path rest

  -- The guards of both, round what is done with a file that exists.
  unfoldable pub reading_file :
      S → String → Exec (Monio File DateTime) S → Exec (Monio File DateTime) S
  reading_file set path call =
      if host.set_size set == 0
      then throwing zero_fields
      else if path == ""
      then throwing no_file_path
      else if file_exists path
      then catch_netcdf netcdf_failure
          (call >>= λ read. on_reader close_reader >>= λ closed. pure read)
      else throwing (file_missing path)

  unfoldable pub read_state :
      ⦃e : Eq DateTime⦄ → S → List FieldMetadata → String → DateTime → Exec (Monio File DateTime) S
  unfolding read_state_fields reading_file
  read_state set fields_metadata path time =
      reading_file set path (read_state_fields set path time fields_metadata)

  unfoldable pub read_increments : S → List FieldMetadata → String → Exec (Monio File DateTime) S
  unfolding read_increments_fields reading_file
  read_increments set fields_metadata path =
      reading_file set path (read_increments_fields set path fields_metadata)
