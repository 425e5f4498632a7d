-- ===== src/Monio/Closing/Writing.antt =====
-- src/monio/Monio.cc: what writeIncrements, writeState and writeFieldSet leave of the writer.
use monio.Base.{
  String, Bool, false, List, [], ◌∷◌, ◌==◌, nat_eq, string_eq, ◌≡◌, refl, ◌⊎◌, inl, inr,
}
use monio.Result.{Result, ok, err, Error, zero_fields, field_configuration, netcdf_failure}
use monio.Exec.{Exec, ◌>>=◌, continue}
use monio.Exec.Closes.{
  Closes, Closes-ok, Closes-pure, Closes-lift, Closes-cleaning, Closes-if, ◌>>>◌,
}
use monio.Constants.{FieldMetadata}
use monio.FileData.{FileData, empty_file, clear_data}
use monio.AtlasWriter.Files.{populate_file_data_with_field}
use monio.AtlasWriter.Plain.{populate_file_data_of_field}
use monio.Writer.{FileWrites}
use monio.Writer.Closing as WriterClosing
use monio.Monio.{get_file_data, clean_file_data, add_jedi_data}
use monio.Monio.State.{
  Monio, AtlasHost, close_files, component, on_writer, close_writer, catch_netcdf,
}
use monio.Monio.WriteState.{
  write_names, write_file_data, write_field, write_fields, write_base, writing_file, write_named,
  write_increments, write_state, write_set_fields, write_field_set,
}
use monio.Monio.Closing.{
  IsWriterClosed, EndsClosed, close_files-IsWriterClosed, on_writer-Closes, state-Closes,
  set_heap-Closes, set_dim_count-Closes, catching-EndsClosed, if-EndsClosed, throwing-EndsClosed,
}

module _ {S F G File DateTime : Type 0} (host : AtlasHost S F G) (api : FileWrites File)
    (Outside : Error → Type 0) (fails : WriterClosing.FailsOutside api Outside)
    (set_fails : (set : S) (name : String) (e : Error) → host.field_of set name ≡ err e → Outside e)
    (first_fails : (set : S) (e : Error) → host.first_field set ≡ err e → Outside e) where
  -- A call of another component closes the files before it throws.
  component-Closes :
      {A : Type 0} (r : Result A)
      → Closes {S = Monio File DateTime} Outside IsWriterClosed (component r)
  component-Closes r = Closes-cleaning close_files r close_files-IsWriterClosed

  write_names-Closes :
      (lfric_name : FieldMetadata → String) (is_lfric_convention : Bool) (global_field : F)
      (field_metadata : FieldMetadata)
      → Closes {S = Monio File DateTime} Outside IsWriterClosed
          (write_names host api lfric_name is_lfric_convention global_field field_metadata)
  unfolding write_names
  write_names-Closes lfric_name is_lfric_convention global_field field_metadata =
      Closes-if is_lfric_convention _ _ (Closes-pure _) (
        Closes-if (field_metadata.jedi_name == host.fields.name global_field) _ _ (Closes-pure _)
          (component-Closes (err field_configuration)))

  write_file_data-Closes :
      (file : FileData DateTime) → Closes Outside IsWriterClosed (write_file_data host api file)
  unfolding write_file_data
  write_file_data-Closes file = state-Closes Outside IsWriterClosed >>> λ populated.
      on_writer-Closes Outside _
        (WriterClosing.write_metadata-Closes api Outside fails populated.heap file.metadata)
      >>> λ described.
          on_writer-Closes Outside _ (WriterClosing.write_data-Closes api Outside fails file)
          >>> λ written. Closes-pure (clear_data file)

  write_field-Closes :
      (lfric_name : FieldMetadata → String) (is_lfric_convention : Bool) (set : S)
      (file : FileData DateTime) (field_metadata : FieldMetadata)
      → Closes Outside IsWriterClosed
          (write_field host api lfric_name is_lfric_convention set file field_metadata)
  unfolding write_field
  write_field-Closes lfric_name is_lfric_convention set file field_metadata =
      Closes-lift _ (set_fails set field_metadata.jedi_name) >>> λ local_field.
      let global_field = host.get_global_field local_field in
      write_names-Closes lfric_name is_lfric_convention global_field field_metadata >>> λ names.
      state-Closes Outside IsWriterClosed >>> λ before.
      component-Closes (
        populate_file_data_with_field host.fields before.heap file global_field field_metadata
          names.0 names.1 is_lfric_convention)
      >>> λ populated. set_heap-Closes Outside IsWriterClosed populated.0 >>> λ kept.
          write_file_data-Closes populated.1

  write_fields-Closes :
      (lfric_name : FieldMetadata → String) (is_lfric_convention : Bool) (set : S)
      (file : FileData DateTime) (fields_metadata : List FieldMetadata)
      → Closes Outside IsWriterClosed
          (write_fields host api lfric_name is_lfric_convention set file fields_metadata)
  unfolding write_fields
  write_fields-Closes lfric_name is_lfric_convention set file [] = Closes-pure tt
  write_fields-Closes lfric_name is_lfric_convention set file (field_metadata ∷ rest) =
      write_field-Closes lfric_name is_lfric_convention set file field_metadata >>> λ cleared.
      write_fields-Closes lfric_name is_lfric_convention set cleared rest

  write_base-Closes :
      (set : S) (is_lfric_convention : Bool)
      → Closes {S = Monio File DateTime} Outside IsWriterClosed
          (write_base host api set is_lfric_convention)
  unfolding write_base
  write_base-Closes set is_lfric_convention = Closes-lift _ (first_fails set) >>> λ field.
      state-Closes Outside IsWriterClosed >>> λ before.
      component-Closes (
        clean_file_data before.heap
          (get_file_data before.files_data (host.grid_name (host.grid_of field))))
      >>> λ cleaned. set_heap-Closes Outside IsWriterClosed cleaned.0 >>> λ kept.
          Closes-if is_lfric_convention _ _ (Closes-pure cleaned)
            (component-Closes (add_jedi_data cleaned.0 cleaned.1))
          >>> λ added.
              set_heap-Closes Outside IsWriterClosed added.0 >>> λ stored. Closes-pure added.1

  write_set_fields-Closes :
      (file : FileData DateTime) (fields : List F)
      → Closes Outside IsWriterClosed (write_set_fields host api file fields)
  unfolding write_set_fields
  write_set_fields-Closes file [] = Closes-pure tt
  write_set_fields-Closes file (local_field ∷ rest) =
      let global_field = host.get_global_field local_field in
      (state-Closes Outside IsWriterClosed >>> λ before.
      component-Closes (
        populate_file_data_of_field host.fields host.field_coords before.heap file before.dim_count
          global_field (host.fields.name global_field))
      >>> λ populated. set_heap-Closes Outside IsWriterClosed populated.0 >>> λ kept.
          set_dim_count-Closes Outside IsWriterClosed populated.1.1 >>> λ counted.
          write_file_data-Closes populated.1.0)
      >>> λ cleared. write_set_fields-Closes cleared rest

  -- The last call in the try block.
  abbrev shut : Unit {0} → Exec (Monio File DateTime) (Unit {0})
  shut written = on_writer close_writer

  ended-IsWriterClosed :
      (r : Result (Unit {0}) × Monio File DateTime) (a : Unit {0})
      → (continue shut r).0 ≡ ok a
      → IsWriterClosed (continue shut r).1
  unfolding on_writer IsWriterClosed
  ended-IsWriterClosed (ok written, s) a p = WriterClosing.closed-IsClosed s.writer
  ended-IsWriterClosed (err e, s) a p = absurd cc

  shut-Closes : (written : Unit {0}) → Closes Outside IsWriterClosed (shut written)
  unfolding on_writer
  shut-Closes written = Closes-ok (shut written) (λ s. (tt, refl))

  writing_file-EndsClosed :
      (set : S) (path : String) (call : Exec (Monio File DateTime) (Unit {0}))
      (s : Monio File DateTime)
      → Closes Outside IsWriterClosed call
      → ((path == "") ≡ false) ⊎ IsWriterClosed s
      → EndsClosed Outside IsWriterClosed (writing_file host api set path call s)
  unfolding writing_file catch_netcdf EndsClosed
  writing_file-EndsClosed set path call s h before =
      if-EndsClosed Outside IsWriterClosed (host.set_size set == 0) _ _ s
        (λ p.
          throwing-EndsClosed Outside IsWriterClosed (Unit {0}) zero_fields s
            close_files-IsWriterClosed)
        (if-EndsClosed Outside IsWriterClosed (path == "") _ _ s
          (λ p. elim before [ inl some_path ↦ absurd cc | inr closed ↦ closed ])
          (catching-EndsClosed Outside IsWriterClosed netcdf_failure ((call >>= shut) s)
            close_files-IsWriterClosed ((h >>> shut-Closes).at s) (ended-IsWriterClosed (call s))))

  write_named-EndsClosed :
      (lfric_name : FieldMetadata → String) (set : S) (fields_metadata : List FieldMetadata)
      (path : String) (is_lfric_convention : Bool) (s : Monio File DateTime)
      → ((path == "") ≡ false) ⊎ IsWriterClosed s
      → EndsClosed Outside IsWriterClosed
          (write_named host api lfric_name set fields_metadata path is_lfric_convention s)
  unfolding write_named
  write_named-EndsClosed lfric_name set fields_metadata path is_lfric_convention s before =
      writing_file-EndsClosed set path _ s
        (write_base-Closes set is_lfric_convention >>> λ file.
          on_writer-Closes Outside _ (WriterClosing.open_file-Closes api Outside fails path)
          >>> λ opened. write_fields-Closes lfric_name is_lfric_convention set file fields_metadata)
        before

  write_field_set-EndsClosed :
      (set : S) (path : String) (s : Monio File DateTime)
      → ((path == "") ≡ false) ⊎ IsWriterClosed s
      → EndsClosed Outside IsWriterClosed (write_field_set host api set path s)
  unfolding write_field_set
  write_field_set-EndsClosed set path s = writing_file-EndsClosed set path _ s (
      on_writer-Closes Outside _ (WriterClosing.open_file-Closes api Outside fails path)
      >>> λ opened. write_set_fields-Closes empty_file (host.set_fields set))

  -- Take `Outside` to hold of the errors that the calls of the file and the look-ups in a set of
  -- fields give, and of that of a writer without a file. Then, where a path is given or the writer
  -- had no file before, the writes of increments, of a state and of a set of fields leave no file
  -- open in the writer: where they return, and where they throw any error but one of `Outside`; and
  -- an exception of the NetCDF library never comes out with a file open.
  pub writes-EndsClosed :
      (set : S) (fields_metadata : List FieldMetadata) (path : String) (is_lfric_convention : Bool)
      (s : Monio File DateTime)
      → ((path == "") ≡ false) ⊎ IsWriterClosed s
      → EndsClosed Outside IsWriterClosed
          (write_increments host api set fields_metadata path is_lfric_convention s)
        × EndsClosed Outside IsWriterClosed
            (write_state host api set fields_metadata path is_lfric_convention s)
        × EndsClosed Outside IsWriterClosed (write_field_set host api set path s)
  unfolding write_increments write_state
  writes-EndsClosed set fields_metadata path is_lfric_convention s before = (
    write_named-EndsClosed _ set fields_metadata path is_lfric_convention s before,
    write_named-EndsClosed _ set fields_metadata path is_lfric_convention s before,
    write_field_set-EndsClosed set path s before,
  )
