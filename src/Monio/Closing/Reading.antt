-- ===== src/Monio/Closing/Reading.antt =====
-- src/monio/Monio.cc: what readState and readIncrements leave of the reader.
use monio.Base.{
  ℕ, String, Bool, true, false, List, [], ◌∷◌, pos, ◌==◌, nat_eq, int_eq, string_eq, Eq, ◌≡◌, refl,
  subst,
}
use monio.Result.{
  Result, ok, err, Error, zero_fields, no_file_path, file_missing, netcdf_failure, view_type,
}
use monio.Exec.{Exec, pure, ◌>>=◌, continue}
use monio.Exec.Closes.{
  Closes, Closes-ok, Closes-pure, Closes-lift, Closes-cleaning, Closes-if, ◌>>>◌,
}
use monio.Constants.{FieldMetadata, missing_variable_names, time_dim_name}
use monio.Utils.{find_in_vector}
use monio.AtlasReader.Files.{populate_field_with_file_data}
use monio.Reader.{FileReads}
use monio.Reader.Closing as ReaderClosing
use monio.Monio.{get_file_data}
use monio.Monio.State.{
  Monio, AtlasHost, Clock, close_files, closes_but_view, view_component, on_reader, close_reader,
  catch_netcdf,
}
use monio.Monio.ReadState.{
  read_name_of, read_state_field, read_state_fields, read_increments_field, read_increments_fields,
  reading_file, read_state, read_increments,
}
use monio.Monio.Closing.{
  IsReaderClosed, EndsClosed, close_files-IsReaderClosed, on_reader-Closes, state-Closes,
  catching-EndsClosed, if-EndsClosed, throwing-EndsClosed,
}
use monio.Monio.Closing.Initialise.{initialise_file-Closes}

module _ {S F G File DateTime : Type 0} (host : AtlasHost S F G) (api : FileReads File)
    (clock : Clock DateTime) (file_exists : String → Bool) (Outside : Error → Type 0)
    (fails : ReaderClosing.FailsOutside api Outside)
    (parse_fails : (text : List ℕ) (e : Error) → clock.parse text ≡ err e → Outside e)
    (set_fails : (set : S) (name : String) (e : Error) → host.field_of set name ≡ err e → Outside e)
    (view_fails : Outside view_type) where
  view_component-Closes :
      {A : Type 0} (r : Result A)
      → Closes {S = Monio File DateTime} Outside IsReaderClosed (view_component r)
  unfolding view_component closes_but_view
  view_component-Closes (ok a) = Closes-pure a
  view_component-Closes (err view_type) = Closes-lift _ (λ e p. subst Outside (cc) view_fails)
  view_component-Closes (err x) = Closes-cleaning close_files (err x) close_files-IsReaderClosed

  read_increments_field-Closes :
      (set : S) (path : String) (field_metadata : FieldMetadata)
      → Closes {S = Monio File DateTime} Outside IsReaderClosed
          (read_increments_field host api clock file_exists set path field_metadata)
  unfolding read_increments_field
  read_increments_field-Closes set path field_metadata =
      Closes-lift _ (set_fails set field_metadata.jedi_name) >>> λ local_field.
      let grid = host.grid_of (host.get_global_field local_field) in
      initialise_file-Closes api clock Outside fails parse_fails host grid path false
      >>> λ convention. state-Closes Outside IsReaderClosed >>> λ initialised.
          let file = get_file_data initialised.files_data (host.grid_name grid) in
          on_reader-Closes Outside _ (
            ReaderClosing.read_full_datum-Closes api Outside fails initialised.heap file
              (read_name_of convention field_metadata))
          >>> λ read.
              view_component-Closes (
                populate_field_with_file_data host.fields (host.get_global_field local_field) read
                  field_metadata (read_name_of convention field_metadata) (convention == pos 0))
              >>> λ filled. Closes-pure _

  read_increments_fields-Closes :
      (set : S) (path : String) (fields_metadata : List FieldMetadata)
      → Closes {S = Monio File DateTime} Outside IsReaderClosed
          (read_increments_fields host api clock file_exists set path fields_metadata)
  unfolding read_increments_fields
  read_increments_fields-Closes set path [] = Closes-pure set
  read_increments_fields-Closes set path (field_metadata ∷ rest) =
      read_increments_field-Closes set path field_metadata >>> λ read.
      read_increments_fields-Closes read path rest

  read_state_field-Closes :
      ⦃e : Eq DateTime⦄ (set : S) (path : String) (time : DateTime) (field_metadata : FieldMetadata)
      → Closes {S = Monio File DateTime} Outside IsReaderClosed
          (read_state_field host api clock file_exists set path time field_metadata)
  unfolding read_state_field
  read_state_field-Closes set path time field_metadata =
      Closes-lift _ (set_fails set field_metadata.jedi_name) >>> λ local_field.
      let grid = host.grid_of (host.get_global_field local_field) in
      initialise_file-Closes api clock Outside fails parse_fails host grid path true
      >>> λ convention. state-Closes Outside IsReaderClosed >>> λ initialised.
          let file = get_file_data initialised.files_data (host.grid_name grid) in
          let read_name = read_name_of convention field_metadata in
          Closes-if (find_in_vector missing_variable_names read_name) _ _ (Closes-pure _) (
            on_reader-Closes Outside _ (
              ReaderClosing.read_datum_at_time-Closes api Outside fails initialised.heap file
                read_name time time_dim_name)
            >>> λ read. view_component-Closes (
                populate_field_with_file_data host.fields (host.get_global_field local_field) read
                  field_metadata read_name (convention == pos 0)))
          >>> λ filled. Closes-pure _

  read_state_fields-Closes :
      ⦃e : Eq DateTime⦄ (set : S) (path : String) (time : DateTime)
      (fields_metadata : List FieldMetadata)
      → Closes {S = Monio File DateTime} Outside IsReaderClosed
          (read_state_fields host api clock file_exists set path time fields_metadata)
  unfolding read_state_fields
  read_state_fields-Closes set path time [] = Closes-pure set
  read_state_fields-Closes set path time (field_metadata ∷ rest) =
      read_state_field-Closes set path time field_metadata >>> λ read.
      read_state_fields-Closes read path time rest

  -- The last call in the try block, and what comes after it.
  unfoldable shut : S → Exec (Monio File DateTime) S
  shut read = on_reader close_reader >>= λ closed. pure read

  shut-IsReaderClosed : (read : S) (s : Monio File DateTime) → IsReaderClosed (shut read s).1
  unfolding shut on_reader IsReaderClosed
  shut-IsReaderClosed read s = ReaderClosing.closed-IsClosed s.reader

  ended-IsReaderClosed :
      (r : Result S × Monio File DateTime) (a : S)
      → (continue shut r).0 ≡ ok a
      → IsReaderClosed (continue shut r).1
  ended-IsReaderClosed (ok read, s) a p = shut-IsReaderClosed read s
  ended-IsReaderClosed (err e, s) a p = absurd cc

  shut-Closes : (read : S) → Closes Outside IsReaderClosed (shut read)
  unfolding shut on_reader
  shut-Closes read = Closes-ok (shut read) (λ s. (read, refl))

  reading_file-EndsClosed :
      (set : S) (path : String) (call : Exec (Monio File DateTime) S) (s : Monio File DateTime)
      → Closes Outside IsReaderClosed call
      → EndsClosed Outside IsReaderClosed (reading_file host api clock file_exists set path call s)
  unfolding reading_file catch_netcdf shut
  reading_file-EndsClosed set path call s h =
      if-EndsClosed Outside IsReaderClosed (host.set_size set == 0) _ _ s
        (λ p. throwing-EndsClosed Outside IsReaderClosed S zero_fields s close_files-IsReaderClosed)
        (if-EndsClosed Outside IsReaderClosed (path == "") _ _ s
          (λ p.
            throwing-EndsClosed Outside IsReaderClosed S no_file_path s close_files-IsReaderClosed)
          (if-EndsClosed Outside IsReaderClosed (file_exists path) _ _ s
            (λ p.
              catching-EndsClosed Outside IsReaderClosed netcdf_failure ((call >>= shut) s)
                close_files-IsReaderClosed ((h >>> shut-Closes).at s)
                (ended-IsReaderClosed (call s)))
            (throwing-EndsClosed Outside IsReaderClosed S (file_missing path) s
              close_files-IsReaderClosed)))

  read_state-EndsClosed :
      ⦃e : Eq DateTime⦄ (set : S) (fields_metadata : List FieldMetadata) (path : String)
      (time : DateTime) (s : Monio File DateTime)
      → EndsClosed Outside IsReaderClosed
          (read_state host api clock file_exists set fields_metadata path time s)
  unfolding read_state
  read_state-EndsClosed set fields_metadata path time s =
      reading_file-EndsClosed set path _ s (read_state_fields-Closes set path time fields_metadata)

  read_increments-EndsClosed :
      (set : S) (fields_metadata : List FieldMetadata) (path : String) (s : Monio File DateTime)
      → EndsClosed Outside IsReaderClosed
          (read_increments host api clock file_exists set fields_metadata path s)
  unfolding read_increments
  read_increments-EndsClosed set fields_metadata path s =
      reading_file-EndsClosed set path _ s (read_increments_fields-Closes set path fields_metadata)

  -- Take `Outside` to hold of the errors that the calls of the file, the parse of a date-time and
  -- the look-up of a field in a set give, of that of a reader without a file, of an access outside a
  -- vector, of the length_error of setSize and of the exception of make_view. Then a read of a state, and one of increments, leaves no file open in the
  -- reader, whatever was open before: where it returns, and where it throws any error but one of
  -- `Outside`; and an exception of the NetCDF library never comes out with a file open.
  pub reads-EndsClosed :
      ⦃e : Eq DateTime⦄ (set : S) (fields_metadata : List FieldMetadata) (path : String)
      (time : DateTime) (s : Monio File DateTime)
      → EndsClosed Outside IsReaderClosed
          (read_state host api clock file_exists set fields_metadata path time s)
        × EndsClosed Outside IsReaderClosed
            (read_increments host api clock file_exists set fields_metadata path s)
  reads-EndsClosed set fields_metadata path time s = (
    read_state-EndsClosed set fields_metadata path time s,
    read_increments-EndsClosed set fields_metadata path s,
  )
