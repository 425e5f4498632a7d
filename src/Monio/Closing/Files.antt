-- ===== src/Monio/Closing/Files.antt =====
-- src/monio/Monio.cc over src/monio/File.cc: what the reads and writes leave open, for any NetCDF
-- library that throws its own exceptions only.
use monio.Base.{ℕ, String, Bool, false, List, ◌≡◌, ◌==◌, string_eq, Eq, ◌⊎◌, inl, inr, refl}
use monio.Result.{err, Error, view_type, vector_length}
use monio.Constants.{FieldMetadata}
use monio.NetCdf.{NcLibrary}
use monio.File.{File}
use monio.File.Calls.{file_reads, file_writes}
use monio.File.Throws.{IsOfFile, ThrowsNc}
use monio.File.Throws.Reading.{file_reads-FailsOutside}
use monio.File.Throws.Writing.{file_writes-FailsOutside}
use monio.Monio.State.{Monio, AtlasHost, Clock}
use monio.Monio.ReadState.{read_state, read_increments}
use monio.Monio.WriteState.{write_increments, write_state, write_field_set}
use monio.Monio.Closing.{EndsClosed, IsReaderClosed, IsWriterClosed}
use monio.Monio.Closing.Reading.{reads-EndsClosed}
use monio.Monio.Closing.Writing.{writes-EndsClosed}

-- An error of File.cc, or one of the host.
abbrev pub IsLeftOpen : (Error → Type 0) → Error → Type 0
IsLeftOpen IsOfHost e = IsOfFile e ⊎ IsOfHost e

-- One of these, or what Atlas or a vector throws in a read: the exception of make_view, or the
-- std::length_error of setSize.
abbrev pub IsLeftOpenInRead : (Error → Type 0) → Error → Type 0
IsLeftOpenInRead IsOfHost e = IsLeftOpen IsOfHost e ⊎ ((e ≡ view_type) ⊎ (e ≡ vector_length))

module _ {S F G N DateTime : Type 0} (host : AtlasHost S F G) (nc : NcLibrary N)
    (IsOfHost : Error → Type 0) (throws : ThrowsNc nc)
    (field_fails : (set : S) (name : String) (e : Error)
      → host.field_of set name ≡ err e
      → IsOfHost e) where
  -- Let the NetCDF library throw its own exceptions only, and let `IsOfHost` hold of the errors that
  -- the parse of a date-time and the look-up of a field in a set give. Then a read of a state, and
  -- one of increments, leaves no file in the reader, whatever was open before: where it returns, and
  -- where it throws any error but one that File.cc throws itself, that of a reader without a file, an
  -- access of a vector outside its elements, the exception of make_view of Atlas for a field of
  -- another type than the data, the std::length_error of setSize for a size that is negative as an
  -- int, or one of `IsOfHost`; and an exception of the NetCDF library never comes out with a file in
  -- the reader.
  pub reads_of_file-EndsClosed :
      ⦃e : Eq DateTime⦄ (clock : Clock DateTime) (file_exists : String → Bool)
      (parse_fails : (text : List ℕ) (e : Error) → clock.parse text ≡ err e → IsOfHost e) (set : S)
      (fields_metadata : List FieldMetadata) (path : String) (time : DateTime)
      (s : Monio (File N) DateTime)
      → EndsClosed
          (IsLeftOpenInRead IsOfHost)
          IsReaderClosed
          (read_state host (file_reads nc) clock file_exists set fields_metadata path time s)
        × EndsClosed
            (IsLeftOpenInRead IsOfHost)
            IsReaderClosed
            (read_increments host (file_reads nc) clock file_exists set fields_metadata path s)
  reads_of_file-EndsClosed clock file_exists parse_fails set fields_metadata path time s =
      reads-EndsClosed host (file_reads nc) clock file_exists (IsLeftOpenInRead IsOfHost)
        (file_reads-FailsOutside nc (IsLeftOpenInRead IsOfHost) (λ e h. inl (inl h))
          (inr (inr refl)) throws)
        (λ text e p. inl (inr (parse_fails text e p)))
        (λ set name e p. inl (inr (field_fails set name e p))) (inr (inl refl)) set fields_metadata
        path time s

  -- Let the NetCDF library throw its own exceptions only, and let `IsOfHost` hold of the errors that
  -- the look-ups of a field in a set give. Then, where a path is given or the writer had no file
  -- before, the writes of increments, of a state and of a set of fields leave no file in the writer:
  -- where they return, and where they throw any error but one that File.cc throws itself, that of a
  -- writer without a file, an access of a vector outside its elements, or one of `IsOfHost`; and an exception of the NetCDF library
  -- never comes out with a file in the writer.
  pub writes_of_file-EndsClosed :
      (first_fails : (set : S) (e : Error) → host.first_field set ≡ err e → IsOfHost e) (set : S)
      (fields_metadata : List FieldMetadata) (path : String) (is_lfric_convention : Bool)
      (s : Monio (File N) DateTime)
      → ((path == "") ≡ false) ⊎ IsWriterClosed s
      → EndsClosed
          (IsLeftOpen IsOfHost)
          IsWriterClosed
          (write_increments host (file_writes nc) set fields_metadata path is_lfric_convention s)
        × EndsClosed
            (IsLeftOpen IsOfHost)
            IsWriterClosed
            (write_state host (file_writes nc) set fields_metadata path is_lfric_convention s)
        × EndsClosed
            (IsLeftOpen IsOfHost)
            IsWriterClosed
            (write_field_set host (file_writes nc) set path s)
  writes_of_file-EndsClosed first_fails set fields_metadata path is_lfric_convention s before =
      writes-EndsClosed host (file_writes nc) (IsLeftOpen IsOfHost)
        (file_writes-FailsOutside nc throws (IsLeftOpen IsOfHost) (λ e h. inl h))
        (λ set name e p. inr (field_fails set name e p)) (λ set e p. inr (first_fails set e p)) set
        fields_metadata path is_lfric_convention s before
