-- ===== src/File/Calls.antt =====
-- The calls of src/monio/File.cc as Reader.cc and Writer.cc make them. A read leaves the contents of
-- the file, and after a call that throws neither uses the handle again.
use monio.Base.{pos}
use monio.Result.{Result, ok, err}
use monio.Values.{zero_double, zero_float}
use monio.Reader.{FileReads}
use monio.Writer.{FileWrites}
use monio.NetCdf.{NcLibrary, FileMode}
use monio.File.{File, open_file, read_single_datum, read_field_datum, write_single_datum}
use monio.File.Reads.{read_metadata}
use monio.File.Writes.{write_metadata}

-- The handle that a call leaves where it returns.
abbrev pub left : {S A : Type 0} → Result A × S → Result S
left (ok a, s) = ok s
left (err e, s) = err e

module _ {N : Type 0} (nc : NcLibrary N) where
  abbrev pub file_reads : FileReads (File N)
  file_reads = record {
    open_file = λ path. open_file nc path FileMode.read;
    read_metadata = λ f h m. (read_metadata nc h m f).0;
    read_doubles = λ f name size. (read_single_datum nc.doubles zero_double name size f).0;
    read_floats = λ f name size. (read_single_datum nc.floats zero_float name size f).0;
    read_ints = λ f name size. (read_single_datum nc.ints (pos 0) name size f).0;
    read_doubles_at = λ f name start counts size.
        (read_field_datum nc.doubles zero_double name start counts size f).0;
    read_floats_at = λ f name start counts size.
        (read_field_datum nc.floats zero_float name start counts size f).0;
    read_ints_at =
        λ f name start counts size. (read_field_datum nc.ints (pos 0) name start counts size f).0;
  }

  abbrev pub file_writes : FileWrites (File N)
  file_writes = record {
    create_file = λ path. open_file nc path FileMode.replace;
    write_metadata = λ f h m. left (write_metadata nc h m f);
    write_doubles = λ f name values. left (write_single_datum nc.doubles name values f);
    write_floats = λ f name values. left (write_single_datum nc.floats name values f);
    write_ints = λ f name values. left (write_single_datum nc.ints name values f);
  }
