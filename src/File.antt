-- ===== src/File.antt =====
-- src/monio/File.cc: the handle of a NetCDF file that is read or written, over the NetCDF library as a
-- parameter. The contents of the file stand in the handle; a call that throws after it closed the
-- file leaves a handle without one.
pub mod Reads
pub mod Writes
pub mod Calls
pub mod Values
pub mod RoundTrip
pub mod Whole
pub mod Throws
pub mod Growth
use monio.Base.{ℕ, String, Bool, true, false, List, Option, none, some, length, if◌then◌else◌, ltb}
use monio.Result.{
  Result, ok, err, Error, undefined_access, write_file_read, read_file_written, nc_file_missing,
  file_not_accessed,
}
use monio.Exec.{Exec, ◌>>=◌, lift, cleaning}
use monio.Container.{resize}
use monio.NetCdf.{NcLibrary, NcValues, FileMode}

pub record File (N : Type 0) : Type 0 where
  pub data_file : Option N
  pub file_mode : FileMode

-- fileMode_ == netCDF::NcFile::read
unfoldable pub is_read : FileMode → Bool
is_read FileMode.read = true
is_read FileMode.write = false
is_read FileMode.replace = false
is_read FileMode.new_file = false

-- A vector of a size, written by the library from its start.
unfoldable pub fill_vector : {T : Type 0} → T → ℕ → List T → Result (List T)
unfolding resize
fill_vector filler size values =
    if ltb size (length values) then err undefined_access else ok (resize filler size values)

module _ {N : Type 0} where
  -- close
  unfoldable pub close : File N → File N
  close f = elim f.data_file [ none ↦ f | some n ↦ record f { data_file = none } ]

  unfoldable pub get_file : Exec (File N) N
  get_file f = elim f.data_file [ none ↦ (err nc_file_missing, f) | some n ↦ (ok n, f) ]

  -- close(), then throwException.
  abbrev pub throwing : {A : Type 0} → Error → Exec (File N) A
  throwing e = cleaning close (err e)

  unfoldable pub reading : {A : Type 0} → Exec (File N) A → Exec (File N) A
  unfolding is_read
  reading call f = if is_read f.file_mode then call f else throwing write_file_read f

  unfoldable pub writing : {A : Type 0} → Exec (File N) A → Exec (File N) A
  unfolding is_read
  writing call f = if is_read f.file_mode then throwing read_file_written f else call f

  -- A call of the library that changes the file.
  unfoldable pub on_nc : (N → Result N) → Exec (File N) (Unit {0})
  unfolding get_file
  on_nc change =
      get_file >>= λ n. lift (change n) >>= λ n' f. (ok tt, record f { data_file = some n' })

-- readSingleDatum, readFieldDatum and writeSingleDatum, for one type of values.
module _ {N T : Type 0} (values : NcValues N T) where
  unfoldable pub read_single_datum : T → String → ℕ → Exec (File N) (List T)
  unfolding reading get_file fill_vector
  read_single_datum filler name size =
      reading
        (get_file >>= λ n. lift (values.get n name) >>= λ read. lift (fill_vector filler size read))

  unfoldable pub read_field_datum : T → String → List ℕ → List ℕ → ℕ → Exec (File N) (List T)
  unfolding reading get_file fill_vector
  read_field_datum filler name start counts size = reading (
      get_file >>= λ n.
      lift (values.get_at n name start counts) >>= λ read. lift (fill_vector filler size read))

  unfoldable pub write_single_datum : String → List T → Exec (File N) (Unit {0})
  unfolding writing on_nc
  write_single_datum name written = writing (on_nc (λ n. values.put n name written))

module _ {N : Type 0} (nc : NcLibrary N) where
  -- The constructor: an exception of the library becomes one of throwException.
  unfoldable pub open_file : String → FileMode → Result (File N)
  open_file path mode = elim (nc.open_nc path mode) [
    | err e ↦ err file_not_accessed
    | ok n ↦ ok (record { data_file = some n; file_mode = mode })
  ]
