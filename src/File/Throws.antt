-- ===== src/File/Throws.antt =====
-- The errors that the calls of src/monio/File.cc give.
pub mod Memory
pub mod Reading
pub mod Writing
use monio.Base.{
  ◌≡◌, refl, String, ℕ, List, [], ◌∷◌, Bool, true, false, none, some, length, if◌then◌else◌, ltb,
}
use monio.Result.{
  Result, ok, err, Error, netcdf_exception, write_file_read, read_file_written, nc_file_missing,
  file_not_accessed, undefined_access, variable_type_not_coded, variable_dimension_missing,
  attribute_type_not_coded, file_not_initialised, closes_files,
}
use monio.Exec.{Exec, lift, cleaning}
use monio.Exec.Fails.{
  Fails, Fails-ok, Fails-err, Fails-if, Fails-bind, Fails-mono, ExecFails, ExecFails-lift,
  ExecFails-pure, ◌>>>◌, ExecFails-cleaning, ExecFails-if,
}
use monio.NetCdf.{NcLibrary, NcValues, NcAtt, FileMode}
use monio.Container.{resize}
use monio.File.{
  File, close, throwing, is_read, get_file, reading, writing, on_nc, fill_vector, read_single_datum,
  read_field_datum, write_single_datum, open_file,
}

-- What File.cc throws itself and what it lets pass of the library; with that of a reader or writer
-- without a file.
abbrev pub of_file : Error → Bool
of_file write_file_read = true
of_file read_file_written = true
of_file nc_file_missing = true
of_file file_not_accessed = true
of_file (variable_type_not_coded name) = true
of_file (variable_dimension_missing name) = true
of_file (attribute_type_not_coded name) = true
of_file file_not_initialised = true
of_file undefined_access = true
of_file netcdf_exception = true
of_file _ = false

-- An error of File.cc. Those of Metadata.cc and Variable.cc close the files of Monio.
abbrev pub IsOfFile : Error → Type 0
IsOfFile e = of_file e ≡ true

abbrev pub of_library : Error → Bool
of_library netcdf_exception = true
of_library undefined_access = true
of_library _ = false

-- An exception of the library, or undefined behaviour in it.
abbrev pub IsOfLibrary : Error → Type 0
IsOfLibrary e = of_library e ≡ true

pub library-IsOfFile : (e : Error) → IsOfLibrary e → IsOfFile e
library-IsOfFile netcdf_exception h = refl
library-IsOfFile undefined_access h = refl
library-IsOfFile e h = absurd cc

pub record ThrowsValues {N T : Type 0} (values : NcValues N T) : Type 0 where
  pub on_get : (n : N) (name : String) → Fails IsOfLibrary (values.get n name)
  pub on_get_at :
      (n : N) (name : String) (start counts : List ℕ)
      → Fails IsOfLibrary (values.get_at n name start counts)
  pub on_put :
      (n : N) (name : String) (written : List T) → Fails IsOfLibrary (values.put n name written)

-- What the library throws where it changes a file or gives values of it.
pub record ThrowsNc {N : Type 0} (nc : NcLibrary N) : Type 0 where
  pub on_add_dim : (n : N) (name : String) (size : ℕ) → Fails IsOfLibrary (nc.add_dim n name size)
  pub on_add_var :
      (n : N) (name type_name : String) (names : List String)
      → Fails IsOfLibrary (nc.add_var n name type_name names)
  pub on_put_var_att :
      (n : N) (var name : String) (a : NcAtt) → Fails IsOfLibrary (nc.put_var_att n var name a)
  pub on_put_att : (n : N) (name : String) (a : NcAtt) → Fails IsOfLibrary (nc.put_att n name a)
  pub on_doubles : ThrowsValues nc.doubles
  pub on_floats : ThrowsValues nc.floats
  pub on_ints : ThrowsValues nc.ints

fill_vector-Fails :
    {T : Type 0} (IsAllowed : Error → Type 0) (filler : T) (size : ℕ) (values : List T)
    → IsAllowed undefined_access
    → Fails IsAllowed (fill_vector filler size values)
unfolding fill_vector
fill_vector-Fails IsAllowed filler size values allowed =
    Fails-if (ltb size (length values)) (err undefined_access) (ok (resize filler size values))
      (Fails-err undefined_access allowed) (Fails-ok _)

module _ {N : Type 0} (IsAllowed : Error → Type 0)
    (allowed : (e : Error) → IsOfFile e → IsAllowed e) where
  pub get_file-Fails : ExecFails {S = File N} IsAllowed get_file
  unfolding get_file
  get_file-Fails = record {
    at = λ f.
        elim f.data_file
          as (λ d. Fails IsAllowed (
            (elim d as (λ d. Result N × File N) [
              | none ↦ (err nc_file_missing, f)
              | some n ↦ (ok n, f)
            ]).0)) [
              | none ↦ Fails-err nc_file_missing (allowed nc_file_missing refl)
              | some n ↦ Fails-ok n
            ];
  }

  pub reading-Fails :
      {A : Type 0} (call : Exec (File N) A)
      → ExecFails IsAllowed call
      → ExecFails IsAllowed (reading call)
  unfolding reading
  reading-Fails {A = A} call h = record {
    at = λ f.
        elim (is_read f.file_mode)
          as (λ b. Fails IsAllowed (if b then call f else throwing {A = A} write_file_read f).0) [
            | true ↦ h.at f
            | false ↦ Fails-err write_file_read (allowed write_file_read refl)
          ];
  }

  pub writing-Fails :
      {A : Type 0} (call : Exec (File N) A)
      → ExecFails IsAllowed call
      → ExecFails IsAllowed (writing call)
  unfolding writing
  writing-Fails {A = A} call h = record {
    at = λ f.
        elim (is_read f.file_mode)
          as (λ b. Fails IsAllowed (if b then throwing {A = A} read_file_written f else call f).0) [
            | true ↦ Fails-err read_file_written (allowed read_file_written refl)
            | false ↦ h.at f
          ];
  }

  pub on_nc-Fails :
      (change : N → Result N)
      → ((n : N) → Fails IsOfLibrary (change n))
      → ExecFails IsAllowed (on_nc change)
  unfolding on_nc
  on_nc-Fails change h = get_file-Fails >>> λ n.
      ExecFails-lift (change n)
        (Fails-mono (change n) (λ e l. allowed e (library-IsOfFile e l)) (h n))
      >>> λ n'. record { at = λ f. Fails-ok tt }

  module _ {T : Type 0} (values : NcValues N T) (throws : ThrowsValues values) where
    pub read_single_datum-Fails :
        (filler : T) (name : String) (size : ℕ)
        → ExecFails IsAllowed (read_single_datum values filler name size)
    unfolding read_single_datum
    read_single_datum-Fails filler name size = reading-Fails _ (
        get_file-Fails >>> λ n.
        ExecFails-lift (values.get n name) (
          Fails-mono (values.get n name) (λ e l. allowed e (library-IsOfFile e l))
            (throws.on_get n name))
        >>> λ read.
            ExecFails-lift (fill_vector filler size read)
              (fill_vector-Fails IsAllowed filler size read (allowed undefined_access refl)))

    pub read_field_datum-Fails :
        (filler : T) (name : String) (start counts : List ℕ) (size : ℕ)
        → ExecFails IsAllowed (read_field_datum values filler name start counts size)
    unfolding read_field_datum
    read_field_datum-Fails filler name start counts size = reading-Fails _ (
        get_file-Fails >>> λ n.
        ExecFails-lift (values.get_at n name start counts) (
          Fails-mono (values.get_at n name start counts) (λ e l. allowed e (library-IsOfFile e l))
            (throws.on_get_at n name start counts))
        >>> λ read.
            ExecFails-lift (fill_vector filler size read)
              (fill_vector-Fails IsAllowed filler size read (allowed undefined_access refl)))

    pub write_single_datum-Fails :
        (name : String) (written : List T)
        → ExecFails IsAllowed (write_single_datum values name written)
    unfolding write_single_datum
    write_single_datum-Fails name written =
        writing-Fails _
          (on_nc-Fails (λ n. values.put n name written) (λ n. throws.on_put n name written))

module _ {N : Type 0} (nc : NcLibrary N) where
  pub open_file-Fails : (path : String) (mode : FileMode) → Fails IsOfFile (open_file nc path mode)
  unfolding open_file
  open_file-Fails path mode =
      elim (nc.open_nc path mode)
        as (λ r. Fails IsOfFile (elim r as (λ r. Result (File N)) [
          | err e ↦ err file_not_accessed
          | ok n ↦ ok (record { data_file = some n; file_mode = mode })
        ])) [ err e ↦ Fails-err file_not_accessed refl | ok n ↦ Fails-ok _ ]
