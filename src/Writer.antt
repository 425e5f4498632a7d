-- ===== src/Writer.antt =====
-- src/monio/Writer.cc on the rank that owns the files: what is written from a FileData into a file.
-- The writer is the one of Monio, whose closeFiles the errors of the other components call before
-- they throw, so that they leave it closed. File.cc is an interface here; what a call that throws
-- leaves in the file itself is not modelled.
pub mod Closing
pub mod Stored
use monio.Base.{
  String, Bool, true, false, List, [], ◌∷◌, Option, none, some, ℤ, if◌then◌else◌, ◌==◌, string_eq,
}
use monio.Result.{Result, ok, err, file_not_initialised, file_not_opened, netcdf_exception}
use monio.Exec.{Exec, pure, ◌>>=◌, lift, cleaning}
use monio.Values.{Double, Float}
use monio.Map.{Map}
use monio.Heap.{Heap}
use monio.Metadata.{Metadata, get_variable}
use monio.Container.{DataContainer, doubles, floats, ints}
use monio.FileData.{FileData}

-- What the writer uses of File.cc; a write gives the file that it leaves.
pub record FileWrites (File : Type 0) : Type 0 where
  pub create_file : String → Result File
  pub write_metadata : File → Heap → Metadata → Result File
  pub write_doubles : File → String → List Double → Result File
  pub write_floats : File → String → List Float → Result File
  pub write_ints : File → String → List ℤ → Result File

pub record Writer (File : Type 0) : Type 0 where
  pub file : Option File

module _ {File : Type 0} where
  unfoldable pub is_open : Writer File → Bool
  is_open w = elim w.file [ none ↦ false | some f ↦ true ]

  -- closeFile
  unfoldable pub closed : Writer File → Writer File
  unfolding is_open
  closed w = if is_open w then record { file = none } else w

  unfoldable pub get_file : Exec (Writer File) File
  get_file w = elim w.file [ none ↦ (err file_not_initialised, w) | some f ↦ (ok f, w) ]

  -- The open file as a call on it leaves it.
  unfoldable pub keep : File → Exec (Writer File) (Unit {0})
  keep f w = (ok tt, record { file = some f })

module _ {File : Type 0} (api : FileWrites File) where
  -- The try block of openFile, with its handler for an exception of the library.
  unfoldable pub opened : Result File → Exec (Writer File) (Unit {0})
  unfolding keep
  opened (ok f) w = keep f w
  opened (err netcdf_exception) w = (err file_not_opened, closed w)
  opened (err e) w = (err e, w)

  -- openFile: a path without characters opens nothing.
  unfoldable pub open_file : String → Exec (Writer File) (Unit {0})
  unfolding opened
  open_file path = if path == "" then pure tt else opened (api.create_file path)

  unfoldable pub write_metadata : Heap → Metadata → Exec (Writer File) (Unit {0})
  unfolding get_file keep
  write_metadata h m = get_file >>= λ f. lift (api.write_metadata f h m) >>= λ g. keep g

  -- The switch over the type of a container.
  unfoldable pub write_values : File → String → DataContainer → Result File
  write_values f name (doubles c) = api.write_doubles f name c.data_vector
  write_values f name (floats c) = api.write_floats f name c.data_vector
  write_values f name (ints c) = api.write_ints f name c.data_vector

  -- The loop of writeData over the containers, in the order of their names.
  unfoldable pub write_containers : Metadata → Map DataContainer → Exec (Writer File) (Unit {0})
  unfolding get_file keep write_values
  write_containers m [] = pure tt
  write_containers m ((name, c) ∷ containers) = cleaning closed (get_variable m name) >>= λ checked.
      get_file >>= λ f.
      lift (write_values f name c) >>= λ g. keep g >>= λ kept. write_containers m containers

  module _ {DateTime : Type 0} where
    unfoldable pub write_data : FileData DateTime → Exec (Writer File) (Unit {0})
    unfolding write_containers
    write_data file = write_containers file.metadata file.data_held.data_containers
