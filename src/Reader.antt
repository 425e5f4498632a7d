-- ===== src/Reader.antt =====
-- src/monio/Reader.cc on the rank that owns the files: what is read from a file into a FileData.
-- The reader is the one of Monio, whose closeFiles the errors of the other components call before
-- they throw, so that they leave it closed. File.cc is an interface here.
pub mod TimeSteps
pub mod Windows
pub mod Containers
pub mod Closing
use monio.Base.{
  ℕ, zero, suc, ◌*◌, ◌%◌, ◌^◌, String, Bool, true, false, List, [], ◌∷◌, Option, none, some, ℤ,
  length, if◌then◌else◌, Eq, ◌==◌, nat_eq, string_eq, ◌≡◌, not, pos, negsuc, to_int32,
}
use monio.Result.{
  Result, ok, err, Error, closes_files, data_type_not_coded, file_not_initialised, file_not_opened,
  netcdf_exception, coordinate_axes, date_times_missing, date_time_not_found, vector_length,
}
use monio.Exec.{Exec, pure, ◌>>=◌, lift, cleaning, cleaning_where}
use monio.Constants.{DataType}
use monio.Values.{Double, Float}
use monio.Map.{Map}
use monio.Utils.{find_in_vector}
use monio.Variable.{Variable, get_total_size}
use monio.Heap.{Heap, deref}
use monio.Metadata.{Metadata, get_variable, get_variable_names}
use monio.Container.{Container, DataContainer, doubles, floats, ints}
use monio.Data.{Data, is_container_present, add_container}
use monio.FileData.{FileData}

-- What the reader uses of File.cc. Each read fills a vector of the size given last; a read of a part
-- is given where it starts and how many values it takes along each dimension.
pub record FileReads (File : Type 0) : Type 0 where
  pub open_file : String → Result File
  pub read_metadata : File → Heap → Metadata → Result (Heap × Metadata)
  pub read_doubles : File → String → ℕ → Result (List Double)
  pub read_floats : File → String → ℕ → Result (List Float)
  pub read_ints : File → String → ℕ → Result (List ℤ)
  pub read_doubles_at : File → String → List ℕ → List ℕ → ℕ → Result (List Double)
  pub read_floats_at : File → String → List ℕ → List ℕ → ℕ → Result (List Float)
  pub read_ints_at : File → String → List ℕ → List ℕ → ℕ → Result (List ℤ)

pub record Reader (File : Type 0) : Type 0 where
  pub file : Option File

module _ {File : Type 0} where
  unfoldable pub is_open : Reader File → Bool
  is_open r = elim r.file [ none ↦ false | some f ↦ true ]

  -- closeFile
  unfoldable pub closed : Reader File → Reader File
  unfolding is_open
  closed r = if is_open r then record { file = none } else r

  unfoldable pub get_file : Exec (Reader File) File
  get_file r = elim r.file [ none ↦ (err file_not_initialised, r) | some f ↦ (ok f, r) ]

-- The part of a variable that readDatumAtTime reads: its start, its counts and its size.
pub record Window : Type 0 where
  pub start : List ℕ
  pub counts : List ℕ
  pub size : ℕ

-- The loop over the dimensions.
unfoldable pub window_from : String → List (String × ℕ) → ℕ → List ℕ × List ℕ × ℕ
window_from time_dim_name [] size = ([], [], size)
window_from time_dim_name ((name, n) ∷ dims) size =
    if not (name == time_dim_name)
    then (let (start, counts, total) = window_from time_dim_name dims ((size * n) % 2 ^ 64) in
        (0 ∷ start, n ∷ counts, total))
    else window_from time_dim_name dims size

unfoldable pub window : String → ℕ → Variable → Window
unfolding window_from
window time_dim_name time_step v =
    let (start, counts, size) = window_from time_dim_name v.dimensions 1 in
    record { start = time_step ∷ start; counts = 1 ∷ counts; size = size }

unfoldable pub filled :
    {V : Type 0} → (Container V → DataContainer) → String → Result (List V) → Result DataContainer
filled make name (ok values) = ok (make (record { name = name; data_vector = values }))
filled make name (err e) = err e

-- std::vector::resize with an int: one below zero becomes a size beyond what the vector can have.
unfoldable pub resized : ℤ → Result ℕ
resized (pos n) = ok n
resized (negsuc n) = err vector_length

-- setSize of a total size, which it takes as an int.
unfoldable pub sized : ℕ → Result ℕ
unfolding resized
sized n = resized (to_int32 n)

-- The loop of getCoordData over the containers, in the order of their names.
unfoldable pub coord_containers : List String → Map DataContainer → List DataContainer
coord_containers names [] = []
coord_containers names ((name, c) ∷ containers) =
    let rest = coord_containers names containers in
    if find_in_vector names name then c ∷ rest else rest

module _ {File : Type 0} (api : FileReads File) where
  -- The two switches over the type of a variable.
  unfoldable pub read_container : DataType → String → ℕ → Exec (Reader File) DataContainer
  unfolding filled sized
  read_container DataType.double name size = lift (sized size) >>= λ n.
      get_file >>= λ f. lift (filled doubles name (api.read_doubles f name n))
  read_container DataType.float name size = lift (sized size) >>= λ n.
      get_file >>= λ f. lift (filled floats name (api.read_floats f name n))
  read_container DataType.int name size =
      lift (sized size) >>= λ n. get_file >>= λ f. lift (filled ints name (api.read_ints f name n))
  read_container _ name size = cleaning closed (err data_type_not_coded)

  unfoldable pub read_container_at : DataType → String → Window → Exec (Reader File) DataContainer
  unfolding filled sized
  read_container_at DataType.double name w = lift (sized w.size) >>= λ n.
      get_file >>= λ f. lift (filled doubles name (api.read_doubles_at f name w.start w.counts n))
  read_container_at DataType.float name w = lift (sized w.size) >>= λ n.
      get_file >>= λ f. lift (filled floats name (api.read_floats_at f name w.start w.counts n))
  read_container_at DataType.int name w = lift (sized w.size) >>= λ n.
      get_file >>= λ f. lift (filled ints name (api.read_ints_at f name w.start w.counts n))
  read_container_at _ name w = cleaning closed (err data_type_not_coded)

  -- The try block of openFile, with its handler for an exception of the library. The file that was
  -- open is closed by its destructor where another takes its place.
  unfoldable pub opened : Result File → Exec (Reader File) (Unit {0})
  opened (ok f) r = (ok tt, record { file = some f })
  opened (err netcdf_exception) r = (err file_not_opened, closed r)
  opened (err e) r = (err e, r)

  -- openFile: a path without characters opens nothing.
  unfoldable pub open_file : String → Exec (Reader File) (Unit {0})
  unfolding opened
  open_file path = if path == "" then pure tt else opened (api.open_file path)

  module _ {DateTime : Type 0} where
    unfoldable pub read_metadata :
        Heap → FileData DateTime → Exec (Reader File) (Heap × FileData DateTime)
    unfolding closes_files
    read_metadata h file = do
      f ← get_file
      read ← cleaning_where closes_files closed (lift (api.read_metadata f h file.metadata))
      pure (read.0, record file { metadata = read.1 })

    -- The variable of a name, in the heap.
    unfoldable pub variable_of : Heap → FileData DateTime → String → Result Variable
    variable_of h file name = elim (get_variable file.metadata name) [
      | err e ↦ err e
      | ok p ↦ deref h p
    ]

    unfoldable pub read_full_datum :
        Heap → FileData DateTime → String → Exec (Reader File) (FileData DateTime)
    unfolding variable_of read_container
    read_full_datum h file name = do
      v ← cleaning closed (variable_of h file name)
      c ← read_container v.type name (get_total_size v)
      pure (record file { data_held = add_container file.data_held c })

    unfoldable pub read_full_data :
        Heap → FileData DateTime → List String → Exec (Reader File) (FileData DateTime)
    unfolding read_full_datum
    read_full_data h file [] = pure file
    read_full_data h file (name ∷ names) =
        read_full_datum h file name >>= λ read. read_full_data h read names

    unfoldable pub read_all_data : Heap → FileData DateTime → Exec (Reader File) (FileData DateTime)
    unfolding read_full_data
    read_all_data h file = read_full_data h file (get_variable_names file.metadata)

    -- readDatumAtTime with a number of a time step.
    unfoldable pub read_datum_at_step :
        Heap → FileData DateTime → String → ℕ → String → Exec (Reader File) (FileData DateTime)
    unfolding variable_of read_container_at
    read_datum_at_step h file name time_step time_dim_name =
        if is_container_present file.data_held name then pure file else (do
          v ← cleaning closed (variable_of h file name)
          c ← read_container_at v.type name (window time_dim_name time_step v)
          pure (record file { data_held = add_container file.data_held c }))

    -- The loop of findTimeStep.
    unfoldable pub step_from : ⦃e : Eq DateTime⦄ → ℕ → DateTime → List DateTime → Option ℕ
    step_from i time [] = none
    step_from i time (t ∷ times) = if t == time then some i else step_from (suc i) time times

    unfoldable pub find_time_step :
        ⦃e : Eq DateTime⦄ → FileData DateTime → DateTime → Exec (Reader File) ℕ
    unfolding step_from
    find_time_step file time =
        if length file.date_times == 0
        then cleaning closed (err date_times_missing)
        else elim (step_from 0 time file.date_times) [
          | none ↦ cleaning closed (err date_time_not_found)
          | some i ↦ pure i
        ]

    -- readDatumAtTime with a date-time.
    unfoldable pub read_datum_at_time :
        ⦃e : Eq DateTime⦄
        → Heap
        → FileData DateTime
        → String
        → DateTime
        → String
        → Exec (Reader File) (FileData DateTime)
    unfolding find_time_step read_datum_at_step
    read_datum_at_time h file name time time_dim_name =
        find_time_step file time >>= λ step. read_datum_at_step h file name step time_dim_name

    unfoldable pub get_coord_data :
        FileData DateTime → List String → Exec (Reader File) (List DataContainer)
    unfolding coord_containers
    get_coord_data file names =
        if length names == 2
        then pure (coord_containers names file.data_held.data_containers)
        else cleaning closed (err coordinate_axes)
