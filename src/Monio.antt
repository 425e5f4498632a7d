-- ===== src/Monio.antt =====
-- src/monio/Monio.cc: the files' data that Monio keeps by the name of their grid, and what it does
-- to a copy of them before it writes.
pub mod Closing
pub mod Keeping
pub mod Files
pub mod Cleaning
pub mod JediData
pub mod State
pub mod Initialise
pub mod DateTimes
pub mod ReadState
pub mod WriteState
use monio.Base.{
  ℕ, zero, suc, ◌+◌, ◌-◌, ◌*◌, ◌^◌, String, Bool, true, false, List, [], ◌∷◌, Option, none, some, ℤ,
  pos, if◌then◌else◌, leb,
}
use monio.Result.{Result, ok, err, ◌>>=◌}
use monio.Constants.{
  DataType, time_dim_name, tile_dim_name, time_var_name, tile_var_name, vert_full_no_surf_name,
  vert_half_with_top_name, vert_full_no_surf_size, vert_half_with_top_size,
}
use monio.Values.{Double, half}
use monio.Map.{Map, lookup, contains, insert, erase}
use monio.Variable.{Variable, attribute_string, make_variable, add_attribute}
use monio.Variable
use monio.Heap.{Heap, make_shared}
use monio.Metadata.{Metadata, clear_global_attributes, get_variable_names, add_variable}
use monio.Metadata
use monio.Container.{Container, DataContainer, doubles, make_container, set_data}
use monio.Data.{Data, delete_container, get_data_container_names, add_container}
use monio.FileData.{FileData, empty_file}

module _ {DateTime : Type 0} where
  -- createFileData: filesData_ after the call; the reference that it returns is the new entry.
  unfoldable pub create_file_data : Map (FileData DateTime) → String → Map (FileData DateTime)
  create_file_data files grid_name =
      insert grid_name empty_file
        (if contains grid_name files then erase grid_name files else files)

  -- getFileData: a copy, or an empty FileData.
  unfoldable pub get_file_data : Map (FileData DateTime) → String → FileData DateTime
  get_file_data files grid_name = elim (lookup grid_name files) [ none ↦ empty_file | some f ↦ f ]

  -- cleanFileData on the rank that owns the files. Its last loop is that of
  -- removeAllButTheseVariables, over the names of the containers.
  unfoldable pub clean_file_data : Heap → FileData DateTime → Result (Heap × FileData DateTime)
  clean_file_data h f =
      let (h₁, timeless) =
        Metadata.delete_dimension h (clear_global_attributes f.metadata) time_dim_name in
      let (h₂, tileless) = Metadata.delete_dimension h₁ timeless tile_dim_name in
      let kept = delete_container (delete_container f.data_held time_var_name) tile_var_name in
      Metadata.remove_keys (get_data_container_names kept) (get_variable_names tileless) tileless
      >>= λ reconciled. ok (h₂, record f { metadata = reconciled; data_held = kept })

-- std::iota: `count` doubles from n / 2, each one more than the last. They are small multiples of a
-- half, so that the increments are exact.
unfoldable pub iota : ℕ → ℕ → List Double
unfolding half
iota n zero = []
iota n (suc count) = half n ∷ iota (n + 2) count

-- One of the two vertical coordinates of addJediData: its dimension, its variable and its values.
unfoldable pub jedi_variable : String → ℕ → Result Variable
jedi_variable name size = do
  sized ← Variable.add_dimension (make_variable name DataType.double) name size
  add_attribute sized (attribute_string "name" name)

unfoldable pub jedi_container : String → ℕ → ℕ → DataContainer
jedi_container name first size = doubles (set_data (make_container name) (iota first size))

module _ {DateTime : Type 0} where
  unfoldable pub add_jedi_data : Heap → FileData DateTime → Result (Heap × FileData DateTime)
  unfolding jedi_variable jedi_container
  add_jedi_data h f = do
    let sized =
        Metadata.add_dimension
          (Metadata.add_dimension f.metadata vert_full_no_surf_name (pos vert_full_no_surf_size))
          vert_half_with_top_name (pos vert_half_with_top_size)
    full ← jedi_variable vert_full_no_surf_name vert_full_no_surf_size
    half_levels ← jedi_variable vert_half_with_top_name vert_half_with_top_size
    let (p, h₁) = make_shared h full
    let (q, h₂) = make_shared h₁ half_levels
    let named = add_variable (add_variable sized vert_full_no_surf_name p) vert_half_with_top_name q
    let filled =
        add_container
          (add_container f.data_held
            (jedi_container vert_full_no_surf_name 2 vert_full_no_surf_size))
          (jedi_container vert_half_with_top_name 1 vert_half_with_top_size)
    ok (h₂, record f { metadata = named; data_held = filled })
