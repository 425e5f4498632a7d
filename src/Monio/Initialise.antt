-- ===== src/Monio/Initialise.antt =====
-- src/monio/Monio.cc: initialiseFile, createLfricAtlasMap and createDateTimes.
use monio.Base.{
  ℕ, zero, suc, String, Bool, not, List, [], ◌∷◌, ◌++◌, ℤ, if◌then◌else◌, ◌==◌, nat_eq, codes,
  length,
}
use monio.Result.{Result, ok, err, undefined_access, time_not_double}
use monio.Result
use monio.Exec.{Exec, pure, ◌>>=◌, ◌>>◌, lift}
use monio.Constants.{
  lfric_mesh_term, vertical_full_name, vertical_half_name, lfric_coord_var_names, time_var_name,
  time_origin_name,
}
use monio.Values.{Double, round_to_uint64}
use monio.Map.{insert, erase}
use monio.Utils.{str_to_words}
use monio.Variable.{get_str_attr, get_total_size}
use monio.Heap.{Heap, deref}
use monio.Metadata.{find_variable_names, get_variable, get_variable_convention}
use monio.Container.{Container, DataContainer, doubles, floats, ints, get_datum}
use monio.Data.{get_container}
use monio.FileData.{FileData, set_lfric_atlas_map, set_date_times}
use monio.Reader.{FileReads}
use monio.Reader
use monio.UtilsAtlas.{get_lfric_coords}
use monio.UtilsAtlas
use monio.Monio.{create_file_data, get_file_data}
use monio.Monio.State.{
  Monio, AtlasHost, Clock, component, on_reader, state, set_heap, set_files_data,
}

-- The first two words of a text, as "<first>T<second>Z".
unfoldable pub joined : List (List ℕ) → Result (List ℕ)
joined (date ∷ time ∷ words) = ok (date ++ b'T' ∷ time ++ b'Z' ∷ [])
joined _ = err undefined_access

-- convertToAtlasDateTimeStr
unfoldable pub convert_to_atlas_date_time_str : List ℕ → Result (List ℕ)
unfolding joined
convert_to_atlas_date_time_str text = joined (str_to_words text 32)

-- A container of doubles, as createDateTimes casts it.
unfoldable pub as_doubles : DataContainer → Result (Container Double)
as_doubles (doubles c) = ok c
as_doubles (floats c) = err time_not_double
as_doubles (ints c) = err time_not_double

module _ {DateTime : Type 0} (clock : Clock DateTime) where
  -- The loop of createDateTimes: `count` times from an index on.
  unfoldable pub times_from : DateTime → Container Double → ℕ → ℕ → Result (List DateTime)
  times_from origin times index zero = ok []
  times_from origin times index (suc count) = Result.◌>>=◌ (get_datum times index) (λ datum.
      Result.◌>>=◌ (round_to_uint64 datum) (λ seconds.
        Result.◌>>=◌ (times_from origin times (suc index) count)
          (λ later. ok (clock.add_seconds origin seconds ∷ later))))

  -- createDateTimes, for an entry of filesData_.
  unfoldable pub create_date_times :
      {File : Type 0}
      → String
      → String
      → Heap
      → FileData DateTime
      → Exec (Monio File DateTime) (FileData DateTime)
  unfolding times_from as_doubles convert_to_atlas_date_time_str
  create_date_times time_var_name time_origin_name h file =
      if not (length file.date_times == 0) then pure file else (do
        p ← component (get_variable file.metadata time_var_name)
        time_var ← lift (deref h p)
        held ← component (get_container file.data_held time_var_name)
        times ← component (as_doubles held)
        time_origin ← component (get_str_attr time_var time_origin_name)
        text ← lift (convert_to_atlas_date_time_str (codes time_origin))
        origin ← lift (clock.parse text)
        date_times ← component (times_from origin times 0 (get_total_size time_var))
        pure (set_date_times file date_times))

module _ {S F G File DateTime : Type 0} (host : AtlasHost S F G) (api : FileReads File) where
  -- createLfricAtlasMap, for an entry of filesData_.
  unfoldable pub create_lfric_atlas_map :
      G → Heap → FileData DateTime → Exec (Monio File DateTime) (FileData DateTime)
  create_lfric_atlas_map grid h file =
      if not (length file.lfric_atlas_map == 0) then pure file else (do
        read ← on_reader (Reader.read_full_data api h file lfric_coord_var_names)
        coord_data ← on_reader (Reader.get_coord_data api read lfric_coord_var_names)
        lfric_coords ← component (get_lfric_coords coord_data)
        map ←
            component
              (UtilsAtlas.create_lfric_atlas_map host.closest (host.grid_coords grid) lfric_coords)
        pure (set_lfric_atlas_map read map))

-- A step on the entry of a grid in filesData_. A step that throws leaves the entry as it was before.
unfoldable pub on_entry :
    {File DateTime : Type 0}
    → String
    → (Heap → FileData DateTime → Exec (Monio File DateTime) (FileData DateTime))
    → Exec (Monio File DateTime) (Unit {0})
on_entry name step = do
  before ← state
  file ← step before.heap (get_file_data before.files_data name)
  after ← state
  set_files_data (insert name file (erase name after.files_data))

module _ {S F G File DateTime : Type 0} (host : AtlasHost S F G) (api : FileReads File)
    (clock : Clock DateTime) where
  -- initialiseFile: the variable convention of the file.
  unfoldable pub initialise_file : G → String → Bool → Exec (Monio File DateTime) ℤ
  unfolding on_entry create_lfric_atlas_map create_date_times
  initialise_file grid path do_create_date_times =
      let name = host.grid_name grid in
      (do
        start ← state
        set_files_data (create_file_data start.files_data name)
        on_reader (Reader.open_file api path)
        opened ← state
        read ←
            on_reader (Reader.read_metadata api opened.heap (get_file_data opened.files_data name))
        set_heap read.0
        on_entry name (λ h file. pure read.1)
        on_entry name (λ h file.
            on_reader (
              Reader.read_full_data api h file (find_variable_names file.metadata lfric_mesh_term)))
        on_entry name (λ h file. on_reader (Reader.read_full_datum api h file vertical_full_name))
        on_entry name (λ h file. on_reader (Reader.read_full_datum api h file vertical_half_name))
        on_entry name (create_lfric_atlas_map host api grid)
        (if do_create_date_times
            then (on_entry name
                  (λ h file. on_reader (Reader.read_full_datum api h file time_var_name))
                >> on_entry name (create_date_times clock time_var_name time_origin_name))
            else pure tt)
        read_in ← state
        component (get_variable_convention (get_file_data read_in.files_data name).metadata))
