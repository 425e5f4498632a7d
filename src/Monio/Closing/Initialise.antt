-- ===== src/Monio/Closing/Initialise.antt =====
-- src/monio/Monio.cc: initialiseFile where it throws, and what it calls.
use monio.Base.{
  ℕ, String, Bool, List, [], ◌∷◌, if◌then◌else◌, ◌==◌, nat_eq, int_eq, string_eq, ◌≡◌, subst, codes,
  not, length,
}
use monio.Result.{Result, err, Error}
use monio.Exec.{Exec, pure, ◌>>◌}
use monio.Exec.Closes.{Closes, Closes-pure, Closes-lift, Closes-cleaning, Closes-if, ◌>>>◌}
use monio.Constants.{
  time_var_name, time_origin_name, lfric_mesh_term, vertical_full_name, vertical_half_name,
  lfric_coord_var_names,
}
use monio.Heap.{Heap, Pointer, deref, deref-eq-err}
use monio.Metadata.{find_variable_names, get_variable, get_variable_convention}
use monio.FileData.{FileData, set_lfric_atlas_map, set_date_times}
use monio.UtilsAtlas
use monio.UtilsAtlas.{get_lfric_coords}
use monio.Data.{get_container}
use monio.Variable.{get_str_attr, get_total_size}
use monio.Utils.{str_to_words}
use monio.Reader.{FileReads, Reader}
use monio.Reader
use monio.Reader.Closing as ReaderClosing
use monio.Monio.{get_file_data}
use monio.Monio.State.{Monio, AtlasHost, Clock, close_files, component, on_reader}
use monio.Monio.Initialise.{
  joined, convert_to_atlas_date_time_str, as_doubles, times_from, create_date_times,
  create_lfric_atlas_map, on_entry, initialise_file,
}
use monio.Monio.Closing.{
  IsReaderClosed, close_files-IsReaderClosed, on_reader-Closes, state-Closes, set_heap-Closes,
  set_files_data-Closes,
}

module _ {File DateTime : Type 0} (api : FileReads File) (clock : Clock DateTime)
    (Outside : Error → Type 0) (fails : ReaderClosing.FailsOutside api Outside)
    (parse_fails : (text : List ℕ) (e : Error) → clock.parse text ≡ err e → Outside e) where
  -- A call of another component closes the files before it throws.
  pub component-Closes :
      {A : Type 0} (r : Result A)
      → Closes {S = Monio File DateTime} Outside IsReaderClosed (component r)
  component-Closes r = Closes-cleaning close_files r close_files-IsReaderClosed

  deref-fails : (h : Heap) (p : Pointer) (e : Error) → deref h p ≡ err e → Outside e
  deref-fails h p e q = subst Outside (deref-eq-err h p e q) fails.undefined

  joined-fails : (words : List (List ℕ)) (e : Error) → joined words ≡ err e → Outside e
  unfolding joined
  joined-fails (date ∷ time ∷ words) e p = absurd cc
  joined-fails (date ∷ []) e p = subst Outside (cc) fails.undefined
  joined-fails [] e p = subst Outside (cc) fails.undefined

  create_date_times-Closes :
      (var_name origin_name : String) (h : Heap) (file : FileData DateTime)
      → Closes {S = Monio File DateTime} Outside IsReaderClosed
          (create_date_times clock var_name origin_name h file)
  unfolding create_date_times convert_to_atlas_date_time_str
  create_date_times-Closes var_name origin_name h file =
      Closes-if (not (length file.date_times == 0)) _ _ (Closes-pure file) (
        component-Closes (get_variable file.metadata var_name) >>> λ p.
        Closes-lift (deref h p) (deref-fails h p) >>> λ time_var.
        component-Closes (get_container file.data_held var_name) >>> λ held.
        component-Closes (as_doubles held) >>> λ times.
        component-Closes (get_str_attr time_var origin_name) >>> λ time_origin.
        Closes-lift (joined (str_to_words (codes time_origin) 32))
          (joined-fails (str_to_words (codes time_origin) 32))
        >>> λ text. Closes-lift (clock.parse text) (parse_fails text) >>> λ origin.
            component-Closes (times_from clock origin times 0 (get_total_size time_var))
            >>> λ date_times. Closes-pure (set_date_times file date_times))

  -- A step on an entry of filesData_.
  on_entry-Closes :
      (name : String)
      (step : Heap → FileData DateTime → Exec (Monio File DateTime) (FileData DateTime))
      → ((h : Heap) (file : FileData DateTime) → Closes Outside IsReaderClosed (step h file))
      → Closes Outside IsReaderClosed (on_entry name step)
  unfolding on_entry
  on_entry-Closes name step h = state-Closes Outside IsReaderClosed >>> λ before.
      h before.heap (get_file_data before.files_data name) >>> λ file.
      state-Closes Outside IsReaderClosed >>> λ after.
      set_files_data-Closes Outside IsReaderClosed _

  full_datum-Closes :
      (name var_name : String)
      → Closes {S = Monio File DateTime} Outside IsReaderClosed
          (on_entry name (λ h file. on_reader (Reader.read_full_datum api h file var_name)))
  full_datum-Closes name var_name = on_entry-Closes name _ (λ h file.
      on_reader-Closes Outside _
        (ReaderClosing.read_full_datum-Closes api Outside fails h file var_name))

  module _ {S F G : Type 0} (host : AtlasHost S F G) where
    create_lfric_atlas_map-Closes :
        (grid : G) (h : Heap) (file : FileData DateTime)
        → Closes Outside IsReaderClosed (create_lfric_atlas_map host api grid h file)
    unfolding create_lfric_atlas_map
    create_lfric_atlas_map-Closes grid h file =
        Closes-if (not (length file.lfric_atlas_map == 0)) _ _ (Closes-pure file) (
          on_reader-Closes Outside _
            (ReaderClosing.read_full_data-Closes api Outside fails h file lfric_coord_var_names)
          >>> λ read.
              on_reader-Closes Outside _
                (ReaderClosing.get_coord_data-Closes api Outside fails read lfric_coord_var_names)
              >>> λ coord_data. component-Closes (get_lfric_coords coord_data) >>> λ coords.
                  component-Closes
                    (UtilsAtlas.create_lfric_atlas_map host.closest (host.grid_coords grid) coords)
                  >>> λ map. Closes-pure (set_lfric_atlas_map read map))

    -- The date-times of the file, where they are asked for.
    times-Closes :
        (name : String) (do_create_date_times : Bool)
        → Closes {S = Monio File DateTime} Outside IsReaderClosed (
            if do_create_date_times
            then (on_entry name
                  (λ h file. on_reader (Reader.read_full_datum api h file time_var_name))
                >> on_entry name (create_date_times clock time_var_name time_origin_name))
            else pure tt)
    times-Closes name do_create_date_times =
        Closes-if do_create_date_times _ _
          (full_datum-Closes name time_var_name >>> λ read.
            on_entry-Closes name _ (create_date_times-Closes time_var_name time_origin_name))
          (Closes-pure tt)

    pub initialise_file-Closes :
        (grid : G) (path : String) (do_create_date_times : Bool)
        → Closes Outside IsReaderClosed
            (initialise_file host api clock grid path do_create_date_times)
    unfolding initialise_file
    initialise_file-Closes grid path do_create_date_times =
        let name = host.grid_name grid in
        state-Closes Outside IsReaderClosed >>> λ start.
        set_files_data-Closes Outside IsReaderClosed _ >>> λ created.
        on_reader-Closes Outside _ (ReaderClosing.open_file-Closes api Outside fails path)
        >>> λ done. state-Closes Outside IsReaderClosed >>> λ opened.
            on_reader-Closes Outside _ (
              ReaderClosing.read_metadata-Closes api Outside fails opened.heap
                (get_file_data opened.files_data name))
            >>> λ read. set_heap-Closes Outside IsReaderClosed read.0 >>> λ kept.
                on_entry-Closes name _ (λ h file. Closes-pure read.1) >>> λ entered.
                on_entry-Closes name _ (λ h file. on_reader-Closes Outside _ (
                  ReaderClosing.read_full_data-Closes api Outside fails h file
                    (find_variable_names file.metadata lfric_mesh_term)))
                >>> λ mesh. full_datum-Closes name vertical_full_name >>> λ full.
                    full_datum-Closes name vertical_half_name >>> λ half.
                    on_entry-Closes name _ (create_lfric_atlas_map-Closes grid) >>> λ mapped.
                    times-Closes name do_create_date_times >>> λ timed.
                    state-Closes Outside IsReaderClosed >>> λ read_in.
                    component-Closes
                      (get_variable_convention (get_file_data read_in.files_data name).metadata)
