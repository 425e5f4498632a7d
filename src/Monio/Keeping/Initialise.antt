-- ===== src/Monio/Keeping/Initialise.antt =====
-- src/monio/Monio.cc: initialiseFile changes the files' data of its own grid only.
use monio.Base.{
  String, Bool, ◌==◌, nat_eq, string_eq, ◌≡◌, ◌≢◌, codes, not, length, Option, arith, ==_iff,
  ==_self, ◌∙◌, refl, true, false, none, some, if◌then◌else◌,
}
use monio.Result.{Result, ok, err, closes_files}
use monio.Exec.{Exec, pure, ◌>>=◌, ◌>>◌, continue, on_error_where}
use monio.Exec.Preserves.{Preserves, Preserves-pure, Preserves-lift, Preserves-if, ◌>>>◌}
use monio.Constants.{
  time_var_name, time_origin_name, lfric_mesh_term, vertical_full_name, vertical_half_name,
  lfric_coord_var_names,
}
use monio.Map.{Map, lookup, insert, erase}
use monio.Map.Laws.{lookup-insert, lookup-erase}
use monio.Heap.{Heap, deref}
use monio.Metadata.{Metadata, find_variable_names, get_variable, get_variable_convention}
use monio.FileData.{FileData, set_lfric_atlas_map, set_date_times}
use monio.UtilsAtlas
use monio.UtilsAtlas.{get_lfric_coords}
use monio.Data.{get_container}
use monio.Variable.{get_str_attr, get_total_size}
use monio.Reader.{FileReads, Reader}
use monio.Reader
use monio.Monio.{create_file_data, get_file_data}
use monio.Monio.Files.{lookup-create_file_data}
use monio.Monio.State.{
  Monio, AtlasHost, Clock, close_files, with_reader, on_reader, state, set_heap,
}
use monio.Monio.Initialise.{
  convert_to_atlas_date_time_str, as_doubles, times_from, create_date_times, create_lfric_atlas_map,
  on_entry, initialise_file,
}
use monio.Monio.Keeping.Rules.{
  OfData, component-Preserves, on_reader-Preserves, state-Preserves, change-Preserves,
  last_change-Preserves,
}
use monio.NetCdf.{NcLibrary}
use monio.File.{File}
use monio.File.Calls.{file_reads}
use monio.Heap.Trims.{Extends}
use monio.File.Growth.{Grows, read_metadata-Grows}

module _ {S F G File DateTime : Type 0} (host : AtlasHost S F G) (api : FileReads File)
    (clock : Clock DateTime) (other : String) (held : Option (FileData DateTime)) (before : Heap)
    (grows : (f : File) (h : Heap) (m : Metadata) → Grows h (api.read_metadata f h m)) where
  -- The data of the other grid are `held`, and the variables of the heap `before` are there.
  abbrev Kept : Map (FileData DateTime) → Heap → Type 0
  Kept files h = (lookup other files ≡ held) × Extends before h

  create_date_times-Preserves :
      (var_name origin_name : String) (h : Heap) (file : FileData DateTime)
      → Preserves (OfData {File = File} Kept) (create_date_times clock var_name origin_name h file)
  unfolding create_date_times
  create_date_times-Preserves var_name origin_name h file =
      Preserves-if (not (length file.date_times == 0)) _ _ (Preserves-pure file) (
        component-Preserves Kept (get_variable file.metadata var_name) >>> λ p.
        Preserves-lift (deref h p) >>> λ time_var.
        component-Preserves Kept (get_container file.data_held var_name) >>> λ held.
        component-Preserves Kept (as_doubles held) >>> λ times.
        component-Preserves Kept (get_str_attr time_var origin_name) >>> λ time_origin.
        Preserves-lift (convert_to_atlas_date_time_str (codes time_origin)) >>> λ text.
        Preserves-lift (clock.parse text) >>> λ origin.
        component-Preserves Kept (times_from clock origin times 0 (get_total_size time_var))
        >>> λ date_times. Preserves-pure (set_date_times file date_times))

  create_lfric_atlas_map-Preserves :
      (grid : G) (h : Heap) (file : FileData DateTime)
      → Preserves (OfData Kept) (create_lfric_atlas_map host api grid h file)
  unfolding create_lfric_atlas_map
  create_lfric_atlas_map-Preserves grid h file =
      Preserves-if (not (length file.lfric_atlas_map == 0)) _ _ (Preserves-pure file) (
        on_reader-Preserves Kept (Reader.read_full_data api h file lfric_coord_var_names)
        >>> λ read.
            on_reader-Preserves Kept (Reader.get_coord_data api read lfric_coord_var_names)
            >>> λ coord_data. component-Preserves Kept (get_lfric_coords coord_data) >>> λ coords.
                component-Preserves Kept
                  (UtilsAtlas.create_lfric_atlas_map host.closest (host.grid_coords grid) coords)
                >>> λ map. Preserves-pure (set_lfric_atlas_map read map))

  module _ (name : String) (apart : other ≢ name) where
    lookup-replace :
        (file : FileData DateTime) (files : Map (FileData DateTime))
        → lookup other (insert name file (erase name files)) ≡ lookup other files
    lookup-replace file files = ground (
      arith,
      ==_iff name other,
      ==_self name,
      lookup-insert name other file (erase name files),
      lookup-erase name name files,
      lookup-erase name other files,
    )

    lookup-create :
        (files : Map (FileData DateTime))
        → lookup other (create_file_data files name) ≡ lookup other files
    lookup-create files =
        ground (arith, ==_iff name other, lookup-create_file_data files name other)

    on_entry-Preserves :
        (step : Heap → FileData DateTime → Exec (Monio File DateTime) (FileData DateTime))
        → ((h : Heap) (file : FileData DateTime) → Preserves (OfData Kept) (step h file))
        → Preserves (OfData Kept) (on_entry name step)
    unfolding on_entry
    on_entry-Preserves step h = state-Preserves Kept >>> λ start.
        h start.heap (get_file_data start.files_data name) >>> λ file.
        last_change-Preserves Kept (λ files. insert name file (erase name files))
          (λ files h kept. (lookup-replace file files ∙ kept.0, kept.1))

    full_datum-Preserves :
        (var_name : String)
        → Preserves
            (OfData Kept)
            (on_entry name (λ h file. on_reader (Reader.read_full_datum api h file var_name)))
    full_datum-Preserves var_name =
        on_entry-Preserves _
          (λ h file. on_reader-Preserves Kept (Reader.read_full_datum api h file var_name))

  -- Where a reader returns, the heap that it returns extends the one that it is given.
  abbrev ReadGrows : Heap → Result (Heap × FileData DateTime) → Type 0
  ReadGrows h (ok read) = Extends h read.0
  ReadGrows h (err e) = Unit {0}

  described-ReadGrows :
      (h : Heap) (file : FileData DateTime) (r : Reader File) (read : Result (Heap × Metadata))
      → Grows h read
      → ReadGrows h
          (continue
            (λ read. pure (read.0, record file { metadata = read.1 }))
            (on_error_where closes_files Reader.closed (read, r))).0
  described-ReadGrows h file r (ok read) g = g
  described-ReadGrows h file r (err e) g = tt

  read_metadata-ReadGrows :
      (h : Heap) (file : FileData DateTime) (o : Option File)
      → ReadGrows h (Reader.read_metadata api h file (record { file = o })).0
  unfolding Reader.read_metadata Reader.get_file
  read_metadata-ReadGrows h file none = tt
  read_metadata-ReadGrows h file (some f) =
      described-ReadGrows h file (record { file = some f }) (api.read_metadata f h file.metadata)
        (grows f h file.metadata)

  described-Kept :
      {A : Type 0} (s : Monio File DateTime) (x : Result (Heap × FileData DateTime) × Reader File)
      (k : Heap × FileData DateTime → Exec (Monio File DateTime) A)
      → ((read : Heap × FileData DateTime) → Preserves (OfData Kept) (k read))
      → ReadGrows s.heap x.0
      → Kept s.files_data s.heap
      → OfData Kept
          (continue
            (λ read. set_heap read.0 >> k read)
            (on_error_where closes_files close_files (with_reader s x))).1
  unfolding close_files
  described-Kept s (ok read, r) k later g kept =
      (later read).at (record s { reader = r; heap = read.0 })
        (kept.0, λ p v q. g p v (kept.1 p v q))
  described-Kept s (err e, r) k later g kept =
      elim (closes_files e)
        as (λ b.
          OfData Kept
            (if b then close_files (record s { reader = r }) else record s { reader = r })) [
              | true ↦ kept
              | false ↦ kept
            ]

  -- readMetadata, after which the heap is the one that it returns.
  describing-Preserves :
      {A : Type 0} (name : String) (k : Heap × FileData DateTime → Exec (Monio File DateTime) A)
      → ((read : Heap × FileData DateTime) → Preserves (OfData Kept) (k read))
      → Preserves (OfData Kept) (
          state >>= λ opened.
          on_reader (Reader.read_metadata api opened.heap (get_file_data opened.files_data name))
          >>= λ read. set_heap read.0 >> k read)
  unfolding on_reader
  describing-Preserves name k later = record {
    at = λ s kept.
        let file = get_file_data s.files_data name in
        described-Kept s (Reader.read_metadata api s.heap file s.reader) k later
          (read_metadata-ReadGrows s.heap file s.reader.file) kept;
  }

  initialise_file-Preserves :
      (grid : G) (path : String) (do_create_date_times : Bool)
      → other ≢ host.grid_name grid
      → Preserves (OfData Kept) (initialise_file host api clock grid path do_create_date_times)
  unfolding initialise_file
  initialise_file-Preserves grid path do_create_date_times apart =
      let name = host.grid_name grid in
      change-Preserves Kept (λ files. create_file_data files name) _
        (λ files h kept. (lookup-create name apart files ∙ kept.0, kept.1))
        (on_reader-Preserves Kept (Reader.open_file api path) >>> λ done.
          describing-Preserves name _ (λ read.
            on_entry-Preserves name apart _ (λ h file. Preserves-pure read.1) >>> λ entered.
            on_entry-Preserves name apart _ (λ h file. on_reader-Preserves Kept (
              Reader.read_full_data api h file (find_variable_names file.metadata lfric_mesh_term)))
            >>> λ mesh. full_datum-Preserves name apart vertical_full_name >>> λ full.
                full_datum-Preserves name apart vertical_half_name >>> λ half.
                on_entry-Preserves name apart _ (create_lfric_atlas_map-Preserves grid)
                >>> λ mapped.
                    Preserves-if do_create_date_times _ _
                      (full_datum-Preserves name apart time_var_name >>> λ timed.
                        on_entry-Preserves name apart _
                          (create_date_times-Preserves time_var_name time_origin_name))
                      (Preserves-pure tt)
                    >>> λ dated. state-Preserves Kept >>> λ read_in.
                        component-Preserves Kept (
                          get_variable_convention
                            (get_file_data read_in.files_data name).metadata)))

module _ {S F G N DateTime : Type 0} (host : AtlasHost S F G) (nc : NcLibrary N)
    (clock : Clock DateTime) (other : String) where
  -- initialiseFile, over File.cc and any NetCDF library, leaves the files' data of every grid but its
  -- own as they were, whether it returns or throws: the entry of the other grid is the same, and so is
  -- every variable that was in the heap, so that the pointers of the entry lead to what they led to
  -- before.
  pub lookup-initialise_file :
      (grid : G) (path : String) (do_create_date_times : Bool) (s : Monio (File N) DateTime)
      → other ≢ host.grid_name grid
      → (lookup other
            (initialise_file host
              (file_reads nc)
              clock
              grid
              path
              do_create_date_times
              s).1.files_data
          ≡ lookup other s.files_data)
        × Extends s.heap
            (initialise_file host (file_reads nc) clock grid path do_create_date_times s).1.heap
  lookup-initialise_file grid path do_create_date_times s apart =
      (initialise_file-Preserves host (file_reads nc) clock other (lookup other s.files_data) s.heap
          (λ f h m. read_metadata-Grows nc h m f) grid path do_create_date_times apart).at
        s (refl, λ p v q. q)
