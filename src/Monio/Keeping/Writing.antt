-- ===== src/Monio/Keeping/Writing.antt =====
-- src/monio/Monio.cc: what writeIncrements, writeState and writeFieldSet leave of the files' data.
use monio.Base.{refl, if◌then◌else◌, true, false, String, Bool, List, nat_eq, string_eq, ◌≡◌}
use monio.Result.{Result, ok, err}
use monio.Exec.{pure, ◌>>=◌, ◌>>◌, continue}
use monio.Exec.Preserves.{Preserves, Preserves-lift, ◌>>>◌}
use monio.Heap.{Heap}
use monio.Constants.{FieldMetadata, time_dim_name, tile_dim_name}
use monio.Map.{Map}
use monio.FileData.{FileData, empty_file}
use monio.Writer.{FileWrites}
use monio.Writer
use monio.Monio.{get_file_data, clean_file_data, add_jedi_data}
use monio.Monio.State.{Monio, AtlasHost, close_files, component, set_heap}
use monio.Monio.WriteState.{write_base, write_named, write_increments, write_state, write_field_set}
use monio.Heap.Trims.{Extends, Extends-Trims, Trims, Trims-refl, Trims-Trims}
use monio.Monio.Keeping.Rules.{OfData, on_writer-Preserves}
use monio.Monio.Keeping.Heaps.{After, clean_file_data-Trims, add_jedi_data-Extends}
use monio.Monio.Keeping.Stores.{
  write_fields-Preserves, write_set_fields-Preserves, writing_file-Preserves,
}

module _ {S F G File DateTime : Type 0} (host : AtlasHost S F G) (api : FileWrites File)
    (held : Map (FileData DateTime)) (before : Heap) where
  -- The files' data are the same, and the variables of the heap before are there, trimmed.
  abbrev Cut : Map (FileData DateTime) → Heap → Type 0
  Cut files h = (files ≡ held) × Trims time_dim_name tile_dim_name before h

  added-Cut :
      (s : Monio File DateTime) (added : Result (Heap × FileData DateTime))
      → After (Extends s.heap) added
      → OfData Cut s
      → OfData Cut (continue (λ x. set_heap x.0 >> pure x.1) (component added s)).1
  unfolding close_files
  added-Cut s (ok x) extends cut =
      (cut.0, Extends-Trims time_dim_name tile_dim_name before s.heap x.0 cut.1 (extends.at x refl))
  added-Cut s (err e) extends cut = cut

  cleaned-Cut :
      (s : Monio File DateTime) (is_lfric_convention : Bool)
      (cleaned : Result (Heap × FileData DateTime))
      → After (Trims time_dim_name tile_dim_name s.heap) cleaned
      → OfData Cut s
      → OfData Cut
          (continue
            (λ cleaned.
              set_heap cleaned.0
              >> ((if is_lfric_convention
                    then pure cleaned
                    else component (add_jedi_data cleaned.0 cleaned.1))
                  >>= λ added. set_heap added.0 >> pure added.1))
            (component cleaned s)).1
  unfolding close_files
  cleaned-Cut s is_lfric_convention (err e) trims cut = cut
  cleaned-Cut s true (ok x) trims cut =
      (cut.0, Trims-Trims time_dim_name tile_dim_name before s.heap x.0 cut.1 (trims.at x refl))
  cleaned-Cut s false (ok x) trims cut =
      added-Cut (record s { heap = x.0 }) (add_jedi_data x.0 x.1) (add_jedi_data-Extends x.0 x.1)
        (cut.0, Trims-Trims time_dim_name tile_dim_name before s.heap x.0 cut.1 (trims.at x refl))

  write_base-Preserves :
      (set : S) (is_lfric_convention : Bool)
      → Preserves (OfData {File = File} Cut) (write_base host api set is_lfric_convention)
  unfolding write_base
  write_base-Preserves set is_lfric_convention = Preserves-lift (host.first_field set) >>> λ field.
      record {
        at = λ s cut.
            let copied = get_file_data s.files_data (host.grid_name (host.grid_of field)) in
            cleaned-Cut s is_lfric_convention (clean_file_data s.heap copied)
              (clean_file_data-Trims s.heap copied) cut;
      }

  later :
      (h h' : Heap)
      → Trims time_dim_name tile_dim_name before h
      → Extends h h'
      → Trims time_dim_name tile_dim_name before h'
  later h h' = Extends-Trims time_dim_name tile_dim_name before h h'

  write_named-Preserves :
      (lfric_name : FieldMetadata → String) (set : S) (fields_metadata : List FieldMetadata)
      (path : String) (is_lfric_convention : Bool)
      → Preserves
          (OfData Cut)
          (write_named host api lfric_name set fields_metadata path is_lfric_convention)
  unfolding write_named
  write_named-Preserves lfric_name set fields_metadata path is_lfric_convention =
      writing_file-Preserves host api held _ later set path _ (
        write_base-Preserves set is_lfric_convention >>> λ file.
        on_writer-Preserves Cut (Writer.open_file api path) >>> λ opened.
        write_fields-Preserves host api held _ later lfric_name is_lfric_convention set file
          fields_metadata)

module _ {File DateTime : Type 0} where
  -- The files' data are as before, and so are the variables in the heap, but for dimensions of time
  -- and of tiles.
  abbrev pub Trimming : Monio File DateTime → Monio File DateTime → Type 0
  Trimming s s' = (s'.files_data ≡ s.files_data) × Trims time_dim_name tile_dim_name s.heap s'.heap

module _ {S F G File DateTime : Type 0} (host : AtlasHost S F G) (api : FileWrites File) where
  -- The writes of increments, of a state and of a set of fields leave the files' data of every grid,
  -- by the pointers in them, as they were, whether they return or throw. Every variable that was in
  -- the heap, and so each that these pointers lead to, is still in its place: after the first two with
  -- its name, its type, its attributes and its dimensions under other names than those of the time and
  -- of the tiles, which cleanFileData deletes in place; after the third as it was.
  pub files_data-write :
      (set : S) (fields_metadata : List FieldMetadata) (path : String) (is_lfric_convention : Bool)
      (s : Monio File DateTime)
      → Trimming s (write_increments host api set fields_metadata path is_lfric_convention s).1
        × Trimming s (write_state host api set fields_metadata path is_lfric_convention s).1
        × ((write_field_set host api set path s).1.files_data ≡ s.files_data)
        × Extends s.heap (write_field_set host api set path s).1.heap
  unfolding write_increments write_state write_field_set
  files_data-write set fields_metadata path is_lfric_convention s =
      let same = Trims-refl time_dim_name tile_dim_name s.heap in
      let extends : Heap → Type 0 = λ h. Extends s.heap h in
      let grow : (h h' : Heap) → Extends s.heap h → Extends h h' → Extends s.heap h' =
        λ h h' first second p v q. second p v (first p v q) in
      let fields =
        (writing_file-Preserves host api s.files_data extends grow set path _ (
            on_writer-Preserves _ (Writer.open_file api path) >>> λ opened.
            write_set_fields-Preserves host api s.files_data extends grow empty_file
              (host.set_fields set))).at
          s (refl, λ p v q. q) in
      (
        (write_named-Preserves host api s.files_data s.heap _ set fields_metadata path
              is_lfric_convention).at
            s (refl, same),
        (write_named-Preserves host api s.files_data s.heap _ set fields_metadata path
              is_lfric_convention).at
            s (refl, same),
        fields.0,
        fields.1,
      )
