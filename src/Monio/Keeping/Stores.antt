-- ===== src/Monio/Keeping/Stores.antt =====
-- src/monio/Monio.cc: the parts of the writes that put new variables into the heap and change none.
use monio.Base.{refl, String, Bool, List, [], ◌∷◌, ◌==◌, nat_eq, string_eq, ◌≡◌}
use monio.Result.{Result, ok, err, field_configuration, zero_fields, netcdf_failure}
use monio.Exec.{Exec, ◌>>=◌, ◌>>◌, continue}
use monio.Exec.Preserves.{Preserves, Preserves-pure, Preserves-lift, Preserves-if, ◌>>>◌}
use monio.Heap.{Heap}
use monio.Constants.{FieldMetadata}
use monio.Map.{Map}
use monio.FileData.{FileData, clear_data}
use monio.AtlasWriter.Files.{populate_file_data_with_field}
use monio.AtlasWriter.Plain.{populate_file_data_of_field}
use monio.Writer.{FileWrites}
use monio.Writer
use monio.Monio.State.{
  Monio, AtlasHost, close_files, component, state, set_heap, on_writer, close_writer,
}
use monio.Monio.WriteState.{
  write_names, write_file_data, write_field, write_fields, writing_file, write_set_fields,
}
use monio.Heap.Trims.{Extends}
use monio.Monio.Keeping.Rules.{
  OfData, component-Preserves, on_writer-Preserves, state-Preserves, set_dim_count-Preserves,
  catch_netcdf-Preserves,
}
use monio.Monio.Keeping.Heaps.{
  After, populate_file_data_with_field-Extends, populate_file_data_of_field-Extends,
}

-- What the writes do with any condition on the heap that a larger heap meets too.
module _ {S F G File DateTime : Type 0} (host : AtlasHost S F G) (api : FileWrites File)
    (held : Map (FileData DateTime)) (P : Heap → Type 0)
    (grow : (h h' : Heap) → P h → Extends h h' → P h') where
  abbrev pub Kept : Map (FileData DateTime) → Heap → Type 0
  Kept files h = (files ≡ held) × P h

  stored :
      {X A : Type 0} (s : Monio File DateTime) (r : Result (Heap × X))
      (k : Heap × X → Exec (Monio File DateTime) A)
      → After (Extends s.heap) r
      → ((x : Heap × X) → Preserves (OfData Kept) (k x))
      → OfData Kept s
      → OfData Kept (continue (λ x. set_heap x.0 >> k x) (component r s)).1
  unfolding close_files
  stored s (ok x) k extends later kept =
      (later x).at (record s { heap = x.0 }) (kept.0, grow s.heap x.0 kept.1 (extends.at x refl))
  stored s (err e) k extends later kept = kept

  -- A call of a component whose heap is kept.
  storing-Preserves :
      {X A : Type 0} (r : Monio File DateTime → Result (Heap × X))
      (k : Heap × X → Exec (Monio File DateTime) A)
      → ((s : Monio File DateTime) → After (Extends s.heap) (r s))
      → ((x : Heap × X) → Preserves (OfData Kept) (k x))
      → Preserves
          (OfData Kept)
          (state >>= λ before. component (r before) >>= λ x. set_heap x.0 >> k x)
  storing-Preserves r k extends later = record {
    at = λ s kept. stored s (r s) k (extends s) later kept;
  }

  write_names-Preserves :
      (lfric_name : FieldMetadata → String) (is_lfric_convention : Bool) (global_field : F)
      (field_metadata : FieldMetadata)
      → Preserves
          (OfData {File = File} Kept)
          (write_names host api lfric_name is_lfric_convention global_field field_metadata)
  unfolding write_names
  write_names-Preserves lfric_name is_lfric_convention global_field field_metadata =
      Preserves-if is_lfric_convention _ _ (Preserves-pure _) (
        Preserves-if (field_metadata.jedi_name == host.fields.name global_field) _ _
          (Preserves-pure _) (component-Preserves Kept (err field_configuration)))

  write_file_data-Preserves :
      (file : FileData DateTime) → Preserves (OfData Kept) (write_file_data host api file)
  unfolding write_file_data
  write_file_data-Preserves file = state-Preserves Kept >>> λ populated.
      on_writer-Preserves Kept (Writer.write_metadata api populated.heap file.metadata)
      >>> λ described. on_writer-Preserves Kept (Writer.write_data api file) >>> λ written.
          Preserves-pure (clear_data file)

  pub write_fields-Preserves :
      (lfric_name : FieldMetadata → String) (is_lfric_convention : Bool) (set : S)
      (file : FileData DateTime) (fields_metadata : List FieldMetadata)
      → Preserves
          (OfData Kept)
          (write_fields host api lfric_name is_lfric_convention set file fields_metadata)
  unfolding write_fields write_field
  write_fields-Preserves lfric_name is_lfric_convention set file [] = Preserves-pure tt
  write_fields-Preserves lfric_name is_lfric_convention set file (field_metadata ∷ rest) =
      (Preserves-lift (host.field_of set field_metadata.jedi_name) >>> λ local_field.
      let global_field = host.get_global_field local_field in
      write_names-Preserves lfric_name is_lfric_convention global_field field_metadata >>> λ names.
      storing-Preserves
        (λ before.
          populate_file_data_with_field host.fields before.heap file global_field field_metadata
            names.0 names.1 is_lfric_convention)
        _
        (λ before.
          populate_file_data_with_field-Extends host.fields before.heap file global_field
            field_metadata names.0 names.1 is_lfric_convention)
        (λ populated. write_file_data-Preserves populated.1))
      >>> λ cleared. write_fields-Preserves lfric_name is_lfric_convention set cleared rest

  pub write_set_fields-Preserves :
      (file : FileData DateTime) (fields : List F)
      → Preserves (OfData Kept) (write_set_fields host api file fields)
  unfolding write_set_fields
  write_set_fields-Preserves file [] = Preserves-pure tt
  write_set_fields-Preserves file (local_field ∷ rest) =
      let global_field = host.get_global_field local_field in
      storing-Preserves
        (λ before.
          populate_file_data_of_field host.fields host.field_coords before.heap file
            before.dim_count global_field (host.fields.name global_field))
        _
        (λ before.
          populate_file_data_of_field-Extends host.fields host.field_coords before.heap file
            before.dim_count global_field (host.fields.name global_field))
        (λ populated. set_dim_count-Preserves Kept populated.1.1 >>> λ counted.
          write_file_data-Preserves populated.1.0)
      >>> λ cleared. write_set_fields-Preserves cleared rest

  pub writing_file-Preserves :
      (set : S) (path : String) (call : Exec (Monio File DateTime) (Unit {0}))
      → Preserves (OfData Kept) call
      → Preserves (OfData Kept) (writing_file host api set path call)
  unfolding writing_file
  writing_file-Preserves set path call h =
      Preserves-if (host.set_size set == 0) _ _ (component-Preserves Kept (err zero_fields)) (
        Preserves-if (path == "") _ _ (Preserves-pure tt) (
          catch_netcdf-Preserves Kept netcdf_failure (call >> on_writer close_writer)
            (h >>> λ written. on_writer-Preserves Kept close_writer)))
