-- ===== src/Monio/Keeping/Rules.antt =====
-- What the calls of src/monio/Monio.cc preserve of the files' data and of the variables that these
-- point to: a rule for each kind of call.
use monio.Base.{ℕ, true, false, if◌then◌else◌}
use monio.Result.{Result, ok, err, Error, closes_files, netcdf_exception}
use monio.Exec.{Exec, ◌>>=◌, ◌>>◌, on_error_where}
use monio.Exec.Preserves.{Preserves, Preserves-cleaning}
use monio.Map.{Map}
use monio.Heap.{Heap}
use monio.FileData.{FileData}
use monio.Reader.{Reader}
use monio.Writer.{Writer}
use monio.Monio.State.{
  Monio, close_files, component, on_reader, on_writer, state, set_files_data, set_dim_count,
  catching, catch_netcdf,
}

module _ {File DateTime : Type 0} (Holds : Map (FileData DateTime) → Heap → Type 0) where
  abbrev pub OfData : Monio File DateTime → Type 0
  OfData s = Holds s.files_data s.heap

  close_files-OfData : (s : Monio File DateTime) → OfData s → OfData (close_files s)
  unfolding close_files
  close_files-OfData s h = h

  pub component-Preserves : {A : Type 0} (r : Result A) → Preserves OfData (component r)
  component-Preserves r = Preserves-cleaning close_files r close_files-OfData

  cleared :
      {A : Type 0} (r : Result A) (s : Monio File DateTime)
      → OfData s
      → OfData (on_error_where closes_files close_files (r, s)).1
  cleared (ok a) s h = h
  cleared (err x) s h = elim (closes_files x) as (λ b. OfData (if b then close_files s else s)) [
    | true ↦ close_files-OfData s h
    | false ↦ h
  ]

  pub on_reader-Preserves :
      {A : Type 0} (call : Exec (Reader File) A) → Preserves OfData (on_reader call)
  unfolding on_reader
  on_reader-Preserves call = record {
    at = λ s h. let (r, reader) = call s.reader in cleared r (record s { reader = reader }) h;
  }

  pub on_writer-Preserves :
      {A : Type 0} (call : Exec (Writer File) A) → Preserves OfData (on_writer call)
  unfolding on_writer
  on_writer-Preserves call = record {
    at = λ s h. let (r, writer) = call s.writer in cleared r (record s { writer = writer }) h;
  }

  caught :
      {A : Type 0} (x : Error) (r : Result A) (s : Monio File DateTime)
      → OfData s
      → OfData (catching x (r, s)).1
  caught x (err netcdf_exception) s h = close_files-OfData s h
  caught x r s h = h

  pub catch_netcdf-Preserves :
      {A : Type 0} (x : Error) (call : Exec (Monio File DateTime) A)
      → Preserves OfData call
      → Preserves OfData (catch_netcdf x call)
  unfolding catch_netcdf
  catch_netcdf-Preserves x call k = record {
    at = λ s h. let (r, s') = call s in caught x r s' (k.at s h);
  }

  pub set_dim_count-Preserves : (n : ℕ) → Preserves OfData (set_dim_count n)
  set_dim_count-Preserves n = record { at = λ s h. h }

  pub state-Preserves : Preserves OfData state
  state-Preserves = record { at = λ s h. h }

  -- A change of the files' data, and what comes after it.
  pub change-Preserves :
      {A : Type 0} (change : Map (FileData DateTime) → Map (FileData DateTime))
      (rest : Exec (Monio File DateTime) A)
      → ((files : Map (FileData DateTime)) (h : Heap) → Holds files h → Holds (change files) h)
      → Preserves OfData rest
      → Preserves OfData (state >>= λ s. set_files_data (change s.files_data) >> rest)
  change-Preserves change rest same k = record {
    at = λ s h. k.at (record s { files_data = change s.files_data }) (same s.files_data s.heap h);
  }

  pub last_change-Preserves :
      (change : Map (FileData DateTime) → Map (FileData DateTime))
      → ((files : Map (FileData DateTime)) (h : Heap) → Holds files h → Holds (change files) h)
      → Preserves OfData (state >>= λ s. set_files_data (change s.files_data))
  last_change-Preserves change same = record { at = λ s h. same s.files_data s.heap h }
