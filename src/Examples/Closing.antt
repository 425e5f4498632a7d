-- ===== src/Examples/Closing.antt =====
-- Monio over files in the memory.
use monio.Base.{
  ℕ, String, ◌≡◌, refl, true, false, List, [], ◌∷◌, none, some, pos, string_eq, nat_eq, inl,
}
use monio.Result.{Result, ok, err, Error, undefined_access}
use monio.Constants.{DataType, FieldMetadata}
use monio.Values.{zero_double, zero_float}
use monio.Atlas.Fields.{kind_real64}
use monio.Atlas.Typed.{TypedGrid, typed_library}
use monio.Monio.State.{Monio, AtlasHost, Clock}
use monio.Monio.ReadState.{read_state, read_increments}
use monio.Map.{lookup}
use monio.FileData.{FileData, empty_file}
use monio.Heap.Trims.{Extends}
use monio.Variable.{Variable, make_variable}
use monio.Monio.Initialise.{initialise_file}
use monio.Monio.Keeping.Initialise.{lookup-initialise_file}
use monio.Monio.Keeping.Writing.{Trimming, files_data-write}
use monio.Monio.WriteState.{write_state, write_increments, write_field_set}
use monio.Monio.Closing.{EndsClosed, IsReaderClosed, IsWriterClosed}
use monio.Monio.Closing.Files.{
  IsLeftOpen, IsLeftOpenInRead, reads_of_file-EndsClosed, writes_of_file-EndsClosed,
}
use monio.NetCdf.{FileMode}
use monio.NetCdf.Model.{Contents, no_contents, memory}
use monio.File.{File}
use monio.File.Calls.{file_reads, file_writes}
use monio.File.Throws.Memory.{memory_throws}

abbrev column : TypedGrid
column = record {
  label = "theta";
  kind = kind_real64;
  global = true;
  width = 1;
  height = 3;
  ghost = pos 0 ∷ [];
  double_cell = λ k l. zero_double;
  float_cell = λ k l. zero_float;
  int_cell = λ k l. pos 0;
}

-- A set of fields is one field, which every name gives.
abbrev one_field : AtlasHost TypedGrid TypedGrid String
one_field = record {
  fields = typed_library;
  set_size = λ set. 1;
  field_of = λ set name. ok set;
  first_field = λ set. ok set;
  set_fields = λ set. set ∷ [];
  put_field = λ set name f. f;
  get_global_field = λ f. f;
  scatter = λ from into. from;
  grid_of = λ f. "CS-LFR-2";
  grid_name = λ g. g;
  grid_coords = λ g. [];
  field_coords = λ f. [];
  closest = λ points p. 0;
}

abbrev parsed : List ℕ → Result ℕ
parsed [] = err undefined_access
parsed (c ∷ text) = ok c

abbrev seconds : Clock ℕ
seconds = record { parse = parsed; add_seconds = λ t n. n }

abbrev theta : FieldMetadata
theta = record {
  lfric_read_name = "theta";
  lfric_write_name = "theta_inc";
  jedi_name = "theta";
  lfric_vert_config = "full_levels";
  jedi_vert_config = "levels";
  units = "K";
  number_of_levels = 3;
  no_first_level = false;
}

abbrev earlier : File Contents
earlier = record { data_file = some no_contents; file_mode = FileMode.replace }

-- The writer was left with a file.
abbrev busy : Monio (File Contents) ℕ
busy = record {
  reader = record { file = none };
  writer = record { file = some earlier };
  files_data = [];
  dim_count = 0;
  heap = [];
}

-- The parse of a date-time throws on a text without characters, and a look-up in a set of fields
-- never.
abbrev IsOfParse : Error → Type 0
IsOfParse e = undefined_access ≡ e

parse_fails : (text : List ℕ) (e : Error) → seconds.parse text ≡ err e → IsOfParse e
parse_fails [] e p = cc
parse_fails (c ∷ text) e p = absurd cc

reads_of_file-EndsClosed_example :
    EndsClosed (IsLeftOpenInRead IsOfParse) IsReaderClosed (
      read_state one_field
        (file_reads memory)
        seconds
        (λ path. true)
        column
        (theta ∷ [])
        "state.nc"
        3600
        busy)
    × EndsClosed (IsLeftOpenInRead IsOfParse) IsReaderClosed (
        read_increments one_field
          (file_reads memory)
          seconds
          (λ path. true)
          column
          (theta ∷ [])
          "state.nc"
          busy)
reads_of_file-EndsClosed_example =
    reads_of_file-EndsClosed one_field memory IsOfParse memory_throws (λ set name e p. absurd cc)
      seconds (λ path. true) parse_fails column (theta ∷ []) "state.nc" 3600 busy

writes_of_file-EndsClosed_example :
    EndsClosed
      (IsLeftOpen IsOfParse)
      IsWriterClosed
      (write_increments one_field (file_writes memory) column (theta ∷ []) "out.nc" true busy)
    × EndsClosed
        (IsLeftOpen IsOfParse)
        IsWriterClosed
        (write_state one_field (file_writes memory) column (theta ∷ []) "out.nc" true busy)
    × EndsClosed
        (IsLeftOpen IsOfParse)
        IsWriterClosed
        (write_field_set one_field (file_writes memory) column "out.nc" busy)
writes_of_file-EndsClosed_example =
    writes_of_file-EndsClosed one_field memory IsOfParse memory_throws (λ set name e p. absurd cc)
      (λ set e p. absurd cc) column (theta ∷ []) "out.nc" true busy (inl refl)

-- A variable of another grid's data.
abbrev other_theta : Variable
other_theta = make_variable "theta" DataType.double

abbrev other_data : FileData ℕ
other_data = record empty_file {
  metadata = record { dimensions = []; global_attrs = []; variables = ("theta", 0) ∷ [] };
}

abbrev two_grids : Monio (File Contents) ℕ
two_grids = record busy { files_data = ("CS-LFR-24", other_data) ∷ []; heap = other_theta ∷ [] }

lookup-initialise_file_example :
    (lookup "CS-LFR-24"
        (initialise_file one_field
          (file_reads memory)
          seconds
          "CS-LFR-2"
          "state.nc"
          true
          two_grids).1.files_data
      ≡ lookup "CS-LFR-24" two_grids.files_data)
    × Extends two_grids.heap
        (initialise_file one_field
          (file_reads memory)
          seconds
          "CS-LFR-2"
          "state.nc"
          true
          two_grids).1.heap
lookup-initialise_file_example =
    lookup-initialise_file one_field memory seconds "CS-LFR-24" "CS-LFR-2" "state.nc" true two_grids
      (λ p. cc)

-- The data of the grid that is written, with a variable over time.
abbrev timed_theta : Variable
timed_theta = record other_theta { dimensions = ("time_counter", 2) ∷ ("full_levels", 3) ∷ [] }

abbrev read_grid : Monio (File Contents) ℕ
read_grid = record busy { files_data = ("CS-LFR-2", other_data) ∷ []; heap = timed_theta ∷ [] }

files_data-write_example :
    Trimming read_grid
      (write_increments one_field
        (file_writes memory)
        column
        (theta ∷ [])
        "out.nc"
        true
        read_grid).1
    × Trimming read_grid
        (write_state one_field (file_writes memory) column (theta ∷ []) "out.nc" true read_grid).1
    × ((write_field_set one_field (file_writes memory) column "out.nc" read_grid).1.files_data
        ≡ read_grid.files_data)
    × Extends read_grid.heap
        (write_field_set one_field (file_writes memory) column "out.nc" read_grid).1.heap
files_data-write_example =
    files_data-write one_field (file_writes memory) column (theta ∷ []) "out.nc" true read_grid
