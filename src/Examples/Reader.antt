-- ===== src/Examples/Reader.antt =====
-- A reader over files that hold zeros.
use monio.Base.{ℕ, String, refl, [], ◌∷◌, some, pos, replicate, nat_eq}
use monio.Result.{ok}
use monio.Constants.{DataType}
use monio.Values.{zero_double, zero_float}
use monio.Variable.{Variable, has_dimension}
use monio.Variable.Invariant.{IsWf}
use monio.FileData.{FileData}
use monio.Reader.{FileReads, Reader, read_datum_at_step}
use monio.Reader.TimeSteps.{FindsStep, find_time_step-cases}
use monio.Reader.Windows.{FitsVariable, window-FitsVariable}
use monio.Reader.Containers.{AfterRead, read_datum_at_step-AfterRead}

abbrev zeros : FileReads String
zeros = record {
  open_file = λ path. ok path;
  read_metadata = λ f h m. ok (h, m);
  read_doubles = λ f name n. ok (replicate n zero_double);
  read_floats = λ f name n. ok (replicate n zero_float);
  read_ints = λ f name n. ok (replicate n (pos 0));
  read_doubles_at = λ f name start counts n. ok (replicate n zero_double);
  read_floats_at = λ f name start counts n. ok (replicate n zero_float);
  read_ints_at = λ f name start counts n. ok (replicate n (pos 0));
}

abbrev opened : Reader String
opened = record { file = some "state.nc" }

abbrev rho : Variable
rho = record {
  name = "rho";
  type = DataType.double;
  dimensions = ("time_counter", 2) ∷ ("half_levels", 70) ∷ ("nMesh2d_face", 864) ∷ [];
  attributes = [];
}

rho-IsWf : IsWf rho
unfolding has_dimension
rho-IsWf = record { distinct = (refl, (refl, (refl, tt))); sorted = tt; named = tt }

abbrev state_file : FileData ℕ
state_file = record {
  metadata = record {
    dimensions = ("half_levels", pos 70) ∷ ("nMesh2d_face", pos 864) ∷ ("time_counter", pos 2) ∷ [];
    global_attrs = [];
    variables = ("rho", 0) ∷ [];
  };
  data_held = record { data_containers = [] };
  lfric_atlas_map = [];
  date_times = 3600 ∷ 7200 ∷ [];
}

find_time_step-cases_example : FindsStep zeros state_file 7200 opened
find_time_step-cases_example = find_time_step-cases zeros state_file 7200 opened

window-FitsVariable_example : FitsVariable "time_counter" 1 rho
window-FitsVariable_example = window-FitsVariable "time_counter" 1 rho rho-IsWf

read_datum_at_step-AfterRead_example :
    AfterRead zeros state_file "rho" opened
      (read_datum_at_step zeros (rho ∷ []) state_file "rho" 1 "time_counter" opened)
read_datum_at_step-AfterRead_example =
    read_datum_at_step-AfterRead zeros (rho ∷ []) state_file "rho" 1 "time_counter" opened
