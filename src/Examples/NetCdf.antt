-- ===== src/Examples/NetCdf.antt =====
-- Metadata and values through File.cc, over files in the memory.
use monio.Base.{String, ◌≡◌, refl, sym, [], ◌∷◌, some, pos, arith, ap, to_size-pos}
use monio.Result.{ok}
use monio.Constants.{DataType, data_type_name}
use monio.Map.{Map, lookup}
use monio.Map.Order.{key_lt}
use monio.Variable.{Variable, attribute_string, attribute_int, attribute_name, has_dimension}
use monio.Variable.Invariant.{IsWf}
use monio.Heap.{Heap, deref}
use monio.Metadata.{Metadata}
use monio.Container.{DataContainer, doubles, floats, ints, get_name, get_type}
use monio.FileData.{FileData}
use monio.NetCdf.{FileMode, double_name, int_name, put_values}
use monio.NetCdf.Model.{memory, memory_defines, memory_keeps, no_contents, Contents}
use monio.File.Writes.{write_metadata}
use monio.File.Writes.Entries.{opened}
use monio.File.RoundTrip.{Writable, ReadsBack, read_metadata-write_metadata}
use monio.File.Whole.{TakesByVariable, WholeComesBack, read_metadata-write_data}

abbrev wind : Variable
wind = record {
  name = "u";
  type = DataType.double;
  dimensions = ("levels", 3) ∷ ("nodes", 2) ∷ [];
  attributes = ("units", attribute_string "units" "m s-1") ∷ [];
}

abbrev index : Variable
index = record {
  name = "index";
  type = DataType.int;
  dimensions = ("nodes", 2) ∷ [];
  attributes = [];
}

abbrev heap : Heap
heap = wind ∷ index ∷ []

abbrev described : Metadata
described = record {
  dimensions = ("levels", pos 3) ∷ ("nodes", pos 2) ∷ [];
  global_attrs =
      ("timeStamp", attribute_int "timeStamp" (pos 7))
      ∷ ("variable_convention", attribute_string "variable_convention" "JEDI")
      ∷ [];
  variables = ("index", 1) ∷ ("u", 0) ∷ [];
}

abbrev variables : Map Variable
variables = ("index", index) ∷ ("u", wind) ∷ []

wind-IsWf : IsWf wind
unfolding has_dimension attribute_name
wind-IsWf = record { distinct = (refl, (refl, tt)); sorted = (tt, tt); named = (refl, tt) }

index-IsWf : IsWf index
unfolding has_dimension
index-IsWf = record { distinct = (refl, tt); sorted = tt; named = tt }

described-Writable : Writable memory memory_defines heap described variables
unfolding key_lt attribute_name deref lookup data_type_name
described-Writable = record {
  sizes =
      ((tt, (3, refl, omega arith, omega arith)), ((tt, (2, refl, omega arith, omega arith)), tt));
  names = (tt, (tt, tt));
  own = (refl, (refl, tt));
  points = ((refl, refl, refl), ((refl, refl, refl), tt));
  own_names = (refl, (refl, tt));
  fits = (
    record {
      named = tt;
      typed = int_name;
      known = (ap some (to_size-pos 2 (omega arith)), tt);
      atts_named = tt;
      wf = index-IsWf;
    },
    (
      record {
        named = tt;
        typed = double_name;
        known =
            (ap some (to_size-pos 3 (omega arith)), (ap some (to_size-pos 2 (omega arith)), tt));
        atts_named = (tt, tt);
        wf = wind-IsWf;
      },
      tt,
    ),
  );
  dimensions-IsSorted = ((refl, tt), (tt, tt));
  global_attrs-IsSorted = ((refl, tt), (tt, tt));
  variables-IsSorted = ((refl, tt), (tt, tt));
}

read_metadata-write_metadata_example :
    (n' : Contents) × (write_metadata memory heap described (opened FileMode.replace no_contents)
      ≡ (ok tt, opened FileMode.replace n'))
    × ReadsBack memory memory_defines n' [] described variables
read_metadata-write_metadata_example =
    read_metadata-write_metadata memory memory_defines heap [] described variables no_contents
      described-Writable (refl, refl, refl)

abbrev indices : DataContainer
indices = ints (record { name = "index"; data_vector = pos 4 ∷ pos 5 ∷ [] })

abbrev to_write : FileData String
to_write = record {
  metadata = described;
  data_held = record { data_containers = ("index", indices) ∷ [] };
  lfric_atlas_map = [];
  date_times = [];
}

ok_inj : {A : Type 0} (a b : A) → ok a ≡ ok b → a ≡ b
ok_inj a b p = cc

-- The names of a file in the memory are not touched by its values.
put_names :
    (n n' : Contents) (name : String) (c : DataContainer)
    → put_values memory n name c ≡ ok n'
    → (n.dims ≡ n'.dims) × (n.vars ≡ n'.vars) × (n.atts ≡ n'.atts)
unfolding put_values
put_names n n' name (doubles c) put = (
  ap (λ (x : Contents). x.dims) (ok_inj _ _ put),
  ap (λ (x : Contents). x.vars) (ok_inj _ _ put),
  ap (λ (x : Contents). x.atts) (ok_inj _ _ put),
)
put_names n n' name (floats c) put = (
  ap (λ (x : Contents). x.dims) (ok_inj _ _ put),
  ap (λ (x : Contents). x.vars) (ok_inj _ _ put),
  ap (λ (x : Contents). x.atts) (ok_inj _ _ put),
)
put_names n n' name (ints c) put = (
  ap (λ (x : Contents). x.dims) (ok_inj _ _ put),
  ap (λ (x : Contents). x.vars) (ok_inj _ _ put),
  ap (λ (x : Contents). x.atts) (ok_inj _ _ put),
)

memory_by_variable : TakesByVariable memory memory_keeps
memory_by_variable = record {
  takes = λ n name c v found typed sized. tt;
  put-dims = λ n n' name c put. sym (put_names n n' name c put).0;
  put-vars = λ n n' name c put. sym (put_names n n' name c put).1;
  put-atts = λ n n' name c put. sym (put_names n n' name c put).2;
}

read_metadata-write_data_example :
    WholeComesBack memory memory_defines memory_keeps memory_by_variable heap [] to_write variables
      no_contents "index" indices
unfolding lookup get_name get_type
read_metadata-write_data_example =
    read_metadata-write_data memory memory_defines memory_keeps memory_by_variable heap [] to_write
      variables no_contents "index" indices described-Writable (refl, refl, refl) (tt, tt)
      ((index, refl, refl, refl), tt) refl refl (omega arith)
