-- ===== src/Examples/Writer.antt =====
-- Two containers through writeData, into a file whose variables are all defined.
use monio.Base.{
  String, ◌≡◌, refl, sym, [], ◌∷◌, Option, none, some, pos, if◌then◌else◌, ◌==◌, string_eq, ==_self,
  ==_ne,
}
use monio.Result.{ok}
use monio.Map.{lookup}
use monio.Map.Order.{key_lt}
use monio.Container.{DataContainer, doubles, floats, ints}
use monio.FileData.{FileData}
use monio.Writer.{FileWrites, write_values, write_data}
use monio.Writer.Stored.{StoresValues, Stores, write_data-Stores}

abbrev Held : Type 0
Held = String → Option DataContainer

abbrev put : Held → String → DataContainer → Held
put f name c k = if name == k then some c else f k

abbrev held_writes : FileWrites Held
held_writes = record {
  create_file = λ path. ok (λ k. none);
  write_metadata = λ f h m. ok f;
  write_doubles =
      λ f name values. ok (put f name (doubles (record { name = name; data_vector = values })));
  write_floats =
      λ f name values. ok (put f name (floats (record { name = name; data_vector = values })));
  write_ints =
      λ f name values. ok (put f name (ints (record { name = name; data_vector = values })));
}

-- The container under the name of the variable that it is written to.
abbrev named : String → DataContainer → DataContainer
named name (doubles c) = doubles (record c { name = name })
named name (floats c) = floats (record c { name = name })
named name (ints c) = ints (record c { name = name })

write_values-put :
    (f : Held) (name : String) (c : DataContainer)
    → write_values held_writes f name c ≡ ok (put f name (named name c))
unfolding write_values
write_values-put f name (doubles c) = refl
write_values-put f name (floats c) = refl
write_values-put f name (ints c) = refl

abbrev held_stores : StoresValues held_writes
held_stores = record {
  Defines = λ f name c. Unit {0};
  Holds = λ f name c. f name ≡ some (named name c);
  write = λ f name c d. put f name (named name c);
  write-eq = λ f name c d. write_values-put f name c;
  Holds-write = λ f name c d. rw (==_self name);
  Defines-write = λ f name k c e d h. tt;
  Holds-write_other = λ f name k c held d ne h. rw (==_ne name k (λ p. ne (sym p))) h;
}

abbrev to_write : FileData String
to_write = record {
  metadata = record {
    dimensions = ("nodes", pos 2) ∷ [];
    global_attrs = [];
    variables = ("rho", 0) ∷ ("theta", 1) ∷ [];
  };
  data_held = record {
    data_containers =
        ("rho", ints (record { name = "rho"; data_vector = pos 1 ∷ pos 2 ∷ [] }))
        ∷ ("theta", ints (record { name = "theta"; data_vector = pos 3 ∷ pos 4 ∷ [] }))
        ∷ [];
  };
  lfric_atlas_map = [];
  date_times = [];
}

write_data-Stores_example :
    Stores held_writes held_stores to_write.metadata
      (write_data held_writes to_write)
      (λ k. none)
      to_write.data_held.data_containers
unfolding lookup key_lt
write_data-Stores_example =
    write_data-Stores held_writes held_stores to_write (λ k. none) ((refl, tt), (tt, tt))
      (((0, refl), tt), (((1, refl), tt), tt))
