-- ===== src/Examples/Disk.antt =====
-- A field through a file in the memory.
use monio.Base.{ℕ, refl, false, [], ◌∷◌, arith, nat_eq, string_eq}
use monio.Constants.{DataType}
use monio.Map.{lookup}
use monio.Variable.{Variable, get_total_size}
use monio.Heap.{deref}
use monio.Metadata.{get_variable}
use monio.FileData.{FileData}
use monio.Reader.{variable_of}
use monio.NetCdf.Model.{memory, memory_keeps, no_contents}
use monio.Atlas.Typed.{typed_library}
use monio.RoundTrip.Disk.{ComesBackFromDisk, populate_field-read_full_datum}
use monio.Examples.Monio.{
  described, described_before, theta_described, theta_known, theta_field, theta_metadata,
  file_to_write,
}

abbrev theta_stored : Variable
theta_stored = record {
  name = "theta";
  type = DataType.double;
  dimensions = ("levels", 3) ∷ ("nMesh2d_face", 2) ∷ [];
  attributes = [];
}

abbrev to_read : FileData ℕ
to_read = record file_to_write {
  metadata = record described_before { variables = ("theta", 0) ∷ [] };
}

populate_field-read_full_datum_example :
    ComesBackFromDisk typed_library memory memory_keeps [] file_to_write
      (theta_stored ∷ [])
      to_read
      no_contents
      (theta_field 3)
      (theta_field 3)
      (theta_metadata false)
      "theta"
      "levels"
      described
unfolding variable_of get_variable lookup deref get_total_size
populate_field-read_full_datum_example =
    populate_field-read_full_datum typed_library memory memory_keeps [] (theta_stored ∷ [])
      file_to_write to_read no_contents (theta_field 3) (theta_field 3) (theta_metadata false)
      "theta" "levels" described 0 theta_stored theta_described refl refl
      (omega arith, (omega arith, tt)) ((λ p. omega (arith, p), tt), (tt, tt)) refl (omega arith)
      (omega arith) refl refl refl theta_known (λ c size. tt) refl refl refl refl refl
