-- ===== src/Metadata/Removal.antt =====
-- removeAllButTheseVariables, whose deletions cannot fail.
use monio.Base.{
  String, ◌≡◌, refl, true, none, List, [], ◌∷◌, arith, if◌then◌else◌, string_eq, Bool-cases, inl,
  inr,
}
use monio.Result.{ok}
use monio.Map.{lookup, contains, erase}
use monio.Map.Sorted.{IsSorted}
use monio.Utils.{extract_keys, find_in_vector}
use monio.Utils.Keys.{
  erase_unlisted, lookup-erase_unlisted, erase_unlisted-IsSorted, lookup_unlisted, Present,
  Present-erase, extract_keys-Present,
}
use monio.Metadata.{Metadata, delete_variable, remove_keys, remove_all_but_these_variables}

delete_variable-eq :
    (m : Metadata) (name : String)
    → contains name m.variables ≡ true
    → delete_variable m name ≡ ok (record m { variables = erase name m.variables })
unfolding delete_variable
delete_variable-eq m name h = rw h

pub remove_keys-eq :
    (names keys : List String) (m : Metadata)
    → Present keys m.variables
    → remove_keys names keys m ≡ ok (record m { variables = erase_unlisted names keys m.variables })
unfolding remove_keys erase_unlisted
remove_keys-eq names [] m p = refl
remove_keys-eq names (key ∷ keys) m p = elim (Bool-cases (find_in_vector names key)) [
  | inl kept ↦ rw kept (remove_keys-eq names keys m p.2)
  | inr gone ↦
      rw (gone, delete_variable-eq m key p.0)
        (remove_keys-eq names keys (record m { variables = erase key m.variables })
          (Present-erase key keys m.variables p.1 p.2))
]

abbrev pub KeepsOnly : Metadata → List String → Type 0
KeepsOnly m names =
    (m' : Metadata) × (remove_all_but_these_variables m names ≡ ok m')
    × (m'.dimensions ≡ m.dimensions)
    × (m'.global_attrs ≡ m.global_attrs)
    × IsSorted m'.variables
    × ((name : String)
        → lookup name m'.variables
          ≡ (if find_in_vector names name then lookup name m.variables else none))

-- removeAllButTheseVariables never fails. It leaves exactly the variables named, each as it was,
-- and touches neither the dimensions nor the global attributes.
pub remove_all_but_these_variables-lookup :
    (m : Metadata) (names : List String) → IsSorted m.variables → KeepsOnly m names
unfolding remove_all_but_these_variables
remove_all_but_these_variables-lookup m names s =
    let keys = extract_keys m.variables in
    (
      record m { variables = erase_unlisted names keys m.variables },
      remove_keys-eq names keys m (extract_keys-Present m.variables s),
      refl,
      refl,
      erase_unlisted-IsSorted names keys m.variables s,
      λ name. ground (
        arith,
        lookup-erase_unlisted names keys name m.variables,
        lookup_unlisted name m.variables,
      ),
    )
