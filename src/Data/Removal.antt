-- ===== src/Data/Removal.antt =====
-- removeAllButTheseContainers.
use monio.Base.{
  String, ◌≡◌, refl, true, none, List, [], ◌∷◌, arith, if◌then◌else◌, string_eq, Bool-cases, inl,
  inr,
}
use monio.Map.{lookup, contains, erase}
use monio.Map.Sorted.{IsSorted}
use monio.Utils.{extract_keys, find_in_vector}
use monio.Utils.Keys.{
  erase_unlisted, lookup-erase_unlisted, erase_unlisted-IsSorted, lookup_unlisted, Present,
  Present-erase, extract_keys-Present,
}
use monio.Data.{Data, delete_container, remove_keys, remove_all_but_these_containers}

delete_container-eq :
    (d : Data) (name : String)
    → contains name d.data_containers ≡ true
    → delete_container d name ≡ record d { data_containers = erase name d.data_containers }
unfolding delete_container
delete_container-eq d name h = rw h

remove_keys-eq :
    (names keys : List String) (d : Data)
    → Present keys d.data_containers
    → remove_keys names keys d
      ≡ record d { data_containers = erase_unlisted names keys d.data_containers }
unfolding remove_keys erase_unlisted
remove_keys-eq names [] d p = refl
remove_keys-eq names (key ∷ keys) d p = elim (Bool-cases (find_in_vector names key)) [
  | inl kept ↦ rw kept (remove_keys-eq names keys d p.2)
  | inr gone ↦
      rw (gone, delete_container-eq d key p.0)
        (remove_keys-eq names keys (record d { data_containers = erase key d.data_containers })
          (Present-erase key keys d.data_containers p.1 p.2))
]

-- removeAllButTheseContainers leaves exactly the containers named, each as it was.
pub remove_all_but_these_containers-lookup :
    (d : Data) (names : List String)
    → IsSorted d.data_containers
    → IsSorted (remove_all_but_these_containers d names).data_containers
      × ((name : String)
          → lookup name (remove_all_but_these_containers d names).data_containers
            ≡ (if find_in_vector names name then lookup name d.data_containers else none))
unfolding remove_all_but_these_containers
remove_all_but_these_containers-lookup d names s =
    let keys = extract_keys d.data_containers in
    rw (remove_keys-eq names keys d (extract_keys-Present d.data_containers s)) (
      erase_unlisted-IsSorted names keys d.data_containers s,
      λ name. ground (
        arith,
        lookup-erase_unlisted names keys name d.data_containers,
        lookup_unlisted name d.data_containers,
      ),
    )
