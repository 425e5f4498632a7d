-- ===== src/Map.antt =====
-- std::map<std::string, T>: its entries in the order of their keys, and the member functions that
-- the code calls. Keys are compared as std::string compares them, by their characters.
pub mod Order
pub mod Laws
pub mod Sorted
pub mod Adds
use Order.{key_lt}
use monio.Base.{
  String, Option, none, some, List, [], ◌∷◌, map, if◌then◌else◌, ◌==◌, string_eq, Bool, true, false,
}

abbrev pub Map {ℓ} : Type ℓ → Type ℓ
Map V = List (String × V)

module _ {ℓ} {V : Type ℓ} where
  -- find, and at where the key is there.
  unfoldable pub lookup : String → Map V → Option V
  lookup k [] = none
  lookup k ((j, v) ∷ m) = if j == k then some v else lookup k m

  -- find(k) != end()
  unfoldable pub contains : String → Map V → Bool
  contains k m = elim (lookup k m) [ none ↦ false | some v ↦ true ]

  -- insert: an entry with the key is kept as it is.
  unfoldable pub insert : String → V → Map V → Map V
  insert k v [] = (k, v) ∷ []
  insert k v ((j, w) ∷ m) =
      let later = (j, w) ∷ insert k v m in
      if key_lt j k then later else if j == k then (j, w) ∷ m else (k, v) ∷ (j, w) ∷ m

  -- erase by key
  unfoldable pub erase : String → Map V → Map V
  erase k [] = []
  erase k ((j, v) ∷ m) = let rest = erase k m in if j == k then rest else (j, v) ∷ rest

  abbrev pub keys : Map V → List String
  keys = map (λ e. e.0)
