-- ===== src/Map/Laws.antt =====
-- What a lookup finds after an insertion or an erasure.
use monio.Base.{
  String, ◌≡◌, refl, ◌≢◌, none, some, [], ◌∷◌, arith, if◌then◌else◌, ◌==◌, string_eq, ==_iff,
  ==_self,
}
use monio.Map.{Map, lookup, insert, erase}

module _ {ℓ} {V : Type ℓ} where
  -- A new key.
  pub lookup-insert :
      (k j : String) (v : V) (m : Map V)
      → lookup k m ≡ none
      → lookup j (insert k v m) ≡ (if k == j then some v else lookup j m)
  unfolding lookup insert
  lookup-insert k j v [] h = refl
  lookup-insert k j v ((i, w) ∷ m) h =
      ground (arith, ==_iff k j, ==_iff i k, ==_iff i j, lookup-insert k j v m)

  pub lookup-erase :
      (k j : String) (m : Map V) → lookup j (erase k m) ≡ (if k == j then none else lookup j m)
  unfolding lookup erase
  lookup-erase k j [] = ground arith
  lookup-erase k j ((i, w) ∷ m) =
      ground (arith, ==_iff k j, ==_iff i k, ==_iff i j, lookup-erase k j m)

  pub lookup_head : (k : String) (v : V) (m : Map V) → lookup k ((k, v) ∷ m) ≡ some v
  unfolding lookup
  lookup_head k v m = ground (arith, ==_self k)

  pub lookup_skip : (k j : String) (v : V) (m : Map V) → j ≢ k → lookup k ((j, v) ∷ m) ≡ lookup k m
  unfolding lookup
  lookup_skip k j v m h = ground (arith, ==_iff j k)
