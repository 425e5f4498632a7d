-- ===== src/AtlasWriter/Counted.antt =====
-- The names that populateFileDataWithField gives to sizes without one.
use monio.Base.{
  ℕ, suc, ◌<◌, ◌^◌, String, ◌≡◌, ◌≢◌, refl, sym, [], ◌∷◌, none, some, ℤ, pos, arith, ◌==◌, nat_eq,
  string_eq, int_eq, ==_iff, ==_self, ==_ne, Bool-cases, inl, inr, ◌⊎◌, true, lt→ltb,
}
use monio.Result.{ok}
use monio.Constants.{not_found_error}
use monio.Map.{Map, lookup, insert}
use monio.Map.Order.{key_lt}
use monio.Metadata.{Metadata, name_of_value, get_dimension_name, add_dimension}
use monio.Metadata.Additions.{contains-none}
use monio.UtilsAtlas.{idx}
use monio.AtlasWriter.Plain.{counted_name, name_dimension}

name_of_value-insert :
    (k : String) (v : ℤ) (m : Map ℤ)
    → lookup not_found_error m ≡ none
    → lookup k m ≡ none
    → name_of_value v m ≡ not_found_error
    → name_of_value v (insert k v m) ≡ k
unfolding name_of_value insert lookup
name_of_value-insert k v [] free new unnamed = rw (==_self v)
name_of_value-insert k v ((j, w) ∷ m) free new unnamed =
    let rest : name_of_value v m ≡ not_found_error → name_of_value v (insert k v m) ≡ k =
      name_of_value-insert k v m (ground arith) (ground arith) in
    elim (Bool-cases (w == v)) [
      | inl here ↦
          let named : j ≡ not_found_error = rw here at unnamed in
          let gone : (j == not_found_error) ≡ true = (==_iff j not_found_error).1 named in
          let bad : some w ≡ none = rw gone at free in absurd cc
      | inr past ↦
          let unnamed' : name_of_value v m ≡ not_found_error = rw past at unnamed in
          elim (Bool-cases (key_lt j k)) [
            | inl lower ↦ rw (lower, past) (rest unnamed')
            | inr higher ↦ elim (Bool-cases (j == k)) [
              | inl same ↦ let bad : some w ≡ none = rw same at new in absurd cc
              | inr other ↦ rw (higher, other, ==_self v)
            ]
          ]
    ]

name_of_value-insert_other :
    (k : String) (u v : ℤ) (m : Map ℤ)
    → u ≢ v
    → lookup k m ≡ none
    → name_of_value u (insert k v m) ≡ name_of_value u m
unfolding name_of_value insert lookup
name_of_value-insert_other k u v [] apart new = rw (==_ne v u (λ p. apart (sym p)))
name_of_value-insert_other k u v ((j, w) ∷ m) apart new =
    let rest : name_of_value u (insert k v m) ≡ name_of_value u m =
      name_of_value-insert_other k u v m apart (ground arith) in
    elim (Bool-cases (key_lt j k)) [
      | inl lower ↦ rw (lower, rest)
      | inr higher ↦ elim (Bool-cases (j == k)) [
        | inl same ↦ let bad : some w ≡ none = rw same at new in absurd cc
        | inr other ↦ rw (higher, other, ==_ne v u (λ p. apart (sym p)))
      ]
    ]

-- A size with a name leaves the dimensions and the counter. A size without one gets the name of the
-- counter, which is advanced, and the sizes of other dimensions keep their names.
abbrev pub Counts : Metadata → ℕ → ℕ → Metadata → ℕ → Type 0
Counts m count size m' count' =
    ((get_dimension_name m (pos size) ≢ not_found_error) × (m' ≡ m) × (count' ≡ count))
    ⊎ ((get_dimension_name m (pos size) ≡ not_found_error)
        × (get_dimension_name m' (pos size) ≡ counted_name count)
        × (count' ≡ suc count)
        × ((v : ℤ) → v ≢ pos size → get_dimension_name m' v ≡ get_dimension_name m v))

-- Where no dimension has the name NOT_FOUND or the next name of the counter, which does not
-- overflow, a round of populateFileDataWithField over the shape succeeds: a size that has a name
-- changes nothing, and a size without one is found afterwards under the name of the counter, which
-- is advanced, while every other size keeps its name or lack of one.
pub name_dimension-Counts :
    (m : Metadata) (count size : ℕ)
    → lookup not_found_error m.dimensions ≡ none
    → lookup (counted_name count) m.dimensions ≡ none
    → suc count < 2 ^ 31
    → (m' : Metadata) × (count' : ℕ) × (name_dimension m count size ≡ ok (m', count'))
      × Counts m count size m' count'
unfolding name_dimension get_dimension_name add_dimension idx
name_dimension-Counts m count size free new small =
    let name = counted_name count in
    let absent = contains-none name m.dimensions new in
    let counted = lt→ltb (suc count) (2 ^ 31) small in
    elim (Bool-cases (name_of_value (pos size) m.dimensions == not_found_error)) [
      | inl unnamed ↦
          let missing =
            (==_iff (name_of_value (pos size) m.dimensions) not_found_error).0 unnamed in
          (
            add_dimension m name (pos size),
            suc count,
            rw (unnamed, counted),
            inr (
              missing,
              rw absent (name_of_value-insert name (pos size) m.dimensions free new missing),
              refl,
              λ v apart.
                  rw absent (name_of_value-insert_other name v (pos size) m.dimensions apart new),
            ),
          )
      | inr named ↦
          let known : name_of_value (pos size) m.dimensions ≢ not_found_error = λ p.
            ground (arith, (==_iff (name_of_value (pos size) m.dimensions) not_found_error).1 p) in
          (m, count, rw named, inl (known, refl, refl))
    ]
