-- ===== src/Examples/Plain.antt =====
-- A field without metadata through populateFileDataWithField.
use monio.Base.{ℕ, ◌≡◌, refl, [], ◌∷◌, pos, arith}
use monio.Result.{ok}
use monio.Map.{lookup, contains, insert}
use monio.Map.Order.{key_lt}
use monio.UtilsAtlas.{idx}
use monio.Metadata.{Metadata, get_dimension_name, add_dimension}
use monio.AtlasWriter.Plain.{to_string, name_dimension, name_dimensions}
use monio.AtlasWriter.Counted.{Counts, name_dimension-Counts}

abbrev before : Metadata
before = record { dimensions = ("dim0", pos 2) ∷ []; global_attrs = []; variables = [] }

to_string_of_four_digits : to_string 4207 ≡ "4207"
unfolding to_string
to_string_of_four_digits = refl

to_string_of_zero : to_string 0 ≡ "0"
unfolding to_string
to_string_of_zero = refl

names_of_two_sizes :
    name_dimensions (record before { dimensions = [] }) 0 (2 ∷ 3 ∷ [])
    ≡ ok (record before { dimensions = ("dim0", pos 2) ∷ ("dim1", pos 3) ∷ [] }, 2)
unfolding name_dimensions to_string get_dimension_name idx add_dimension contains lookup insert
    key_lt
names_of_two_sizes = refl

name_dimension-Counts_example :
    (m' : Metadata) × (count' : ℕ) × (name_dimension before 1 3 ≡ ok (m', count'))
    × Counts before 1 3 m' count'
unfolding lookup to_string
name_dimension-Counts_example = name_dimension-Counts before 1 3 refl refl (omega arith)
