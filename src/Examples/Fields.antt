-- ===== src/Examples/Fields.antt =====
-- Fields of two columns through populateField, populateDataVec and copySurfaceLevel.
use monio.Base.{
  ℕ, ◌+◌, ◌*◌, ◌≡◌, refl, sym, false, List, [], ◌∷◌, length, replicate, length-replicate, arith,
}
use monio.Result.{err, data_index}
use monio.Atlas.Model.{Grid, grid_view}
use monio.AtlasReader.{populate_field}
use monio.AtlasReader.Populate.{AllBelow, Populates, populate_field-Copies, populate_field_short}
use monio.AtlasWriter.Columns.{Distinct, Fills, populate_data_vec-Written}
use monio.AtlasWriter.Shape.{FillsByShape, populate_data_vec_by_shape-Written}
use monio.AtlasWriter.Surface.{HasSurfaceTwice, copy_surface_level-CopiedLevels}
use monio.RoundTrip.{
  ComesBack, ComesBackFilled, populate_field-populate_data_vec, populate_field-copy_surface_level,
}

abbrev swapped : List ℕ
swapped = 1 ∷ 0 ∷ []

abbrev pressure : ℕ → Grid ℕ
pressure levels = record {
  label = "pressure";
  width = 2;
  height = levels;
  cell = λ k l. 100 * k + l;
}

abbrev blank : ℕ → Grid ℕ
blank levels = record { label = "pressure"; width = 2; height = levels; cell = λ k l. 0 }

abbrev six : List ℕ
six = 10 ∷ 11 ∷ 12 ∷ 13 ∷ 14 ∷ 15 ∷ []

abbrev whole_column : List ℕ
whole_column = replicate 142 0

whole_column_size : length whole_column ≡ 142
whole_column_size = length-replicate {A = ℕ} 142 0

two_below : AllBelow 2 swapped
two_below = (omega arith, (omega arith, tt))

two-Distinct : Distinct swapped
two-Distinct = ((λ p. omega (arith, p), tt), (tt, tt))

populate_field-populate_data_vec_example :
    ComesBack grid_view six (pressure 3) (blank 3) swapped false
populate_field-populate_data_vec_example =
    populate_field-populate_data_vec grid_view six (pressure 3) (blank 3) swapped false
      (omega arith) refl (omega arith) two_below two-Distinct (omega arith) refl

populate_field-copy_surface_level_example :
    ComesBackFilled grid_view whole_column (pressure 70) (blank 71) (blank 70) swapped
populate_field-copy_surface_level_example =
    populate_field-copy_surface_level grid_view whole_column (pressure 70) (blank 71) (blank 70)
      swapped (omega (arith, whole_column_size)) (sym whole_column_size) two_below two-Distinct
      (omega arith) (omega arith) (omega arith) refl refl refl

populate_field-Copies_example : Populates grid_view six swapped false false (blank 3)
populate_field-Copies_example =
    populate_field-Copies grid_view six swapped false false (blank 3) (omega arith) two_below
      (omega arith) (omega arith) refl

populate_field_short_example :
    populate_field grid_view six swapped false false (blank 4) ≡ err (data_index "pressure")
populate_field_short_example =
    populate_field_short grid_view six 1 (0 ∷ []) false (blank 4) 3 refl (omega arith) two_below
      (omega arith) (omega arith)

populate_data_vec-Written_example : Fills grid_view six (pressure 3) swapped
populate_data_vec-Written_example =
    populate_data_vec-Written grid_view six (pressure 3) swapped (omega arith) refl (omega arith)
      two_below two-Distinct

copy_surface_level-CopiedLevels_example : HasSurfaceTwice grid_view (pressure 3) (blank 4)
copy_surface_level-CopiedLevels_example =
    copy_surface_level-CopiedLevels grid_view (pressure 3) (blank 4) (omega arith) refl
      (omega arith)

populate_data_vec_by_shape-Written_example : FillsByShape grid_view six (pressure 3) 2 3
populate_data_vec_by_shape-Written_example =
    populate_data_vec_by_shape-Written grid_view six (pressure 3) 2 3 (omega arith) (omega arith)
      (omega arith) (omega arith)
