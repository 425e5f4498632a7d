-- ===== src/AtlasReader.antt =====
-- src/monio/AtlasReader.cc: from the data of a file to a field.
pub mod Columns
pub mod Levels
pub mod Populate
pub mod Files
pub mod Dropped
use monio.Base.{
  ℕ, zero, suc, ◌+◌, ◌-◌, ◌*◌, ◌%◌, ◌^◌, String, Bool, true, false, ◌&&◌, List, [], ◌∷◌, Option,
  none, some, length, get_elem?, if◌then◌else◌, ◌==◌, nat_eq, leb, to_int32, to_size,
}
use monio.Result.{Result, ok, err, ◌>>=◌, field_levels, data_index, undefined_access}
use monio.Constants.{vertical_full_size, vertical_half_size}
use monio.Atlas.{ArrayView, view_set}

-- int index = lfricToAtlasMap[i] + (j * lfricToAtlasMap.size()), then std::size_t(index).
unfoldable pub cell_index : ℕ → ℕ → ℕ → ℕ
cell_index size entry j = to_size (to_int32 ((entry + j * size) % 2 ^ 64))

module _ {F V : Type 0} (view : ArrayView F V) where
  -- One value, behind the code's bounds check. The check lets the index be the size.
  unfoldable pub checked_datum : List V → ℕ → String → Result V
  checked_datum data_vec index name =
      if leb index (length data_vec)
      then elim (get_elem? data_vec index) [ none ↦ err undefined_access | some v ↦ ok v ]
      else err (data_index name)

  -- The inner loop: from column `i`, the entries of the map that are left, at level `j` of the data
  -- and level `out` of the field.
  pub read_columns : List V → ℕ → ℕ → ℕ → ℕ → List ℕ → F → Result F
  read_columns data_vec size j out i [] f = ok f
  read_columns data_vec size j out i (entry ∷ entries) f = do
    v ← checked_datum data_vec (cell_index size entry j) (view.name f)
    g ← view_set view f i out v
    read_columns data_vec size j out (suc i) entries g

  -- The outer loop: `count` levels of the data from `j`, each `first` levels lower in the field.
  pub read_levels : List V → List ℕ → ℕ → ℕ → ℕ → F → Result F
  read_levels data_vec map first j zero f = ok f
  read_levels data_vec map first j (suc count) f =
      read_columns data_vec (length map) j (j - first) 0 map f >>= λ g.
      read_levels data_vec map first (suc j) count g

  -- populateField with the map from LFRic to Atlas order.
  unfoldable pub populate_field : List V → List ℕ → Bool → Bool → F → Result F
  unfolding read_levels read_columns checked_datum
  populate_field data_vec map no_first_level is_lfric_convention f =
      let num_levels = view.levels f in
      if no_first_level && num_levels == vertical_full_size
      then err field_levels
      else if is_lfric_convention && no_first_level && num_levels == vertical_half_size
      then read_levels data_vec map 1 1 (vertical_full_size - 1) f
      else read_levels data_vec map 0 0 num_levels f
