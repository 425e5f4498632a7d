-- ===== src/AtlasWriter.antt =====
-- src/monio/AtlasWriter.cc: from a field to the data of a file.
pub mod Vector
pub mod Columns
pub mod Surface
pub mod Metadata
pub mod Files
pub mod Plain
pub mod Shape
pub mod Counted
pub mod Convention
pub mod Dimensions
use monio.Base.{
  ℕ, zero, suc, ◌+◌, ◌*◌, ◌%◌, ◌^◌, Bool, true, false, ◌&&◌, List, [], ◌∷◌, length, set, not,
  if◌then◌else◌, ltb, ◌==◌, nat_eq, to_int32, to_size,
}
use monio.Result.{Result, ok, err, ◌>>=◌, data_container_size, undefined_access}
use monio.Atlas.{ArrayView, view_get, view_set}
use monio.AtlasReader.{cell_index}

-- dataVec[index] = v, without a check.
unfoldable pub store {ℓ} : {A : Type ℓ} → List A → ℕ → A → Result (List A)
store data_vec index v =
    if ltb index (length data_vec) then ok (set data_vec index v) else err undefined_access

module _ {F V : Type 0} (view : ArrayView F V) where
  -- The inner loop: `count` levels of column `i` from level `j`.
  pub write_levels : F → ℕ → ℕ → ℕ → ℕ → ℕ → List V → Result (List V)
  write_levels f size entry i j zero data_vec = ok data_vec
  write_levels f size entry i j (suc count) data_vec = do
    v ← view_get view f i j
    stored ← store data_vec (cell_index size entry j) v
    write_levels f size entry i (suc j) count stored

  -- The outer loop, from column `i` with the entries of the map that are left.
  pub write_columns : F → ℕ → ℕ → ℕ → List ℕ → List V → Result (List V)
  write_columns f size levels i [] data_vec = ok data_vec
  write_columns f size levels i (entry ∷ entries) data_vec =
      write_levels f size entry i 0 levels data_vec >>= λ written.
      write_columns f size levels (suc i) entries written

  -- populateDataVec with the map from LFRic to Atlas order.
  unfoldable pub populate_data_vec : List V → F → List ℕ → Result (List V)
  unfolding write_columns write_levels store
  populate_data_vec data_vec f map =
      let num_levels = view.levels f in
      if not ((length map * num_levels) % 2 ^ 64 == length data_vec)
      then err data_container_size
      else write_columns f (length map) num_levels 0 map data_vec

  -- One level of copySurfaceLevel: `count` columns from column `i`, from level `j` of the input to
  -- level `out` of the copy.
  pub copy_columns : F → ℕ → ℕ → ℕ → ℕ → F → Result F
  copy_columns input j out i zero copied = ok copied
  copy_columns input j out i (suc count) copied = do
    v ← view_get view input i j
    written ← view_set view copied i out v
    copy_columns input j out (suc i) count written

  -- Each level from `j` on, one level higher in the copy.
  pub copy_levels : F → ℕ → ℕ → F → Result F
  copy_levels input j zero copied = ok copied
  copy_levels input j (suc count) copied =
      copy_columns input j (suc j) 0 (view.columns input) copied >>= λ written.
      copy_levels input (suc j) count written

  -- copySurfaceLevel, into the field that createField made.
  unfoldable pub copy_surface_level : F → F → Result F
  unfolding copy_levels copy_columns
  copy_surface_level input created = do
    copied ← copy_levels input 0 (view.levels input) created
    copy_columns input 0 0 0 (view.columns input) copied
