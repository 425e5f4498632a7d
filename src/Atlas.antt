-- ===== src/Atlas.antt =====
-- What the code uses of the Atlas library: the shape and the name of a field, and a view of its
-- values as a two-dimensional array, column by level. Atlas is a parameter of the model; the laws
-- are those of an array. An access outside the array is undefined, as it is in Atlas.
pub mod Model
pub mod Access
pub mod Fields
pub mod Typed
use monio.Base.{ℕ, String, ◌≡◌, ◌<◌, Bool, ◌&&◌, if◌then◌else◌, ◌==◌, nat_eq, ltb}
use monio.Result.{Result, ok, err, undefined_access}

-- A field with values of a type `V`: field.name(), field.shape() and make_view<V, 2>(field).
pub record ArrayView (F V : Type 0) : Type 0 where
  pub name : F → String
  pub columns : F → ℕ
  pub levels : F → ℕ
  pub read : F → ℕ → ℕ → V
  pub write : F → ℕ → ℕ → V → F
  pub name-write : (f : F) (i j : ℕ) (v : V) → name (write f i j v) ≡ name f
  pub columns-write : (f : F) (i j : ℕ) (v : V) → columns (write f i j v) ≡ columns f
  pub levels-write : (f : F) (i j : ℕ) (v : V) → levels (write f i j v) ≡ levels f
  pub read-write :
      (f : F) (i j k l : ℕ) (v : V)
      → i < columns f
      → j < levels f
      → read (write f i j v) k l ≡ (if i == k && j == l then v else read f k l)

module _ {F V : Type 0} (view : ArrayView F V) where
  abbrev pub in_view : F → ℕ → ℕ → Bool
  in_view f i j = ltb i (view.columns f) && ltb j (view.levels f)

  -- fieldView(i, j)
  abbrev pub view_get : F → ℕ → ℕ → Result V
  view_get f i j = if in_view f i j then ok (view.read f i j) else err undefined_access

  -- fieldView(i, j) = v
  abbrev pub view_set : F → ℕ → ℕ → V → Result F
  view_set f i j v = if in_view f i j then ok (view.write f i j v) else err undefined_access
