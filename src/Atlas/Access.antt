-- ===== src/Atlas/Access.antt =====
-- Accesses inside the array succeed.
use monio.Base.{ℕ, ◌<◌, ◌≡◌, lt→ltb}
use monio.Result.{ok}
use monio.Atlas.{ArrayView, view_get, view_set}

module _ {F V : Type 0} (view : ArrayView F V) (f : F) (i j : ℕ) where
  pub view_get-eq :
      i < view.columns f → j < view.levels f → view_get view f i j ≡ ok (view.read f i j)
  view_get-eq h k = rw (lt→ltb i (view.columns f) h, lt→ltb j (view.levels f) k)

  pub view_set-eq :
      (v : V)
      → i < view.columns f
      → j < view.levels f
      → view_set view f i j v ≡ ok (view.write f i j v)
  view_set-eq v h k = rw (lt→ltb i (view.columns f) h, lt→ltb j (view.levels f) k)
