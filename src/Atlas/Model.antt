-- ===== src/Atlas/Model.antt =====
-- Fields as functions: a field type that meets the laws of `ArrayView`.
use monio.Base.{ℕ, String, refl, ◌&&◌, if◌then◌else◌, ◌==◌, nat_eq}
use monio.Atlas.{ArrayView}

pub record Grid (V : Type 0) : Type 0 where
  pub label : String
  pub width : ℕ
  pub height : ℕ
  pub cell : ℕ → ℕ → V

abbrev pub grid_view : {V : Type 0} → ArrayView (Grid V) V
grid_view = record {
  name = λ f. f.label;
  columns = λ f. f.width;
  levels = λ f. f.height;
  read = λ f. f.cell;
  write = λ f i j v. record f { cell = λ k l. if i == k && j == l then v else f.cell k l };
  name-write = λ f i j v. refl;
  columns-write = λ f i j v. refl;
  levels-write = λ f i j v. refl;
  read-write = λ f i j k l v _ _. refl;
}
