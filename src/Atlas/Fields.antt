-- ===== src/Atlas/Fields.antt =====
-- What the code uses of an Atlas field as a whole: its name, shape and type of values, whether it is
-- global, the ghost flags of its function space, the making of a field in that space, and one array
-- view for each type of values that the code handles. A parameter of the model, as the views are.
use monio.Base.{ℕ, String, ◌≡◌, ◌≢◌, true, Bool, List, ℤ}
use monio.Result.{Result, ok, err, view_type}
use monio.Values.{Double, Float}
use monio.Atlas.{ArrayView}

-- atlas::array::DataType::kind()
pub data Kind : Type 0 where
  kind_int32 kind_real32 kind_real64 kind_other : Kind

pub record FieldLibrary (F : Type 0) : Type 0 where
  pub name : F → String
  -- field.metadata().set("name", ...)
  pub set_name : F → String → F
  pub kind : F → Kind
  -- field.shape(), horizontal and vertical
  pub columns : F → ℕ
  pub levels : F → ℕ
  -- field.metadata().get<bool>("global")
  pub is_global : F → Bool
  -- the view of field.functionspace().ghost()
  pub ghost : F → List ℤ
  -- field.functionspace().createField with a name, a number of levels and global(0), of the type of
  -- values of the field
  pub create : F → String → ℕ → F
  -- array::make_view of a field, for a type of values
  pub make_view : Kind → F → Result (Unit {0})
  pub doubles : ArrayView F Double
  pub floats : ArrayView F Float
  pub ints : ArrayView F ℤ
  pub columns-doubles : (f : F) → doubles.columns f ≡ columns f
  pub columns-floats : (f : F) → floats.columns f ≡ columns f
  pub columns-ints : (f : F) → ints.columns f ≡ columns f
  pub levels-doubles : (f : F) → doubles.levels f ≡ levels f
  pub levels-floats : (f : F) → floats.levels f ≡ levels f
  pub levels-ints : (f : F) → ints.levels f ≡ levels f
  pub columns-create :
      (f : F) (n : String) (l : ℕ) → is_global f ≡ true → columns (create f n l) ≡ columns f
  -- Atlas throws where the type is not that of the field.
  pub make_view-eq : (k : Kind) (f : F) → kind f ≡ k → make_view k f ≡ ok tt
  pub make_view_other : (k : Kind) (f : F) → kind f ≢ k → make_view k f ≡ err view_type
  pub kind-create : (f : F) (n : String) (l : ℕ) → kind (create f n l) ≡ kind f
  pub levels-create : (f : F) (n : String) (l : ℕ) → levels (create f n l) ≡ l
