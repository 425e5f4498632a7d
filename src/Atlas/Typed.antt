-- ===== src/Atlas/Typed.antt =====
-- Fields with values of every type: a field type that meets the laws of `FieldLibrary`.
use monio.Base.{
  ℕ, String, ◌≡◌, ◌≢◌, refl, ap, subst, sym, Bool, true, List, ℤ, ◌&&◌, if◌then◌else◌, ◌==◌, nat_eq,
}
use monio.Values.{Double, Float}
use monio.Atlas.{ArrayView}
use monio.Atlas.Fields.{FieldLibrary, Kind, kind_int32, kind_real32, kind_real64, kind_other}
use monio.Result.{Result, ok, err, view_type}

pub record TypedGrid : Type 0 where
  pub label : String
  pub kind : Kind
  pub global : Bool
  pub width : ℕ
  pub height : ℕ
  pub ghost : List ℤ
  pub double_cell : ℕ → ℕ → Double
  pub float_cell : ℕ → ℕ → Float
  pub int_cell : ℕ → ℕ → ℤ

abbrev pub made : Kind → Kind → Result (Unit {0})
made kind_int32 kind_int32 = ok tt
made kind_real32 kind_real32 = ok tt
made kind_real64 kind_real64 = ok tt
made kind_other kind_other = ok tt
made _ _ = err view_type

pub made_self : (k : Kind) → made k k ≡ ok tt
made_self kind_int32 = refl
made_self kind_real32 = refl
made_self kind_real64 = refl
made_self kind_other = refl

pub made_other : (k l : Kind) → l ≢ k → made k l ≡ err view_type
made_other kind_int32 kind_int32 h = absurd (h refl)
made_other kind_real32 kind_real32 h = absurd (h refl)
made_other kind_real64 kind_real64 h = absurd (h refl)
made_other kind_other kind_other h = absurd (h refl)
made_other _ _ h = refl

abbrev updated : {V : Type 0} → (ℕ → ℕ → V) → ℕ → ℕ → V → ℕ → ℕ → V
updated cell i j v k l = if i == k && j == l then v else cell k l

abbrev typed_view :
    {V : Type 0} (cell : TypedGrid → ℕ → ℕ → V) (put : TypedGrid → (ℕ → ℕ → V) → TypedGrid)
    → ((f : TypedGrid) (c : ℕ → ℕ → V) → (put f c).label ≡ f.label)
    → ((f : TypedGrid) (c : ℕ → ℕ → V) → (put f c).width ≡ f.width)
    → ((f : TypedGrid) (c : ℕ → ℕ → V) → (put f c).height ≡ f.height)
    → ((f : TypedGrid) (c : ℕ → ℕ → V) → cell (put f c) ≡ c)
    → ArrayView TypedGrid V
typed_view cell put same_label same_width same_height same_cell = record {
  name = λ f. f.label;
  columns = λ f. f.width;
  levels = λ f. f.height;
  read = cell;
  write = λ f i j v. put f (updated (cell f) i j v);
  name-write = λ f i j v. same_label f _;
  columns-write = λ f i j v. same_width f _;
  levels-write = λ f i j v. same_height f _;
  read-write =
      λ f i j k l v _ _. ap (λ (c : ℕ → ℕ → _). c k l) (same_cell f (updated (cell f) i j v));
}

abbrev pub typed_library : FieldLibrary TypedGrid
typed_library = record {
  name = λ f. f.label;
  set_name = λ f n. record f { label = n };
  kind = λ f. f.kind;
  columns = λ f. f.width;
  levels = λ f. f.height;
  is_global = λ f. f.global;
  ghost = λ f. f.ghost;
  create = λ f n l. record f { label = n; height = l; global = true };
  doubles =
      typed_view (λ f. f.double_cell) (λ f c. record f { double_cell = c }) (λ f c. refl)
        (λ f c. refl) (λ f c. refl) (λ f c. refl);
  floats =
      typed_view (λ f. f.float_cell) (λ f c. record f { float_cell = c }) (λ f c. refl)
        (λ f c. refl) (λ f c. refl) (λ f c. refl);
  ints =
      typed_view (λ f. f.int_cell) (λ f c. record f { int_cell = c }) (λ f c. refl) (λ f c. refl)
        (λ f c. refl) (λ f c. refl);
  columns-doubles = λ f. refl;
  columns-floats = λ f. refl;
  columns-ints = λ f. refl;
  levels-doubles = λ f. refl;
  levels-floats = λ f. refl;
  levels-ints = λ f. refl;
  columns-create = λ f n l g. refl;
  make_view = λ k f. made k f.kind;
  make_view-eq = λ k f p. subst (λ l. made k l ≡ ok tt) (sym p) (made_self k);
  make_view_other = λ k f h. made_other k f.kind h;
  kind-create = λ f n l. refl;
  levels-create = λ f n l. refl;
}
