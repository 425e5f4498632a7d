-- ===== src/UtilsAtlas/Comparison.antt =====
-- compareFields and compareFieldSets of src/monio/UtilsAtlas.cc.
use monio.Base.{
  ℕ, zero, suc, ◌+◌, ◌<◌, ◌≤◌, ◌≡◌, ◌↔◌, refl, subst, ◌∙◌, Bool, true, false, arith, ◌==◌, nat_eq,
  ==_iff, String, List, [], ◌∷◌, Bool-cases, inl, inr, not, if◌then◌else◌,
}
use monio.Result.{Result, ok}
use monio.Values.{double_eq}
use monio.Atlas.Access.{view_get-eq}
use monio.Atlas.Fields.{FieldLibrary, kind_real64}
use monio.UtilsAtlas.{same_columns, same_levels, compare_fields, compare_field_sets}

-- The result is true exactly where the statement holds.
abbrev pub Decides : Result Bool → Type 0 → Type 0
Decides result P = (answer : Bool) × (result ≡ ok answer) × ((answer ≡ true) ↔ P)

module _ {F : Type 0} (atlas : FieldLibrary F) (a b : F) where
  abbrev pub SameValue : ℕ → ℕ → Type 0
  SameValue i j = double_eq (atlas.doubles.read a i j) (atlas.doubles.read b i j) ≡ true

  -- Every value of `a`, in the columns and levels it has, is equal to that of `b` as a double.
  abbrev pub SameValues : Type 0
  SameValues = (i j : ℕ) → i < atlas.columns a → j < atlas.levels a → SameValue i j

  module _ (wide : atlas.columns a ≤ atlas.columns b) (high : atlas.levels a ≤ atlas.levels b) where
    same_columns-suc :
        (j i count : ℕ)
        → i < atlas.columns a
        → j < atlas.levels a
        → same_columns atlas a b j i (suc count) ≡ (
            if not (double_eq (atlas.doubles.read a i j) (atlas.doubles.read b i j))
            then ok false
            else same_columns atlas a b j (suc i) count)
    unfolding same_columns
    same_columns-suc j i count h k =
        let left =
          view_get-eq atlas.doubles a i j (omega (arith, atlas.columns-doubles a))
            (omega (arith, atlas.levels-doubles a)) in
        let right =
          view_get-eq atlas.doubles b i j (omega (arith, atlas.columns-doubles b))
            (omega (arith, atlas.levels-doubles b)) in
        rw (left, right)

    same_columns-Decides :
        (j i count : ℕ)
        → i + count ≤ atlas.columns a
        → j < atlas.levels a
        → Decides
            (same_columns atlas a b j i count)
            ((k : ℕ) → i ≤ k → k < i + count → SameValue k j)
    same_columns-Decides j i zero h l =
        (true, unfold same_columns in refl, ((λ p k from below. absurd (omega arith)), (λ f. refl)))
    same_columns-Decides j i (suc count) h l =
        let (answer, result, (only, if_all)) =
          same_columns-Decides j (suc i) count (omega arith) l in
        let step = same_columns-suc j i count (omega arith) l in
        elim (Bool-cases (double_eq (atlas.doubles.read a i j) (atlas.doubles.read b i j))) [
          | inl same ↦ (
            answer,
            step ∙ (rw same result),
            (
              (λ p k from below. elim (Bool-cases (i == k)) [
                | inl here ↦ subst (λ x. SameValue x j) ((==_iff i k).0 here) same
                | inr past ↦ only p k (ground (arith, ==_iff i k)) (omega arith)
              ]),
              (λ f. if_all (λ k from below. f k (omega arith) (omega arith))),
            ),
          )
          | inr differ ↦ (
            false,
            step ∙ (rw differ),
            ((λ p. absurd cc), (λ f. let same = f i (omega arith) (omega arith) in absurd cc)),
          )
        ]

    same_levels-suc :
        (j count : ℕ) (level answer : Bool)
        → same_columns atlas a b j 0 (atlas.columns a) ≡ ok level
        → same_levels atlas a b (suc j) count ≡ ok answer
        → same_levels atlas a b j (suc count) ≡ ok (if level then answer else false)
    unfolding same_levels
    same_levels-suc j count true answer p q = rw (p, q)
    same_levels-suc j count false answer p q = rw p

    same_levels-Decides :
        (j count : ℕ)
        → j + count ≤ atlas.levels a
        → Decides
            (same_levels atlas a b j count)
            ((i k : ℕ) → i < atlas.columns a → j ≤ k → k < j + count → SameValue i k)
    same_levels-Decides j zero h = (
      true,
      unfold same_levels in refl,
      ((λ p i k inside from below. absurd (omega arith)), (λ f. refl)),
    )
    same_levels-Decides j (suc count) h =
        let (answer, result, (only, if_all)) = same_levels-Decides (suc j) count (omega arith) in
        let (level, result', (only', if_all')) =
          same_columns-Decides j 0 (atlas.columns a) (omega arith) (omega arith) in
        elim (Bool-cases level) [
          | inl same ↦ (
            answer,
            same_levels-suc j count level answer result' result ∙ (rw same),
            (
              (λ p i k inside from below. elim (Bool-cases (j == k)) [
                | inl here ↦
                    subst (λ x. SameValue i x) ((==_iff j k).0 here)
                      (only' same i (omega arith) (omega arith))
                | inr past ↦ only p i k inside (ground (arith, ==_iff j k)) (omega arith)
              ]),
              (λ f. if_all (λ i k inside from below. f i k inside (omega arith) (omega arith))),
            ),
          )
          | inr differ ↦ (
            false,
            same_levels-suc j count level answer result' result ∙ (rw differ),
            (
              (λ p. absurd cc),
              (λ f.
                  let all =
                    if_all' (λ i from below. f i j (omega arith) (omega arith) (omega arith)) in
                  absurd cc),
            ),
          )
        ]

    pub compare_fields-Decides :
        atlas.kind a ≡ kind_real64
        → atlas.kind b ≡ kind_real64
        → Decides (compare_fields atlas a b) SameValues
    unfolding compare_fields
    compare_fields-Decides left right =
        let (answer, result, (only, if_all)) =
          same_levels-Decides 0 (atlas.levels a) (omega arith) in
        (
          answer,
          rw (atlas.make_view-eq kind_real64 a left, atlas.make_view-eq kind_real64 b right) result,
          (
            (λ p i j inside below. only p i j inside (omega arith) (omega arith)),
            (λ f. if_all (λ i k inside from below. f i k inside (omega arith))),
          ),
        )

module _ {F : Type 0} (atlas : FieldLibrary F) (field_of : String → Result F) where
  -- Each is a field of doubles, and the second set has one of its name that is at least as wide and
  -- as high.
  abbrev pub Covers : List F → Type 0
  Covers [] = Unit {0}
  Covers (a ∷ fields) =
      ((b : F) × (field_of (atlas.name a) ≡ ok b)
        × (atlas.kind a ≡ kind_real64)
        × (atlas.kind b ≡ kind_real64)
        × (atlas.columns a ≤ atlas.columns b)
        × (atlas.levels a ≤ atlas.levels b))
      × Covers fields

  -- Each field has the values of the field of its name in the second set.
  abbrev pub Agree : List F → Type 0
  Agree [] = Unit {0}
  Agree (a ∷ fields) =
      ((b : F) → field_of (atlas.name a) ≡ ok b → SameValues atlas a b) × Agree fields

  compare_field_sets-cons :
      (a b : F) (fields : List F) (same answer : Bool)
      → field_of (atlas.name a) ≡ ok b
      → compare_fields atlas a b ≡ ok same
      → compare_field_sets atlas field_of fields ≡ ok answer
      → compare_field_sets atlas field_of (a ∷ fields) ≡ ok (if same then answer else false)
  unfolding compare_field_sets
  compare_field_sets-cons a b fields true answer found p q = rw (found, p, q)
  compare_field_sets-cons a b fields false answer found p q = rw (found, p)

  -- Where the fields of the first set are of doubles and the second has a field of doubles of the name
  -- of each, at least as wide and as high, compareFieldSets reads outside none of them, and it answers true exactly where each value
  -- of each field is equal, as a double, to that of the field of its name.
  pub compare_field_sets-Decides :
      (fields : List F)
      → Covers fields
      → Decides (compare_field_sets atlas field_of fields) (Agree fields)
  compare_field_sets-Decides [] h =
      (true, unfold compare_field_sets in refl, ((λ p. tt), (λ f. refl)))
  compare_field_sets-Decides (a ∷ fields) h =
      let ((b, found, left, right, wide, high), rest) = h in
      let (answer, result, (only, if_all)) = compare_field_sets-Decides fields rest in
      let (same, result', (only', if_all')) =
        compare_fields-Decides atlas a b wide high left right in
      let step = compare_field_sets-cons a b fields same answer found result' result in
      elim (Bool-cases same) [
        | inl equal ↦ (
          answer,
          step ∙ (rw equal),
          (
            (λ p. (
              (λ c found'. let one : b ≡ c = cc in subst (SameValues atlas a) one (only' equal)),
              only p,
            )),
            (λ f. if_all f.1),
          ),
        )
        | inr differ ↦ (
          false,
          step ∙ (rw differ),
          ((λ p. absurd cc), (λ f. let all = if_all' (f.0 b found) in absurd cc)),
        )
      ]
