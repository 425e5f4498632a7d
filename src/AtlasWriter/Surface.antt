-- ===== src/AtlasWriter/Surface.antt =====
-- copySurfaceLevel: one more level, with the zeroth twice.
use monio.Base.{
  ℕ, zero, suc, ◌+◌, ◌≤◌, ◌<◌, ◌≡◌, refl, ◌∙◌, ◌≢◌, false, ◌&&◌, ◌==◌, nat_eq, ==_iff, ==_self,
  arith, Bool-cases, inl, inr, ◌⊎◌,
}
use monio.Result.{ok}
use monio.Atlas.{ArrayView}
use monio.AtlasWriter.{copy_columns, copy_levels, copy_surface_level}
use monio.Atlas.Access.{view_get-eq, view_set-eq}

module _ {F V : Type 0} (view : ArrayView F V) where
  pub record SameShape (before after : F) : Type 0 where
    pub columns : view.columns after ≡ view.columns before
    pub levels : view.levels after ≡ view.levels before

  pub record CopiedRow (input : F) (j out i count : ℕ) (before after : F) : Type 0 where
    pub shape : SameShape before after
    pub hit : (k : ℕ) → i ≤ k → k < i + count → view.read after k out ≡ view.read input k j
    pub miss : (k l : ℕ) → (l ≢ out) ⊎ (k < i) → view.read after k l ≡ view.read before k l

  copy_columns-CopiedRow :
      (input : F) (j out i count : ℕ) (copied : F)
      → j < view.levels input
      → i + count ≤ view.columns input
      → out < view.levels copied
      → i + count ≤ view.columns copied
      → (after : F) × (copy_columns view input j out i count copied ≡ ok after)
        × CopiedRow input j out i count copied after
  unfolding copy_columns
  copy_columns-CopiedRow input j out i zero copied hj hi ho hc = (
    copied,
    refl,
    record {
      shape = record { columns = refl; levels = refl };
      hit = λ k a b. absurd (omega arith);
      miss = λ k l h. refl;
    },
  )
  copy_columns-CopiedRow input j out i (suc count) copied hj hi ho hc =
      let v = view.read input i j in
      let written = view.write copied i out v in
      let wide = view.columns-write copied i out v in
      let high = view.levels-write copied i out v in
      let new = λ (k l : ℕ). view.read-write copied i out k l v (omega arith) ho in
      let (after, r, c) =
        copy_columns-CopiedRow input j out (suc i) count written hj (omega arith) (omega arith)
          (omega arith) in
      (
        after,
        rw
            (
              view_get-eq view input i j (omega arith) hj,
              view_set-eq view copied i out v (omega arith) ho,
            )
            r,
        record {
          shape = record { columns = c.shape.columns ∙ wide; levels = c.shape.levels ∙ high };
          hit = λ k a b. elim (Bool-cases (k == i)) [
            | inl here ↦
                let at_k : k ≡ i = (==_iff k i).0 here in
                rw at_k
                  (c.miss i out (inr (omega arith)) ∙ new i out ∙ (rw (==_self i, ==_self out)))
            | inr later ↦ c.hit k (ground arith) (omega arith)
          ];
          miss = λ k l h.
              let apart : (i == k && out == l) ≡ false = ground arith in
              c.miss k l (omega arith) ∙ new k l ∙ (rw apart);
        },
      )

  pub record CopiedLevels (input : F) (j count : ℕ) (before after : F) : Type 0 where
    pub shape : SameShape before after
    pub hit :
        (k l : ℕ)
        → k < view.columns input
        → j ≤ l
        → l < j + count
        → view.read after k (suc l) ≡ view.read input k l
    pub miss : (k l : ℕ) → l ≤ j → view.read after k l ≡ view.read before k l

  copy_levels-CopiedLevels :
      (input : F) (j count : ℕ) (copied : F)
      → j + count ≤ view.levels input
      → j + count < view.levels copied
      → view.columns input ≤ view.columns copied
      → (after : F) × (copy_levels view input j count copied ≡ ok after)
        × CopiedLevels input j count copied after
  unfolding copy_levels
  copy_levels-CopiedLevels input j zero copied hj ho hc = (
    copied,
    refl,
    record {
      shape = record { columns = refl; levels = refl };
      hit = λ k l h a b. absurd (omega arith);
      miss = λ k l h. refl;
    },
  )
  copy_levels-CopiedLevels input j (suc count) copied hj ho hc =
      let (row, r, c) =
        copy_columns-CopiedRow input j (suc j) 0 (view.columns input) copied (omega arith)
          (omega arith) (omega arith) (omega arith) in
      let s = c.shape in
      let (after, q, d) =
        copy_levels-CopiedLevels input (suc j) count row (omega arith) (omega (arith, s.levels))
          (omega (arith, s.columns)) in
      (
        after,
        rw r q,
        record {
          shape = record {
            columns = d.shape.columns ∙ s.columns;
            levels = d.shape.levels ∙ s.levels;
          };
          hit = λ k l h a b. elim (Bool-cases (l == j)) [
            | inl here ↦
                let at_l : l ≡ j = (==_iff l j).0 here in
                rw at_l (d.miss k (suc j) (omega arith) ∙ c.hit k (omega arith) (omega arith))
            | inr later ↦ d.hit k l h (ground arith) (omega arith)
          ];
          miss = λ k l h. d.miss k l (omega arith) ∙ c.miss k l (inl (omega arith));
        },
      )

  abbrev pub HasSurfaceTwice : F → F → Type 0
  HasSurfaceTwice input created =
      (copied : F) × (copy_surface_level view input created ≡ ok copied)
      × (view.columns copied ≡ view.columns created)
      × (view.levels copied ≡ view.levels created)
      × ((k : ℕ) → k < view.columns input → view.read copied k 0 ≡ view.read input k 0)
      × ((k l : ℕ)
          → k < view.columns input
          → l < view.levels input
          → view.read copied k (suc l) ≡ view.read input k l)

  -- For a created field with one level more and at least as many columns, the copy holds the zeroth
  -- level of the input at its levels 0 and 1, and every level of the input one level higher.
  pub copy_surface_level-CopiedLevels :
      (input created : F)
      → 0 < view.levels input
      → view.levels created ≡ view.levels input + 1
      → view.columns input ≤ view.columns created
      → HasSurfaceTwice input created
  unfolding copy_surface_level
  copy_surface_level-CopiedLevels input created some_level levels columns =
      let (middle, r, c) =
        copy_levels-CopiedLevels input 0 (view.levels input) created (omega arith) (omega arith)
          columns in
      let s = c.shape in
      let (after, q, d) =
        copy_columns-CopiedRow input 0 0 0 (view.columns input) middle some_level (omega arith)
          (omega (arith, s.levels)) (omega (arith, s.columns)) in
      (
        after,
        rw r q,
        d.shape.columns ∙ s.columns,
        d.shape.levels ∙ s.levels,
        (λ k h. d.hit k (omega arith) (omega arith)),
        (λ k l h g. d.miss k (suc l) (inl (omega arith)) ∙ c.hit k l h (omega arith) (omega arith)),
      )
