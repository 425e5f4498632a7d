-- ===== src/AtlasReader/Levels.antt =====
-- The loops of populateField as a whole, level by level.
use monio.Base.{
  ℕ, zero, suc, ◌+◌, ◌-◌, ◌^◌, ◌≤◌, ◌<◌, ◌≡◌, refl, ap, sym, ◌∙◌, Bool, false, ◌&&◌, List, Option,
  none, some, length, get_elem?, if◌then◌else◌, ◌==◌, nat_eq, ==_iff, ==_self, leb, ltb, le→leb,
  lt→ltb, arith, Bool-cases, inl, inr,
}
use monio.Result.{ok}
use monio.Atlas.{ArrayView}
use monio.AtlasReader.{read_levels}
use monio.AtlasReader.Columns.{
  Cell, Copies, place, column_source, Fits, Cell-untouched, read_columns-Copies,
}

-- What `count` levels from `j` on read, each `first` levels lower in the field.
abbrev pub level_source : ℕ → ℕ → ℕ → ℕ → List ℕ → ℕ → ℕ → Option ℕ
level_source size first j count entries k l =
    if leb j (l + first) && ltb (l + first) (j + count)
    then place size (l + first) (get_elem? entries k)
    else none

module _ {F V : Type 0} (view : ArrayView F V) (data_vec : List V) where
  level_source_step :
      (size first j count k l : ℕ) (entries : List ℕ)
      → first ≤ j
      → (l == (j - first)) ≡ false
      → (column_source size j (j - first) 0 entries k l ≡ none)
        × (level_source size first j (suc count) entries k l
            ≡ level_source size first (suc j) count entries k l)
  level_source_step size first j count k l entries h other =
      let same : (leb j (l + first) && ltb (l + first) (j + suc count))
          ≡ (leb (suc j) (l + first) && ltb (l + first) (suc j + count)) =
        ground arith in
      (
        rw other,
        ap (λ (b : Bool). if b then place size (l + first) (get_elem? entries k) else none) same,
      )

  level_source_here :
      (size first j count k : ℕ) (entries : List ℕ)
      → first ≤ j
      → (level_source size first j (suc count) entries k (j - first)
          ≡ column_source size j (j - first) 0 entries k (j - first))
        × (level_source size first (suc j) count entries k (j - first) ≡ none)
  level_source_here size first j count k entries h =
      let back : j - first + first ≡ j = omega arith in
      let whole : k - 0 ≡ k = omega arith in
      let past : leb (suc j) j ≡ false = ground arith in
      (
        rw (
          back,
          le→leb j j (omega arith),
          lt→ltb j (j + suc count) (omega arith),
          ==_self (j - first),
          le→leb 0 k (omega arith),
          whole,
        ),
        rw (back, past),
      )

  Cell-then :
      (f f' g : F) (k l : ℕ) (o : Option ℕ)
      → view.read g k l ≡ view.read f' k l
      → Cell view data_vec f f' k l o
      → Cell view data_vec f g k l o
  Cell-then f f' g k l none e c = e ∙ c
  Cell-then f f' g k l (some p) e c = c ∙ ap some (sym e)

  level-Cell :
      (size first j count k l : ℕ) (entries : List ℕ) (f f' g : F)
      → first ≤ j
      → Cell view data_vec f f' k l (column_source size j (j - first) 0 entries k l)
      → Cell view data_vec f' g k l (level_source size first (suc j) count entries k l)
      → Cell view data_vec f g k l (level_source size first j (suc count) entries k l)
  level-Cell size first j count k l entries f f' g h a b = elim (Bool-cases (l == (j - first))) [
    | inr other ↦
        let (before, after) = level_source_step size first j count k l entries h other in
        let kept : view.read f' k l ≡ view.read f k l = rw before at a in
        rw after (Cell-untouched view data_vec f f' g k l _ kept b)
    | inl here ↦
        let at_l : l ≡ j - first = (==_iff l (j - first)).0 here in
        let (now, later) = level_source_here size first j count k entries h in
        let now' : level_source size first j (suc count) entries k l
            ≡ column_source size j (j - first) 0 entries k l =
          rw at_l now in
        let later' : level_source size first (suc j) count entries k l ≡ none = rw at_l later in
        let last : view.read g k l ≡ view.read f' k l = rw later' at b in
        rw now' (Cell-then f f' g k l _ last a)
  ]

  level_source_nil :
      (size first j k l : ℕ) (entries : List ℕ) → level_source size first j 0 entries k l ≡ none
  level_source_nil size first j k l entries =
      let out : (leb j (l + first) && ltb (l + first) (j + 0)) ≡ false = ground arith in rw out

  -- The whole loop, for a range of levels that the field has.
  pub read_levels-Copies :
      (entries : List ℕ) (first j count : ℕ) (f : F)
      → length data_vec ≤ 2 ^ 31
      → ((l : ℕ) → l < j + count → Fits (length data_vec) (length entries) l entries)
      → length entries ≤ view.columns f
      → first ≤ j
      → j + count ≤ view.levels f + first
      → (g : F) × (read_levels view data_vec entries first j count f ≡ ok g)
        × Copies view data_vec (level_source (length entries) first j count entries) f g
  unfolding read_levels
  read_levels-Copies entries first j zero f small fits hc hf hl = (
    f,
    refl,
    record {
      name = refl;
      columns = refl;
      levels = refl;
      cells = λ k l. rw (level_source_nil (length entries) first j k l entries);
    },
  )
  read_levels-Copies entries first j (suc count) f small fits hc hf hl =
      let (f', r, c) =
        read_columns-Copies view data_vec (length entries) j (j - first) 0 entries f small
          (fits j (omega arith)) (omega arith) (omega arith) in
      let (g, s, d) =
        read_levels-Copies entries first (suc j) count f' small (λ l h. fits l (omega arith))
          (rw c.columns hc) (omega arith) (rw c.levels (omega arith)) in
      (
        g,
        rw r s,
        record {
          name = d.name ∙ c.name;
          columns = d.columns ∙ c.columns;
          levels = d.levels ∙ c.levels;
          cells = λ k l.
              level-Cell (length entries) first j count k l entries f f' g hf (c.cells k l)
                (d.cells k l);
        },
      )
