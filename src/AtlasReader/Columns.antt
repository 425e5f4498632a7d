-- ===== src/AtlasReader/Columns.antt =====
-- The inner loop of populateField, with each cell of the field traced to its place in the data.
use native.Mathlib.Nat.{mod-eq_of_lt}
use monio.Base.{
  ℕ, suc, ◌+◌, ◌-◌, ◌*◌, ◌^◌, ◌≤◌, ◌<◌, String, ◌≡◌, refl, ap, sym, ◌∙◌, true, false, ◌&&◌, List,
  [], ◌∷◌, Option, none, some, length, get_elem?, if◌then◌else◌, ◌==◌, nat_eq, ==_self, leb,
  to_int32, to_size, to_size-to_int32, le→leb, arith, get_elem?_of_lt, Bool-cases, inl, inr,
}
use monio.Result.{ok}
use monio.Atlas.{ArrayView}
use monio.Atlas.Access.{view_set-eq}
use monio.AtlasReader.{cell_index, checked_datum, read_columns}

-- Below 2³¹ the index does not wrap.
pub cell_index-eq :
    (size entry j : ℕ) → entry + j * size < 2 ^ 31 → cell_index size entry j ≡ entry + j * size
unfolding cell_index
cell_index-eq size entry j h =
    let small : entry + j * size < 2 ^ 64 = omega arith in
    ap (λ (n : ℕ). to_size (to_int32 n)) (mod-eq_of_lt small) ∙ to_size-to_int32 _ h

-- Where a cell's value comes from: a place in the data, or the field as it was.
abbrev pub Cell : {F V : Type 0} → ArrayView F V → List V → F → F → ℕ → ℕ → Option ℕ → Type 0
Cell view data_vec f g k l none = view.read g k l ≡ view.read f k l
Cell view data_vec f g k l (some p) = get_elem? data_vec p ≡ some (view.read g k l)

pub record Copies {F V : Type 0} (view : ArrayView F V) (data_vec : List V)
    (source : ℕ → ℕ → Option ℕ) (f g : F) : Type 0 where
  pub name : view.name g ≡ view.name f
  pub columns : view.columns g ≡ view.columns f
  pub levels : view.levels g ≡ view.levels f
  pub cells : (k l : ℕ) → Cell view data_vec f g k l (source k l)

-- The place of a column's entry at level `j`.
abbrev pub place : ℕ → ℕ → Option ℕ → Option ℕ
place size j none = none
place size j (some entry) = some (entry + j * size)

-- What the inner loop reads: at level `out`, from column `i`, the entries in turn.
abbrev pub column_source : ℕ → ℕ → ℕ → ℕ → List ℕ → ℕ → ℕ → Option ℕ
column_source size j out i entries k l =
    if l == out && leb i k then place size j (get_elem? entries (k - i)) else none

abbrev pub Fits : ℕ → ℕ → ℕ → List ℕ → Type 0
Fits total size j [] = Unit {0}
Fits total size j (entry ∷ entries) = (entry + j * size < total) × Fits total size j entries

module _ {F V : Type 0} (view : ArrayView F V) (data_vec : List V) where
  checked_datum-eq :
      (size entry j : ℕ) (name : String) (v : V)
      → length data_vec ≤ 2 ^ 31
      → entry + j * size < length data_vec
      → get_elem? data_vec (entry + j * size) ≡ some v
      → checked_datum view data_vec (cell_index size entry j) name ≡ ok v
  unfolding checked_datum
  checked_datum-eq size entry j name v small h e = rw (
    cell_index-eq size entry j (omega arith),
    le→leb (entry + j * size) (length data_vec) (omega arith),
    e,
  )

  -- All cells but the one at the first entry have the same source before and after it.
  source_step :
      (size entry j out i k l : ℕ) (entries : List ℕ)
      → (l == out && k == i) ≡ false
      → column_source size j out i (entry ∷ entries) k l
        ≡ column_source size j out (suc i) entries k l
  source_step size entry j out i k l entries h = elim (Bool-cases (l == out)) [
    | inr other ↦ rw other
    | inl same ↦ elim (Bool-cases (leb (suc i) k)) [
      | inl later ↦
          let next : k - i ≡ suc (k - suc i) = ground arith in
          let from : leb i k ≡ true = ground arith in rw (same, later, from, next)
      | inr before ↦ let below : leb i k ≡ false = ground arith in rw (same, before, below)
    ]
  ]

  source_here :
      (size entry j out i : ℕ) (entries : List ℕ)
      → (column_source size j out i (entry ∷ entries) i out ≡ some (entry + j * size))
        × (column_source size j out (suc i) entries i out ≡ none)
  source_here size entry j out i entries =
      let zero_off : i - i ≡ 0 = omega arith in
      let past : leb (suc i) i ≡ false = ground arith in
      (rw (==_self out, le→leb i i (omega arith), zero_off), rw (==_self out, past))

  pub Cell-untouched :
      (f f' g : F) (k l : ℕ) (o : Option ℕ)
      → view.read f' k l ≡ view.read f k l
      → Cell view data_vec f' g k l o
      → Cell view data_vec f g k l o
  Cell-untouched f f' g k l none e c = c ∙ e
  Cell-untouched f f' g k l (some p) e c = c

  Cell-step :
      (size entry j out i k l : ℕ) (entries : List ℕ) (v : V) (f g : F)
      → i < view.columns f
      → out < view.levels f
      → get_elem? data_vec (entry + j * size) ≡ some v
      → Cell view data_vec
          (view.write f i out v)
          g
          k
          l
          (column_source size j out (suc i) entries k l)
      → Cell view data_vec f g k l (column_source size j out i (entry ∷ entries) k l)
  Cell-step size entry j out i k l entries v f g hi ho e c =
      let written = view.read-write f i out k l v hi ho in
      elim (Bool-cases (l == out && k == i)) [
        | inr other ↦
            let apart : (i == k && out == l) ≡ false = ground arith in
            let kept : view.read (view.write f i out v) k l ≡ view.read f k l =
              written ∙ (rw apart) in
            rw (source_step size entry j out i k l entries other)
              (Cell-untouched f (view.write f i out v) g k l _ kept c)
        | inl here ↦
            let at_k : k ≡ i = ground arith in
            let at_l : l ≡ out = ground arith in
            let hit : (i == k && out == l) ≡ true = ground arith in
            let new : view.read (view.write f i out v) k l ≡ v = written ∙ (rw hit) in
            let next : column_source size j out (suc i) entries k l ≡ none =
              rw (at_k, at_l) (source_here size entry j out i entries).1 in
            let now : column_source size j out i (entry ∷ entries) k l ≡ some (entry + j * size) =
              rw (at_k, at_l) (source_here size entry j out i entries).0 in
            let last : view.read g k l ≡ view.read (view.write f i out v) k l = rw next at c in
            rw now (e ∙ ap some (sym (last ∙ new)))
      ]

  source_nil : (size j out i k l : ℕ) → column_source size j out i [] k l ≡ none
  source_nil size j out i k l = ground arith

  -- The inner loop succeeds where its columns and levels exist and the data are long enough.
  pub read_columns-Copies :
      (size j out i : ℕ) (entries : List ℕ) (f : F)
      → length data_vec ≤ 2 ^ 31
      → Fits (length data_vec) size j entries
      → i + length entries ≤ view.columns f
      → out < view.levels f
      → (g : F) × (read_columns view data_vec size j out i entries f ≡ ok g)
        × Copies view data_vec (column_source size j out i entries) f g
  unfolding read_columns
  read_columns-Copies size j out i [] f small fits hi ho = (
    f,
    refl,
    record {
      name = refl;
      columns = refl;
      levels = refl;
      cells = λ k l. rw (source_nil size j out i k l);
    },
  )
  read_columns-Copies size j out i (entry ∷ entries) f small fits hi ho =
      let (v, e) = get_elem?_of_lt data_vec (entry + j * size) fits.0 in
      let f' = view.write f i out v in
      let wide = view.columns-write f i out v in
      let high = view.levels-write f i out v in
      let (g, r, c) =
        read_columns-Copies size j out (suc i) entries f' small fits.1 (omega arith)
          (omega arith) in
      (
        g,
        rw
            (
              checked_datum-eq size entry j (view.name f) v small fits.0 e,
              view_set-eq view f i out v (omega arith) ho,
            )
            r,
        record {
          name = c.name ∙ view.name-write f i out v;
          columns = c.columns ∙ wide;
          levels = c.levels ∙ high;
          cells = λ k l.
              Cell-step size entry j out i k l entries v f g (omega arith) ho e (c.cells k l);
        },
      )
