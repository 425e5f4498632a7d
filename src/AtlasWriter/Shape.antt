-- ===== src/AtlasWriter/Shape.antt =====
-- The populateDataVec of src/monio/AtlasWriter.cc that takes dimensions in place of a map.
use monio.Base.{
  ℕ, zero, suc, ◌+◌, ◌*◌, ◌^◌, ◌≤◌, ◌<◌, ◌≡◌, refl, ◌∙◌, List, some, length, set, get_elem?, ◌==◌,
  nat_eq, ==_iff, lt→ltb, arith, length-set, get_elem?-set_self, get_elem?-set_ne, Bool-cases, inl,
  inr,
}
use monio.Result.{ok}
use monio.Atlas.{ArrayView}
use monio.Atlas.Access.{view_get-eq}
use monio.UtilsAtlas.{idx}
use monio.AtlasWriter.Vector.{store-eq}
use monio.AtlasWriter.Files.{write_column, write_shape, populate_data_vec_by_shape}

next_column : (levels i l : ℕ) → l < levels → l + i * levels < suc i * levels
next_column levels i l h = grind arith

last_column : (levels i count : ℕ) → levels + i * levels ≤ (i + suc count) * levels
last_column levels i count = grind arith

module _ {F V : Type 0} (view : ArrayView F V) (f : F) (levels : ℕ) where
  -- Levels from `j` of a column are written, and all before them is as it was.
  record WroteColumn (i j count : ℕ) (before after : List V) : Type 0 where
    size : length after ≡ length before
    hit :
        (l : ℕ) → j ≤ l → l < j + count → get_elem? after (l + i * levels) ≡ some (view.read f i l)
    low : (p : ℕ) → p < j + i * levels → get_elem? after p ≡ get_elem? before p

  -- The same of columns from `i`.
  record WroteShape (i count : ℕ) (before after : List V) : Type 0 where
    size : length after ≡ length before
    hit :
        (k l : ℕ)
        → i ≤ k
        → k < i + count
        → l < levels
        → get_elem? after (l + k * levels) ≡ some (view.read f k l)
    low : (p : ℕ) → p < i * levels → get_elem? after p ≡ get_elem? before p

  write_column-WroteColumn :
      (i j count : ℕ) (data_vec : List V)
      → length data_vec ≤ 2 ^ 31
      → i < view.columns f
      → j + count ≤ view.levels f
      → j + count + i * levels ≤ length data_vec
      → (after : List V) × (write_column view f levels i j count data_vec ≡ ok after)
        × WroteColumn i j count data_vec after
  unfolding write_column idx
  write_column-WroteColumn i j zero data_vec small hi hj hn = (
    data_vec,
    refl,
    record { size = refl; hit = λ l a b. absurd (omega arith); low = λ p h. refl },
  )
  write_column-WroteColumn i j (suc count) data_vec small hi hj hn =
      let v = view.read f i j in
      let place = j + i * levels in
      let inside : place < length data_vec = omega arith in
      let same = length-set data_vec place v in
      let (after, r, w) =
        write_column-WroteColumn i (suc j) count (set data_vec place v) (rw same small) hi
          (omega arith) (omega (arith, same)) in
      (
        after,
        rw
            (
              lt→ltb place (2 ^ 31) (omega arith),
              view_get-eq view f i j hi (omega arith),
              store-eq view data_vec place v inside,
            )
            r,
        record {
          size = w.size ∙ same;
          hit = λ l a b. elim (Bool-cases (j == l)) [
            | inr later ↦ w.hit l (ground (arith, ==_iff j l)) (omega arith)
            | inl now ↦
                rw (← (==_iff j l).0 now)
                  (w.low place (omega arith) ∙ get_elem?-set_self data_vec place v inside)
          ];
          low =
              λ p h. w.low p (omega arith) ∙ get_elem?-set_ne data_vec place p v (λ e. omega arith);
        },
      )

  write_shape-WroteShape :
      (i count : ℕ) (data_vec : List V)
      → length data_vec ≤ 2 ^ 31
      → i + count ≤ view.columns f
      → levels ≤ view.levels f
      → (i + count) * levels ≤ length data_vec
      → (after : List V) × (write_shape view f levels i count data_vec ≡ ok after)
        × WroteShape i count data_vec after
  unfolding write_shape
  write_shape-WroteShape i zero data_vec small hc hl hn = (
    data_vec,
    refl,
    record { size = refl; hit = λ k l a b h. absurd (omega arith); low = λ p h. refl },
  )
  write_shape-WroteShape i (suc count) data_vec small hc hl hn =
      let (middle, r, w) =
        write_column-WroteColumn i 0 levels data_vec small (omega arith) (omega arith)
          (omega (arith, last_column levels i count)) in
      let moved : i + suc count ≡ suc i + count = omega arith in
      let (after, s, ws) =
        write_shape-WroteShape (suc i) count middle (rw w.size small) (omega arith) hl
          (rw (w.size, ← moved) hn) in
      (
        after,
        rw r s,
        record {
          size = ws.size ∙ w.size;
          hit = λ k l a b h. elim (Bool-cases (i == k)) [
            | inr later ↦ ws.hit k l (ground (arith, ==_iff i k)) (omega arith) h
            | inl now ↦ rw (← (==_iff i k).0 now) (
                ws.low (l + i * levels) (next_column levels i l h)
                ∙ w.hit l (omega arith) (omega arith))
          ];
          low = λ p h. ws.low p (grind arith) ∙ w.low p (omega arith);
        },
      )

module _ {F V : Type 0} (view : ArrayView F V) where
  -- The call succeeds, and the levels of each column stand one after another.
  abbrev pub FillsByShape : List V → F → ℕ → ℕ → Type 0
  FillsByShape data_vec f columns levels =
      (after : List V) × (populate_data_vec_by_shape view data_vec f columns levels ≡ ok after)
      × (length after ≡ length data_vec)
      × ((k l : ℕ)
          → k < columns
          → l < levels
          → get_elem? after (l + k * levels) ≡ some (view.read f k l))

  -- For a vector with room for the columns and levels, both within the field, the populateDataVec
  -- with dimensions succeeds and keeps the size, and level l of column k stands at l + k * levels.
  pub populate_data_vec_by_shape-Written :
      (data_vec : List V) (f : F) (columns levels : ℕ)
      → length data_vec ≤ 2 ^ 31
      → columns ≤ view.columns f
      → levels ≤ view.levels f
      → columns * levels ≤ length data_vec
      → FillsByShape data_vec f columns levels
  unfolding populate_data_vec_by_shape
  populate_data_vec_by_shape-Written data_vec f columns levels small hc hl hn =
      let (after, r, w) =
        write_shape-WroteShape view f levels 0 columns data_vec small (omega arith) hl
          (omega arith) in
      (after, r, w.size, λ k l a b. w.hit k l (omega arith) (omega arith) b)
