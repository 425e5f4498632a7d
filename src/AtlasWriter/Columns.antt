-- ===== src/AtlasWriter/Columns.antt =====
-- The outer loop of populateDataVec, for a map that sends the columns to distinct places.
use native.Mathlib.Nat.{mod-eq_of_lt}
use monio.Base.{
  ℕ, zero, suc, ◌+◌, ◌*◌, ◌%◌, ◌^◌, ◌≤◌, ◌<◌, ◌≡◌, refl, ap, ◌∙◌, ◌≢◌, List, [], ◌∷◌, some, length,
  get_elem?, nat_eq, ==_iff, arith,
}
use monio.Result.{ok}
use monio.Atlas.{ArrayView}
use monio.AtlasReader.Populate.{AllBelow}
use monio.AtlasWriter.{write_columns, populate_data_vec}
use monio.AtlasWriter.Vector.{index_inj, Wrote, write_levels-Wrote}

abbrev pub NotIn : ℕ → List ℕ → Type 0
NotIn entry [] = Unit {0}
NotIn entry (e ∷ entries) = (e ≢ entry) × NotIn entry entries

-- No two columns have the same place.
abbrev pub Distinct : List ℕ → Type 0
Distinct [] = Unit {0}
Distinct (e ∷ entries) = NotIn e entries × Distinct entries

NotIn-get :
    (entry : ℕ) (entries : List ℕ) (k : ℕ) → NotIn entry entries → get_elem? entries k ≢ some entry
NotIn-get entry [] k h p = cc
NotIn-get entry (e ∷ entries) zero h p = h.0 (cc)
NotIn-get entry (e ∷ entries) (suc k) h p = NotIn-get entry entries k h.1 p

pub AllBelow-get :
    (n : ℕ) (entries : List ℕ) (k entry : ℕ)
    → AllBelow n entries
    → get_elem? entries k ≡ some entry
    → entry < n
AllBelow-get n [] k entry b p = cc
AllBelow-get n (e ∷ entries) zero entry b p = let q : e ≡ entry = cc in omega arith
AllBelow-get n (e ∷ entries) (suc k) entry b p = AllBelow-get n entries k entry b.1 p

module _ {F V : Type 0} (view : ArrayView F V) where
  -- What the loop leaves: each column's levels at the places of its entry, nothing else changed.
  pub record Written (f : F) (n levels i : ℕ) (entries : List ℕ) (before after : List V)
      : Type 0 where
    pub size : length after ≡ length before
    pub hit :
        (k l entry : ℕ)
        → get_elem? entries k ≡ some entry
        → l < levels
        → get_elem? after (entry + l * n) ≡ some (view.read f (i + k) l)
    pub miss :
        (p : ℕ)
        → ((k l entry : ℕ) → get_elem? entries k ≡ some entry → l < levels → p ≢ entry + l * n)
        → get_elem? after p ≡ get_elem? before p

  hit_step :
      (f : F) (n levels i e : ℕ) (entries : List ℕ) (before middle after : List V)
      → AllBelow n (e ∷ entries)
      → NotIn e entries
      → Wrote view f n e i 0 levels before middle
      → Written f n levels (suc i) entries middle after
      → (k l entry : ℕ) → get_elem? (e ∷ entries) k ≡ some entry
      → l < levels
      → get_elem? after (entry + l * n) ≡ some (view.read f (i + k) l)
  hit_step f n levels i e entries before middle after below fresh w ws zero l entry p h =
      let same : e ≡ entry = cc in
      let column : i + 0 ≡ i = omega arith in
      rw (← same, column)
        (ws.miss (e + l * n) (λ k' l' e' q h' x.
            let (y, _) = index_inj n e l e' l' below.0 (AllBelow-get n entries k' e' below.1 q) x in
            NotIn-get e entries k' fresh (rw y q))
          ∙ w.hit l (omega arith) (omega arith))
  hit_step f n levels i e entries before middle after below fresh w ws (suc k) l entry p h =
      let column : i + suc k ≡ suc i + k = omega arith in rw column (ws.hit k l entry p h)

  pub write_columns-Written :
      (f : F) (n levels i : ℕ) (entries : List ℕ) (data_vec : List V)
      → length data_vec ≤ 2 ^ 31
      → i + length entries ≤ view.columns f
      → levels ≤ view.levels f
      → n * levels ≤ length data_vec
      → AllBelow n entries
      → Distinct entries
      → (after : List V) × (write_columns view f n levels i entries data_vec ≡ ok after)
        × Written f n levels i entries data_vec after
  unfolding write_columns
  write_columns-Written f n levels i [] data_vec small hc hl hn b d =
      (data_vec, refl, record { size = refl; hit = λ k l entry p h. cc; miss = λ p h. refl })
  write_columns-Written f n levels i (e ∷ entries) data_vec small hc hl hn b d =
      let (middle, r, w) =
        write_levels-Wrote view f n e i 0 levels data_vec small (omega arith) (omega arith)
          (omega arith) b.0 in
      let (after, s, ws) =
        write_columns-Written f n levels (suc i) entries middle (rw w.size small) (omega arith) hl
          (rw w.size hn) b.1 d.1 in
      (
        after,
        rw r s,
        record {
          size = ws.size ∙ w.size;
          hit = hit_step f n levels i e entries data_vec middle after b d.0 w ws;
          miss = λ p h.
              ws.miss p (λ k l entry q lt. h (suc k) l entry q lt)
              ∙ w.miss p (λ l a lt. h 0 l e refl (omega arith));
        },
      )

  -- The call succeeds, and each value stands at its place in the vector.
  abbrev pub Fills : List V → F → List ℕ → Type 0
  Fills data_vec f entries =
      (after : List V) × (populate_data_vec view data_vec f entries ≡ ok after)
      × (length after ≡ length data_vec)
      × ((k l entry : ℕ)
          → get_elem? entries k ≡ some entry
          → l < view.levels f
          → get_elem? after (entry + l * length entries) ≡ some (view.read f k l))

  -- For a vector of the right size and a map to distinct columns of the file, populateDataVec
  -- succeeds and keeps the size, and level l of column k stands at the place of the k-th entry.
  pub populate_data_vec-Written :
      (data_vec : List V) (f : F) (entries : List ℕ)
      → length data_vec ≤ 2 ^ 31
      → length entries * view.levels f ≡ length data_vec
      → length entries ≤ view.columns f
      → AllBelow (length entries) entries
      → Distinct entries
      → Fills data_vec f entries
  unfolding populate_data_vec
  populate_data_vec-Written data_vec f entries small size hc b d =
      let wrapped : (length entries * view.levels f) % 2 ^ 64 ≡ length data_vec =
        mod-eq_of_lt (omega arith) ∙ size in
      let (after, r, w) =
        write_columns-Written f (length entries) (view.levels f) 0 entries data_vec small
          (omega arith) (omega arith) (omega arith) b d in
      (
        after,
        rw ((==_iff _ _).1 wrapped) r,
        w.size,
        λ k l entry p h.
            let column : 0 + k ≡ k = omega arith in
            w.hit k l entry p h ∙ ap (λ (c : ℕ). some (view.read f c l)) column,
      )
