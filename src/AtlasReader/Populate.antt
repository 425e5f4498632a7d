-- ===== src/AtlasReader/Populate.antt =====
-- populateField as a whole: where every value of the field comes from, and what data that are too
-- short lead to.
use monio.Base.{
  ℕ, zero, suc, ◌+◌, ◌-◌, ◌*◌, ◌^◌, ◌≤◌, ◌<◌, String, ◌≡◌, refl, ap, sym, ◌∙◌, Bool, true, false,
  ◌&&◌, List, [], ◌∷◌, length, get_elem?, if◌then◌else◌, ◌==◌, nat_eq, leb, ltb, arith,
  get_elem?-eq-none, Bool-cases, inl, inr,
}
use monio.Result.{Result, ok, err, ◌>>=◌, data_index, undefined_access}
use monio.Constants.{vertical_full_size, vertical_half_size}
use monio.Atlas.{ArrayView}
use monio.AtlasReader.{cell_index, checked_datum, read_columns, read_levels, populate_field}
use monio.AtlasReader.Columns.{Cell, Fits, place, cell_index-eq}
use monio.AtlasReader.Levels.{read_levels-Copies}

-- Every entry of the map is a column of the file.
abbrev pub AllBelow : ℕ → List ℕ → Type 0
AllBelow n [] = Unit {0}
AllBelow n (entry ∷ entries) = (entry < n) × AllBelow n entries

-- The levels of the data that the field has no place for.
abbrev pub skipped : Bool → Bool → ℕ → ℕ
skipped no_first_level is_lfric_convention levels =
    if is_lfric_convention && no_first_level && levels == vertical_half_size then 1 else 0

-- A bind of a bind, the later part given by an equation.
bind_regroup {ℓ} :
    {A : Type ℓ} (r : Result A) (h p q : A → Result A)
    → ((a : A) → h a ≡ (p a >>= q))
    → (r >>= h) ≡ ((r >>= p) >>= q)
bind_regroup (ok a) h p q e = e a
bind_regroup (err x) h p q e = refl

pub index-lt : (n levels l entry : ℕ) → entry < n → l < levels → entry + l * n < n * levels
index-lt n levels l entry h k = grind arith

pub AllBelow-Fits :
    (n levels l total : ℕ) (entries : List ℕ)
    → AllBelow n entries
    → l < levels
    → n * levels ≤ total
    → Fits total n l entries
AllBelow-Fits n levels l total [] b h k = tt
AllBelow-Fits n levels l total (entry ∷ entries) b h k =
    (omega (arith, index-lt n levels l entry b.0 h), AllBelow-Fits n levels l total entries b.1 h k)

module _ {F V : Type 0} (view : ArrayView F V) (data_vec : List V) where
  Copies_from :
      (entries : List ℕ) (first : ℕ) (f : F)
      → length data_vec ≤ 2 ^ 31
      → AllBelow (length entries) entries
      → length entries ≤ view.columns f
      → length entries * (view.levels f + first) ≤ length data_vec
      → (g : F) × (read_levels view data_vec entries first first (view.levels f) f ≡ ok g)
        × (view.columns g ≡ view.columns f)
        × (view.levels g ≡ view.levels f)
        × ((k l : ℕ)
            → l < view.levels f
            → Cell view data_vec f g k l (place (length entries) (l + first) (get_elem? entries k)))
  Copies_from entries first f small below hc hd =
      let (g, r, c) =
        read_levels-Copies view data_vec entries first first (view.levels f) f small
          (λ l h.
            AllBelow-Fits (length entries) (view.levels f + first) l (length data_vec) entries below
              (omega arith) hd)
          hc (omega arith) (omega arith) in
      (
        g,
        r,
        c.columns,
        c.levels,
        λ k l h.
            let inside : (leb first (l + first) && ltb (l + first) (first + view.levels f)) ≡ true =
              ground arith in
            rw inside at (c.cells k l),
      )

  populate_field-eq-read_levels :
      (entries : List ℕ) (no_first_level is_lfric_convention : Bool) (f : F)
      → (no_first_level && view.levels f == vertical_full_size) ≡ false
      → populate_field view data_vec entries no_first_level is_lfric_convention f
        ≡ read_levels view data_vec entries
            (skipped no_first_level is_lfric_convention (view.levels f))
            (skipped no_first_level is_lfric_convention (view.levels f))
            (view.levels f)
            f
  unfolding populate_field
  populate_field-eq-read_levels entries no_first_level is_lfric_convention f set_up =
      elim (Bool-cases
        (is_lfric_convention && no_first_level && view.levels f == vertical_half_size)) [
          | inl skip ↦
              let half : view.levels f ≡ 70 = ground arith in
              rw (set_up, skip)
                (ap (λ (n : ℕ). read_levels view data_vec entries 1 1 n f) (sym half))
          | inr plain ↦ rw (set_up, plain)
        ]

  -- The call succeeds, and each cell comes from its place in the data.
  abbrev pub Populates : List ℕ → Bool → Bool → F → Type 0
  Populates entries no_first_level is_lfric_convention f =
      (g : F) × (populate_field view data_vec entries no_first_level is_lfric_convention f ≡ ok g)
      × (view.columns g ≡ view.columns f)
      × (view.levels g ≡ view.levels f)
      × ((k l : ℕ)
          → l < view.levels f
          → Cell view data_vec f g k l (
              place (length entries)
                (l + skipped no_first_level is_lfric_convention (view.levels f))
                (get_elem? entries k)))

  -- populateField succeeds for a field that has the columns of the map, is not set up with a first
  -- level that it should lack, and asks for no more levels than the data have. Then column k holds
  -- at level l the value that the file has for the k-th entry of the map, one level higher in the
  -- file where the field lacks the first level; all other columns are left as they were.
  pub populate_field-Copies :
      (entries : List ℕ) (no_first_level is_lfric_convention : Bool) (f : F)
      → length data_vec ≤ 2 ^ 31
      → AllBelow (length entries) entries
      → length entries ≤ view.columns f
      → length entries
          * (view.levels f + skipped no_first_level is_lfric_convention (view.levels f))
        ≤ length data_vec
      → (no_first_level && view.levels f == vertical_full_size) ≡ false
      → Populates entries no_first_level is_lfric_convention f
  populate_field-Copies entries no_first_level is_lfric_convention f small below hc hd set_up =
      let first = skipped no_first_level is_lfric_convention (view.levels f) in
      let (g, r, c, l, cells) = Copies_from entries first f small below hc hd in
      (
        g,
        populate_field-eq-read_levels entries no_first_level is_lfric_convention f set_up ∙ r,
        c,
        l,
        cells,
      )

  read_levels-add :
      (entries : List ℕ) (first j a b : ℕ) (f : F)
      → read_levels view data_vec entries first j (a + b) f ≡ (
          read_levels view data_vec entries first j a f >>= λ g.
          read_levels view data_vec entries first (j + a) b g)
  unfolding read_levels
  read_levels-add entries first j zero b f =
      let from : j + 0 ≡ j = omega arith in let all : 0 + b ≡ b = omega arith in rw (all, from)
  read_levels-add entries first j (suc a) b f =
      let all : suc a + b ≡ suc (a + b) = omega arith in
      let from : j + suc a ≡ suc j + a = omega arith in
      rw (all, from)
        (bind_regroup (read_columns view data_vec (length entries) j (j - first) 0 entries f) _ _ _
          (λ g. read_levels-add entries first (suc j) a b g))

  checked_datum_end :
      (n held entry : ℕ) (name : String)
      → length data_vec ≡ n * held
      → length data_vec + n < 2 ^ 31
      → entry < n
      → checked_datum view data_vec (cell_index n entry held) name
        ≡ err (if entry == 0 then undefined_access else data_index name)
  unfolding checked_datum
  checked_datum_end n held entry name size small h =
      let swap : n * held ≡ held * n = omega arith in
      let there = cell_index-eq n entry held (omega arith) in
      let gone = get_elem?-eq-none data_vec (entry + held * n) (omega arith) in
      elim (Bool-cases (entry == 0)) [
        | inl first ↦
            let inside : leb (entry + held * n) (length data_vec) ≡ true = ground arith in
            rw (there, inside, gone, first)
        | inr other ↦
            let outside : leb (entry + held * n) (length data_vec) ≡ false = ground arith in
            rw (there, outside, other)
      ]

  read_levels_end :
      (held entry : ℕ) (entries : List ℕ) (rest : ℕ) (g : F)
      → length data_vec ≡ length (entry ∷ entries) * held
      → length data_vec + length (entry ∷ entries) < 2 ^ 31
      → entry < length (entry ∷ entries)
      → read_levels view data_vec (entry ∷ entries) 0 held (suc rest) g
        ≡ err (if entry == 0 then undefined_access else data_index (view.name g))
  unfolding read_levels read_columns
  read_levels_end held entry entries rest g size small h =
      rw (checked_datum_end (length (entry ∷ entries)) held entry (view.name g) size small h)

  -- Where the data lack whole levels, the check of the index lets the first index past their end
  -- through: if the map begins with column 0, the value one past the end is read, which is
  -- undefined; otherwise the error names the field.
  pub populate_field_short :
      (entry : ℕ) (entries : List ℕ) (is_lfric_convention : Bool) (f : F) (held : ℕ)
      → length data_vec ≡ length (entry ∷ entries) * held
      → length data_vec + length (entry ∷ entries) < 2 ^ 31
      → AllBelow (length (entry ∷ entries)) (entry ∷ entries)
      → length (entry ∷ entries) ≤ view.columns f
      → held < view.levels f
      → populate_field view data_vec (entry ∷ entries) false is_lfric_convention f
        ≡ err (if entry == 0 then undefined_access else data_index (view.name f))
  populate_field_short entry entries is_lfric_convention f held size small below hc hl =
      let n = length (entry ∷ entries) in
      let plain : skipped false is_lfric_convention (view.levels f) ≡ 0 = ground arith in
      let rest = view.levels f - held - 1 in
      let start : 0 + held ≡ held = omega arith in
      let past : String → Result F =
        λ name. err (if entry == 0 then undefined_access else data_index name) in
      let split : view.levels f ≡ held + suc rest = omega arith in
      let enough : n * held ≤ length data_vec = omega arith in
      let (g, r, c) =
        read_levels-Copies view data_vec (entry ∷ entries) 0 0 held f (omega arith)
          (λ l h.
            AllBelow-Fits n held l (length data_vec) (entry ∷ entries) below (omega arith) enough)
          hc (omega arith) (omega arith) in
      populate_field-eq-read_levels (entry ∷ entries) false is_lfric_convention f refl
      ∙ rw (plain, split, read_levels-add (entry ∷ entries) 0 0 held (suc rest) f, r, start)
          (read_levels_end held entry entries rest g size small below.0 ∙ ap past c.name)
