-- ===== src/RoundTrip.antt =====
-- A field that AtlasWriter.cc puts into the data of a file is what AtlasReader.cc gets back.
pub mod Files
pub mod Disk
use monio.Base.{
  ℕ, suc, ◌+◌, ◌*◌, ◌^◌, ◌≤◌, ◌<◌, ◌≡◌, refl, ap, ◌∙◌, Bool, true, false, ◌&&◌, List, some, length,
  get_elem?, get_elem?_of_lt, arith, ◌==◌, nat_eq,
}
use monio.Result.{ok}
use monio.Constants.{vertical_full_size, vertical_half_size}
use monio.Atlas.{ArrayView}
use monio.AtlasReader.{populate_field}
use monio.AtlasReader.Columns.{Cell, place}
use monio.AtlasReader.Populate.{AllBelow, skipped, populate_field-Copies}
use monio.AtlasWriter.{populate_data_vec, copy_surface_level}
use monio.AtlasWriter.Columns.{Distinct, populate_data_vec-Written}
use monio.AtlasWriter.Surface.{copy_surface_level-CopiedLevels}

module _ {F V : Type 0} (view : ArrayView F V) where
  -- One value through the data.
  Cell-back :
      (after : List V) (f g g' : F) (entries : List ℕ) (k l first : ℕ)
      → k < length entries
      → ((entry : ℕ)
          → get_elem? entries k ≡ some entry
          → get_elem? after (entry + (l + first) * length entries)
            ≡ some (view.read f k (l + first)))
      → Cell view after g g' k l (place (length entries) (l + first) (get_elem? entries k))
      → view.read g' k l ≡ view.read f k (l + first)
  Cell-back after f g g' entries k l first h w c =
      let (entry, e) = get_elem?_of_lt entries k h in
      let back : get_elem? after (entry + (l + first) * length entries) ≡ some (view.read g' k l) =
        rw e at c in
      let put = w entry e in cc

  -- The field is written, the data are read, and both hold the same values.
  abbrev pub ComesBack : List V → F → F → List ℕ → Bool → Type 0
  ComesBack data_vec f g entries is_lfric_convention =
      (after : List V) × (g' : F) × (populate_data_vec view data_vec f entries ≡ ok after)
      × (populate_field view after entries false is_lfric_convention g ≡ ok g')
      × ((k l : ℕ) → k < length entries → l < view.levels f → view.read g' k l ≡ view.read f k l)

  -- The same with the first level filled in between.
  abbrev pub ComesBackFilled : List V → F → F → F → List ℕ → Type 0
  ComesBackFilled data_vec f created g entries =
      (copied : F) × (after : List V) × (g' : F) × (copy_surface_level view f created ≡ ok copied)
      × (populate_data_vec view data_vec copied entries ≡ ok after)
      × (populate_field view after entries true true g ≡ ok g')
      × ((k l : ℕ)
          → k < length entries
          → l < vertical_half_size
          → view.read g' k l ≡ view.read f k l)

  -- Let populateDataVec write a field through a map to distinct columns below the length of the map,
  -- with an entry for each of at most as many columns as the field has, into data with one value for
  -- each entry and level and no more than 2 ^ 31 of them. Then populateField, where it is not told that
  -- the field lacks the first level, reads from these data through the same map, in either convention,
  -- into a field of as many levels and at least as many columns as the map has entries, and each value
  -- of the first field in those columns comes back in its column and level.
  pub populate_field-populate_data_vec :
      (data_vec : List V) (f g : F) (entries : List ℕ) (is_lfric_convention : Bool)
      → length data_vec ≤ 2 ^ 31
      → length entries * view.levels f ≡ length data_vec
      → length entries ≤ view.columns f
      → AllBelow (length entries) entries
      → Distinct entries
      → length entries ≤ view.columns g
      → view.levels g ≡ view.levels f
      → ComesBack data_vec f g entries is_lfric_convention
  populate_field-populate_data_vec data_vec f g entries is_lfric_convention small size hc below
        distinct hg levels =
      let (after, w, kept, put) =
        populate_data_vec-Written view data_vec f entries small size hc below distinct in
      let plain : skipped false is_lfric_convention (view.levels g) ≡ 0 = ground arith in
      let enough : length entries
            * (view.levels g + skipped false is_lfric_convention (view.levels g))
          ≤ length after =
        rw (plain, levels) (omega (arith, kept)) in
      let (g', r, _, _, cells) =
        populate_field-Copies view after entries false is_lfric_convention g (omega (arith, kept))
          below hg enough refl in
      (
        after,
        g',
        w,
        r,
        λ k l hk hl.
            let first = skipped false is_lfric_convention (view.levels g) in
            let same : l + first ≡ l = omega (arith, plain) in
            Cell-back after f g g' entries k l first hk
              (λ entry e. put k (l + first) entry e (omega (arith, plain)))
              (cells k l (omega (arith, levels)))
            ∙ ap (λ (c : ℕ). view.read f k c) same,
      )

  -- An LFRic field without its first level, which the writer fills in by copySurfaceLevel, comes
  -- back from the 71 levels of the file into the 70 of the field.
  pub populate_field-copy_surface_level :
      (data_vec : List V) (f created g : F) (entries : List ℕ)
      → length data_vec ≤ 2 ^ 31
      → length entries * vertical_full_size ≡ length data_vec
      → AllBelow (length entries) entries
      → Distinct entries
      → length entries ≤ view.columns f
      → view.columns f ≤ view.columns created
      → length entries ≤ view.columns g
      → view.levels f ≡ vertical_half_size
      → view.levels created ≡ vertical_full_size
      → view.levels g ≡ vertical_half_size
      → ComesBackFilled data_vec f created g entries
  populate_field-copy_surface_level data_vec f created g entries small size below distinct hf hc hg
        lf lc lg =
      let (copied, s, cs, ls, _, up) =
        copy_surface_level-CopiedLevels view f created (omega arith) (omega arith) hc in
      let full : view.levels copied ≡ vertical_full_size = ls ∙ lc in
      let (after, w, kept, put) =
        populate_data_vec-Written view data_vec copied entries small (rw full size)
          (omega (arith, cs)) below distinct in
      let skip : skipped true true (view.levels g) ≡ 1 = rw lg refl in
      let enough : length entries * (view.levels g + skipped true true (view.levels g))
          ≤ length after =
        omega (
          arith,
          kept,
          ap (λ (n : ℕ). length entries * (view.levels g + n)) skip,
          ap (λ (n : ℕ). length entries * (n + 1)) lg,
        ) in
      let set_up : (true && view.levels g == vertical_full_size) ≡ false = rw lg refl in
      let (g', r, _, _, cells) =
        populate_field-Copies view after entries true true g (omega (arith, kept)) below hg enough
          set_up in
      (
        copied,
        after,
        g',
        s,
        w,
        r,
        λ k l hk hl.
            let first = skipped true true (view.levels g) in
            let next : l + first ≡ suc l = omega (arith, skip) in
            Cell-back after copied g g' entries k l first hk
              (λ entry e. put k (l + first) entry e (omega (arith, skip, full)))
              (cells k l (omega (arith, lg)))
            ∙ ap (λ (c : ℕ). view.read copied k c) next
            ∙ up k l (omega arith) (omega arith),
      )
