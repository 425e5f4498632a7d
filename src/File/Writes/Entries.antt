-- ===== src/File/Writes/Entries.antt =====
-- The loops of writeDimensions and writeAttributes of src/monio/File.cc, into a file that has nothing
-- of the kind yet.
use monio.Base.{ℕ, ◌<◌, ◌^◌, ◌≡◌, refl, ◌∙◌, [], ◌∷◌, some, ℤ, pos, to_size, to_size-pos, string_eq}
use monio.Result.{Result, ok}
use monio.Map.{Map, lookup, contains}
use monio.Map.Sorted.{IsSorted, map_values, map_values-Above}
use monio.Map.Adds.{AddsAll, Apart, AddsAll-empty, AddsAll-cons, Apart-Adds}
use monio.Variable.{Attribute}
use monio.Variable.Invariant.{Named}
use monio.NetCdf.{NcLibrary, FileMode, DefinesNames}
use monio.File.{File, on_nc, get_file}
use monio.File.Writes.{written_att, write_dims, write_atts}

-- The handle of a file with its contents.
abbrev pub opened : {N : Type 0} → FileMode → N → File N
opened mode n = record { data_file = some n; file_mode = mode }

pub on_nc-eq :
    {N : Type 0} (mode : FileMode) (n n' : N) (change : N → Result N)
    → change n ≡ ok n'
    → on_nc change (opened mode n) ≡ (ok tt, opened mode n')
unfolding on_nc get_file
on_nc-eq mode n n' change e = rw e

module _ {N : Type 0} (nc : NcLibrary N) (defines : DefinesNames nc) (mode : FileMode) where
  -- Sizes of dimensions that an int and a file can have, under names that a file can have.
  abbrev pub FileSizes : Map ℤ → Type 0
  FileSizes [] = Unit {0}
  FileSizes ((name, value) ∷ dims) =
      (defines.IsName name × ((size : ℕ) × (value ≡ pos size) × (0 < size) × (size < 2 ^ 31)))
      × FileSizes dims

  abbrev pub FileNames : Map Attribute → Type 0
  FileNames [] = Unit {0}
  FileNames ((name, a) ∷ atts) = defines.IsName name × FileNames atts

  pub write_dims-AddsAll :
      (dims : Map ℤ) (n : N)
      → FileSizes dims
      → IsSorted dims
      → Apart (map_values to_size dims) (nc.dims n)
      → (n' : N) × (write_dims nc [] dims (opened mode n) ≡ (ok tt, opened mode n'))
        × AddsAll (map_values to_size dims) (nc.dims n) (nc.dims n')
        × (nc.vars n' ≡ nc.vars n)
        × (nc.atts n' ≡ nc.atts n)
  unfolding write_dims contains lookup
  write_dims-AddsAll [] n h s new = (n, refl, AddsAll-empty (nc.dims n), refl, refl)
  write_dims-AddsAll ((name, value) ∷ dims) n h s new =
      let ((named, (size, e, positive, small)), others) = h in
      let same : to_size value ≡ size = rw e (to_size-pos size small) in
      let (n₁, r, one, v₁, a₁) =
        defines.add_dim-defines n name (to_size value) named (rw same positive) new.0 in
      let above = map_values-Above to_size name dims s.0 in
      let apart =
        Apart-Adds name (to_size value) (map_values to_size dims) (nc.dims n) (nc.dims n₁) above one
          new.1 in
      let (n₂, r₂, all, v₂, a₂) = write_dims-AddsAll dims n₁ others s.1 apart in
      (
        n₂,
        rw (on_nc-eq mode n n₁ (λ m. nc.add_dim m name (to_size value)) r) r₂,
        AddsAll-cons name (to_size value) (map_values to_size dims) (nc.dims n) (nc.dims n₁)
            (nc.dims n₂) above one all,
        v₂ ∙ v₁,
        a₂ ∙ a₁,
      )

  pub write_atts-AddsAll :
      (atts : Map Attribute) (n : N)
      → FileNames atts
      → Named atts
      → IsSorted atts
      → Apart (map_values written_att atts) (nc.atts n)
      → (n' : N) × (write_atts nc [] atts (opened mode n) ≡ (ok tt, opened mode n'))
        × AddsAll (map_values written_att atts) (nc.atts n) (nc.atts n')
        × (nc.dims n' ≡ nc.dims n)
        × (nc.vars n' ≡ nc.vars n)
  unfolding write_atts contains lookup
  write_atts-AddsAll [] n h own s new = (n, refl, AddsAll-empty (nc.atts n), refl, refl)
  write_atts-AddsAll ((name, a) ∷ atts) n h own s new =
      let (n₁, r, d₁, v₁, one) = defines.put_att-defines n name (written_att a) h.0 new.0 in
      let above = map_values-Above written_att name atts s.0 in
      let apart =
        Apart-Adds name (written_att a) (map_values written_att atts) (nc.atts n) (nc.atts n₁) above
          one new.1 in
      let (n₂, r₂, all, d₂, v₂) = write_atts-AddsAll atts n₁ h.1 own.1 s.1 apart in
      (
        n₂,
        rw (own.0, on_nc-eq mode n n₁ (λ m. nc.put_att m name (written_att a)) r) r₂,
        AddsAll-cons name (written_att a) (map_values written_att atts) (nc.atts n) (nc.atts n₁)
            (nc.atts n₂) above one all,
        d₂ ∙ d₁,
        v₂ ∙ v₁,
      )
