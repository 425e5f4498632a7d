-- ===== src/File/RoundTrip.antt =====
-- The metadata of a file written by writeMetadata and read by readMetadata of src/monio/File.cc.
use monio.Base.{length, ◌++◌, ◌≡◌, ◌∙◌, [], to_size}
use monio.Result.{ok}
use monio.Map.{Map}
use monio.Map.Sorted.{IsSorted, map_values, map_values-IsSorted}
use monio.Map.Adds.{Apart-empty, AddsAll-eq}
use monio.Variable.{Variable}
use monio.Variable.Invariant.{Named}
use monio.Heap.{Heap}
use monio.Metadata.{Metadata}
use monio.Metadata
use monio.NetCdf.{NcLibrary, FileMode, DefinesNames}
use monio.File.{is_read, reading, writing, get_file}
use monio.File.Writes.{
  written_att, write_dimensions, write_variables, write_attributes, write_metadata,
}
use monio.File.Writes.Entries.{opened, FileSizes, FileNames, write_dims-AddsAll, write_atts-AddsAll}
use monio.File.Writes.Variables.{written_var, PointsTo, FileVariables, write_vars-AddsAll}
use monio.File.Reads.{read_dimensions, read_variables, read_attributes, read_metadata}
use monio.File.Reads.Entries.{read_dims-AddsAll, read_atts-AddsAll}
use monio.File.Reads.Variables.{
  numbered, values, numbered-IsSorted, OwnNames, PointsTo-numbered, read_vars-AddsAll,
}

module _ {N : Type 0} (nc : NcLibrary N) (defines : DefinesNames nc) where
  -- Metadata that a file can hold: `vs` are the variables that their pointers stand for.
  pub record Writable (h : Heap) (m : Metadata) (vs : Map Variable) : Type 0 where
    pub sizes : FileSizes nc defines FileMode.replace m.dimensions
    pub names : FileNames nc defines FileMode.replace m.global_attrs
    pub own : Named m.global_attrs
    pub points : PointsTo h m.variables vs
    pub own_names : OwnNames vs
    pub fits : FileVariables nc defines FileMode.replace (map_values to_size m.dimensions) vs
    pub dimensions-IsSorted : IsSorted m.dimensions
    pub global_attrs-IsSorted : IsSorted m.global_attrs
    pub variables-IsSorted : IsSorted vs

  -- The contents of a file are those of the metadata.
  abbrev pub Contains : N → Metadata → Map Variable → Type 0
  Contains n m vs =
      (nc.dims n ≡ map_values to_size m.dimensions)
      × (nc.vars n ≡ map_values written_var vs)
      × (nc.atts n ≡ map_values written_att m.global_attrs)

  -- A file without contents yet.
  abbrev pub IsNew : N → Type 0
  IsNew n = (nc.dims n ≡ []) × (nc.vars n ≡ []) × (nc.atts n ≡ [])

  pub write_metadata-Contains :
      (h : Heap) (m : Metadata) (vs : Map Variable) (n : N)
      → Writable h m vs
      → IsNew n
      → (n' : N) × (write_metadata nc h m (opened FileMode.replace n)
          ≡ (ok tt, opened FileMode.replace n'))
        × Contains n' m vs
  unfolding write_metadata write_dimensions write_variables write_attributes writing get_file
      is_read
  write_metadata-Contains h m vs n w (no_dims, no_vars, no_atts) =
      let mode = FileMode.replace in
      let sizes = map_values to_size m.dimensions in
      let variables = map_values written_var vs in
      let attributes = map_values written_att m.global_attrs in
      let (n₁, r₁, dims, v₁, a₁) =
        write_dims-AddsAll nc defines mode m.dimensions n w.sizes w.dimensions-IsSorted
          (rw no_dims (Apart-empty sizes)) in
      let all_dims : nc.dims n₁ ≡ sizes =
        AddsAll-eq sizes (nc.dims n₁)
          (map_values-IsSorted to_size m.dimensions w.dimensions-IsSorted)
          (defines.dims-IsSorted n₁) (rw no_dims at dims) in
      let still : nc.vars n₁ ≡ [] = v₁ ∙ no_vars in
      let (n₂, r₂, vars, d₂, a₂) =
        write_vars-AddsAll nc defines mode h sizes m.variables vs n₁ w.points all_dims w.fits
          w.variables-IsSorted (rw still (Apart-empty variables)) in
      let all_vars : nc.vars n₂ ≡ variables =
        AddsAll-eq variables (nc.vars n₂) (map_values-IsSorted written_var vs w.variables-IsSorted)
          (defines.vars-IsSorted n₂) (rw still at vars) in
      let none_yet : nc.atts n₂ ≡ [] = a₂ ∙ a₁ ∙ no_atts in
      let (n₃, r₃, atts, d₃, v₃) =
        write_atts-AddsAll nc defines mode m.global_attrs n₂ w.names w.own w.global_attrs-IsSorted
          (rw none_yet (Apart-empty attributes)) in
      let all_atts : nc.atts n₃ ≡ attributes =
        AddsAll-eq attributes (nc.atts n₃)
          (map_values-IsSorted written_att m.global_attrs w.global_attrs-IsSorted)
          (defines.atts-IsSorted n₃) (rw none_yet at atts) in
      (n₃, rw (no_dims, r₁, still, r₂, none_yet, r₃), (d₃ ∙ d₂ ∙ all_dims, v₃ ∙ all_vars, all_atts))

  -- What reading into empty metadata gives: the dimensions and the global attributes, and pointers to
  -- variables with the same values.
  abbrev pub ReadsBack : N → Heap → Metadata → Map Variable → Type 0
  ReadsBack n h m vs =
      (h' : Heap) × (m' : Metadata) × (read_metadata nc h Metadata.empty (opened FileMode.read n)
        ≡ (ok (h', m'), opened FileMode.read n))
      × (m'.dimensions ≡ m.dimensions)
      × (m'.global_attrs ≡ m.global_attrs)
      × PointsTo h' m'.variables vs

  pub read_metadata-Contains :
      (h h₀ : Heap) (m : Metadata) (vs : Map Variable) (n : N)
      → Writable h₀ m vs
      → Contains n m vs
      → ReadsBack n h m vs
  unfolding read_metadata read_dimensions read_variables read_attributes reading get_file is_read
  read_metadata-Contains h h₀ m vs n w (dims, vars, atts) =
      let mode = FileMode.replace in
      let (m₁, r₁, all₁, s₁, a₁, v₁) =
        read_dims-AddsAll nc defines mode m.dimensions Metadata.empty w.sizes w.dimensions-IsSorted
          (Apart-empty m.dimensions) tt in
      let sized : m₁.dimensions ≡ m.dimensions =
        AddsAll-eq m.dimensions m₁.dimensions w.dimensions-IsSorted s₁ all₁ in
      let (m₂, r₂, all₂, s₂, d₂, a₂) =
        read_vars-AddsAll nc defines mode m.dimensions vs h m₁ sized w.own_names w.fits
          w.variables-IsSorted (rw v₁ (Apart-empty (numbered (length h) vs))) (rw v₁ tt) in
      let pointers : m₂.variables ≡ numbered (length h) vs =
        AddsAll-eq (numbered (length h) vs) m₂.variables
          (numbered-IsSorted (length h) vs w.variables-IsSorted) s₂ (rw v₁ at all₂) in
      let none_yet : m₂.global_attrs ≡ [] = a₂ ∙ a₁ in
      let (m₃, r₃, all₃, s₃, d₃, v₃) =
        read_atts-AddsAll m.global_attrs m₂ w.own w.global_attrs-IsSorted
          (rw none_yet (Apart-empty m.global_attrs)) (rw none_yet tt) in
      (
        h ++ values vs,
        m₃,
        rw (dims, r₁, vars, r₂, atts, r₃),
        d₃ ∙ d₂ ∙ sized,
        AddsAll-eq m.global_attrs m₃.global_attrs w.global_attrs-IsSorted s₃ (rw none_yet at all₃),
        rw (v₃, pointers) (PointsTo-numbered h vs w.own_names),
      )

  -- What writeMetadata wrote into a new file, readMetadata reads back from it, into any heap: the same
  -- dimensions and global attributes, and under each name a variable with the same type, dimensions
  -- and attributes. The maps are in order, sizes are positive ints, names and types are those that a
  -- file can have, the dimensions of the variables are those of the metadata, the variables are
  -- well formed, and every variable and attribute stands under its own name.
  pub read_metadata-write_metadata :
      (h₀ h : Heap) (m : Metadata) (vs : Map Variable) (n : N)
      → Writable h₀ m vs
      → IsNew n
      → (n' : N) × (write_metadata nc h₀ m (opened FileMode.replace n)
          ≡ (ok tt, opened FileMode.replace n'))
        × ReadsBack n' h m vs
  read_metadata-write_metadata h₀ h m vs n w new =
      let (n', r, c) = write_metadata-Contains h₀ m vs n w new in
      (n', r, read_metadata-Contains h h₀ m vs n' w c)
