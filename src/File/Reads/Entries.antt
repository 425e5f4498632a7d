-- ===== src/File/Reads/Entries.antt =====
-- The loops of readDimensions, readAttributes and readVariable of src/monio/File.cc, over what the
-- writing functions of the same file leave.
use mathlib.Core.List.{append_assoc, append-nil}
use monio.Base.{
  ℕ, String, ◌≡◌, refl, sym, ◌∙◌, ap, true, false, List, [], ◌∷◌, ◌++◌, ℤ, arith, to_size,
  to_size-pos, to_int32, to_int32-eq, ◌==◌, string_eq, ==_iff, ==_self,
}
use monio.Result.{ok}
use monio.Map.{Map, insert}
use monio.Map.Laws.{lookup-insert}
use monio.Map.Sorted.{IsSorted, map_values, insert-IsSorted}
use monio.Map.Adds.{Adds, AddsAll, Apart, AddsAll-empty, AddsAll-cons, Apart-Adds}
use monio.Variable.{
  Variable, Attribute, attribute_name, attribute_string, attribute_int, attribute_double,
  add_attribute, has_dimension,
}
use monio.Variable
use monio.Variable.Invariant.{Named, Distinct, has_dimension-append}
use monio.Metadata.{Metadata, add_dimension, add_global_attr, is_dim_defined}
use monio.Metadata.Additions.{contains-none}
use monio.NetCdf.{NcLibrary, FileMode, DefinesNames}
use monio.File.Writes.{written_att}
use monio.File.Writes.Entries.{FileSizes}
use monio.File.Reads.{read_dims, read_attribute, read_atts, read_variable_atts, read_variable_dims}

-- An attribute comes back in its class.
read_attribute-written_att :
    (name : String) (a : Attribute)
    → attribute_name a ≡ name
    → read_attribute name (written_att a) ≡ ok a
unfolding read_attribute written_att attribute_name
read_attribute-written_att name (attribute_double n v) e =
    ap (λ (k : String). ok (attribute_double k v)) (sym e)
read_attribute-written_att name (attribute_int n v) e =
    ap (λ (k : String). ok (attribute_int k v)) (sym e)
read_attribute-written_att name (attribute_string n v) e =
    ap (λ (k : String). ok (attribute_string k v)) (sym e)

pub read_atts-AddsAll :
    (atts : Map Attribute) (m : Metadata)
    → Named atts
    → IsSorted atts
    → Apart atts m.global_attrs
    → IsSorted m.global_attrs
    → (m' : Metadata) × (read_atts (map_values written_att atts) m ≡ ok m')
      × AddsAll atts m.global_attrs m'.global_attrs
      × IsSorted m'.global_attrs
      × (m'.dimensions ≡ m.dimensions)
      × (m'.variables ≡ m.variables)
unfolding read_atts add_global_attr
read_atts-AddsAll [] m own s new t = (m, refl, AddsAll-empty m.global_attrs, t, refl, refl)
read_atts-AddsAll ((name, a) ∷ atts) m own s new t =
    let m₁ : Metadata = record m { global_attrs = insert name a m.global_attrs } in
    let added : add_global_attr m name a ≡ m₁ =
      rw (contains-none name m.global_attrs new.0, add_global_attr) in
    let one : Adds name a m.global_attrs m₁.global_attrs =
      λ j. lookup-insert name j a m.global_attrs new.0 in
    let apart = Apart-Adds name a atts m.global_attrs m₁.global_attrs s.0 one new.1 in
    let (m₂, r, all, t₂, d, v) =
      read_atts-AddsAll atts m₁ own.1 s.1 apart (insert-IsSorted name a m.global_attrs t) in
    (
      m₂,
      rw (read_attribute-written_att name a own.0, own.0, added) r,
      AddsAll-cons name a atts m.global_attrs m₁.global_attrs m₂.global_attrs s.0 one all,
      t₂,
      d,
      v,
    )

pub read_variable_atts-AddsAll :
    (atts : Map Attribute) (v : Variable)
    → Named atts
    → IsSorted atts
    → Apart atts v.attributes
    → IsSorted v.attributes
    → (v' : Variable) × (read_variable_atts (map_values written_att atts) v ≡ ok v')
      × AddsAll atts v.attributes v'.attributes
      × IsSorted v'.attributes
      × (v'.name ≡ v.name)
      × (v'.type ≡ v.type)
      × (v'.dimensions ≡ v.dimensions)
unfolding read_variable_atts add_attribute
read_variable_atts-AddsAll [] v own s new t =
    (v, refl, AddsAll-empty v.attributes, t, refl, refl, refl)
read_variable_atts-AddsAll ((name, a) ∷ atts) v own s new t =
    let v₁ : Variable = record v { attributes = insert name a v.attributes } in
    let added : add_attribute v a ≡ ok v₁ =
      rw (own.0, contains-none name v.attributes new.0, add_attribute) in
    let one : Adds name a v.attributes v₁.attributes =
      λ j. lookup-insert name j a v.attributes new.0 in
    let apart = Apart-Adds name a atts v.attributes v₁.attributes s.0 one new.1 in
    let (v₂, r, all, t₂, p, q, u) =
      read_variable_atts-AddsAll atts v₁ own.1 s.1 apart (insert-IsSorted name a v.attributes t) in
    (
      v₂,
      rw (read_attribute-written_att name a own.0, added) r,
      AddsAll-cons name a atts v.attributes v₁.attributes v₂.attributes s.0 one all,
      t₂,
      p,
      q,
      u,
    )

abbrev pub AllDimsDefined : Metadata → List (String × ℕ) → Type 0
AllDimsDefined m [] = Unit {0}
AllDimsDefined m ((d, size) ∷ dims) = (is_dim_defined m d ≡ true) × AllDimsDefined m dims

pub read_variable_dims-eq :
    (m : Metadata) (dims : List (String × ℕ)) (v : Variable)
    → AllDimsDefined m dims
    → Distinct dims
    → ((k : String) → has_dimension k dims ≡ true → has_dimension k v.dimensions ≡ false)
    → read_variable_dims m dims v ≡ ok (record v { dimensions = v.dimensions ++ dims })
unfolding read_variable_dims has_dimension Variable.add_dimension
read_variable_dims-eq m [] v h d new = rw append-nil
read_variable_dims-eq m ((name, size) ∷ dims) v h d new =
    let v₁ : Variable = record v { dimensions = v.dimensions ++ (name, size) ∷ [] } in
    let fresh : has_dimension name v.dimensions ≡ false = new name (rw (==_self name)) in
    let added : Variable.add_dimension v name size ≡ ok v₁ = rw (fresh, Variable.add_dimension) in
    let rest = read_variable_dims-eq m dims v₁ h.1 d.1 (λ k there.
      let apart : (name == k) ≡ false = ground (arith, ==_iff name k, d.0) in
      let before : has_dimension k v.dimensions ≡ false = new k (rw apart there) in
      has_dimension-append k name size v.dimensions ∙ (rw (before, apart))) in
    rw (h.0, added)
      (rest
        ∙ ap (λ (l : List (String × ℕ)). ok (record v { dimensions = l }))
            (append_assoc v.dimensions ((name, size) ∷ []) dims))

module _ {N : Type 0} (nc : NcLibrary N) (defines : DefinesNames nc) (mode : FileMode) where
  pub read_dims-AddsAll :
      (dims : Map ℤ) (m : Metadata)
      → FileSizes nc defines mode dims
      → IsSorted dims
      → Apart dims m.dimensions
      → IsSorted m.dimensions
      → (m' : Metadata) × (read_dims (map_values to_size dims) m ≡ m')
        × AddsAll dims m.dimensions m'.dimensions
        × IsSorted m'.dimensions
        × (m'.global_attrs ≡ m.global_attrs)
        × (m'.variables ≡ m.variables)
  unfolding read_dims add_dimension
  read_dims-AddsAll [] m h s new t = (m, refl, AddsAll-empty m.dimensions, t, refl, refl)
  read_dims-AddsAll ((name, value) ∷ dims) m h s new t =
      let ((named, (size, e, positive, small)), others) = h in
      let back : to_int32 (to_size value) ≡ value =
        rw (e, to_size-pos size small) (to_int32-eq size small) in
      let m₁ : Metadata = record m { dimensions = insert name value m.dimensions } in
      let added : add_dimension m name value ≡ m₁ =
        rw (contains-none name m.dimensions new.0, add_dimension) in
      let one : Adds name value m.dimensions m₁.dimensions =
        λ j. lookup-insert name j value m.dimensions new.0 in
      let apart = Apart-Adds name value dims m.dimensions m₁.dimensions s.0 one new.1 in
      let (m₂, r, all, t₂, a, v) =
        read_dims-AddsAll dims m₁ others s.1 apart (insert-IsSorted name value m.dimensions t) in
      (
        m₂,
        ap (λ (x : Metadata). read_dims (map_values to_size dims) x)
              (ap (λ (z : ℤ). add_dimension m name z) back ∙ added)
            ∙ r,
        AddsAll-cons name value dims m.dimensions m₁.dimensions m₂.dimensions s.0 one all,
        t₂,
        a,
        v,
      )
