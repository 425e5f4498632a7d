-- ===== src/File/Reads/Variables.antt =====
-- The loop of readVariables of src/monio/File.cc, over what writeVariables leaves.
use mathlib.Core.List.{append_assoc, append-nil}
use monio.Base.{
  ℕ, suc, String, ◌≡◌, refl, ◌∙◌, ap, true, List, [], ◌∷◌, ◌++◌, some, ℤ, arith, length, get_elem?,
  to_size, ◌==◌, string_eq, Bool-cases, inl, inr, subst, length-append,
}
use monio.Result.{ok}
use monio.Constants.{DataType, data_type_name}
use monio.Map.{Map, lookup, contains, insert}
use monio.Map.Laws.{lookup-insert}
use monio.Map.Sorted.{IsSorted, Above, map_values, insert-IsSorted}
use monio.Map.Adds.{
  Adds, AddsAll, Apart, Apart-empty, AddsAll-empty, AddsAll-cons, AddsAll-eq, Apart-Adds,
}
use monio.Variable.{Variable, make_variable, has_dimension}
use monio.Heap.{Heap, Pointer, make_shared, deref}
use monio.Metadata.{Metadata, add_variable, is_dim_defined}
use monio.Metadata.Additions.{contains-none}
use monio.NetCdf.{NcLibrary, FileMode, TypeName, DefinesNames}
use monio.File.Writes.Variables.{
  nc_type, written_var, KnownDims, PointsTo, FileVariable, FileVariables,
}
use monio.File.Reads.{variable_type, read_variable, read_vars}
use monio.File.Reads.Entries.{read_variable_atts-AddsAll, read_variable_dims-eq, AllDimsDefined}

-- The types that a file has come back.
variable_type-nc_type :
    (t : DataType) → TypeName (nc_type t) (data_type_name t) → variable_type (nc_type t) ≡ ok t
unfolding variable_type data_type_name
variable_type-nc_type DataType.double h = refl
variable_type-nc_type DataType.float h = refl
variable_type-nc_type DataType.int h = refl
variable_type-nc_type DataType.byte h = elim h [ ]
variable_type-nc_type DataType.char h = elim h [ ]
variable_type-nc_type DataType.short h = elim h [ ]
variable_type-nc_type DataType.ubyte h = elim h [ ]
variable_type-nc_type DataType.ushort h = elim h [ ]
variable_type-nc_type DataType.uint h = elim h [ ]
variable_type-nc_type DataType.uint64 h = elim h [ ]
variable_type-nc_type DataType.string h = elim h [ ]

known-defined :
    (m : Metadata) (d : String) (size : ℕ) (dims : Map ℤ)
    → lookup d (map_values to_size dims) ≡ some size
    → contains d dims ≡ true
unfolding lookup contains
known-defined m d size [] h = cc
known-defined m d size ((k, v) ∷ dims) h = elim (Bool-cases (k == d)) [
  | inl here ↦ rw (here, contains)
  | inr past ↦ rw (past, contains) (known-defined m d size dims (rw past at h))
]

KnownDims-AllDimsDefined :
    (m : Metadata) (dims : List (String × ℕ))
    → KnownDims (map_values to_size m.dimensions) dims
    → AllDimsDefined m dims
unfolding is_dim_defined
KnownDims-AllDimsDefined m [] h = tt
KnownDims-AllDimsDefined m ((d, size) ∷ dims) h =
    (known-defined m d size m.dimensions h.0, KnownDims-AllDimsDefined m dims h.1)

Variable-eq :
    (v w : Variable)
    → v.name ≡ w.name
    → v.type ≡ w.type
    → v.dimensions ≡ w.dimensions
    → v.attributes ≡ w.attributes
    → v ≡ w
Variable-eq v w p q r s = λ i. record { name = p i; type = q i; dimensions = r i; attributes = s i }

-- The pointers of variables that were made one after another.
pub numbered : ℕ → Map Variable → Map Pointer
numbered i [] = []
numbered i ((k, v) ∷ vs) = (k, i) ∷ numbered (suc i) vs

pub values : Map Variable → List Variable
values [] = []
values ((k, v) ∷ vs) = v ∷ values vs

-- Each variable is named as its entry.
abbrev pub OwnNames : Map Variable → Type 0
OwnNames [] = Unit {0}
OwnNames ((k, v) ∷ vs) = (v.name ≡ k) × OwnNames vs

numbered-Above : (k : String) (i : ℕ) (vs : Map Variable) → Above k vs → Above k (numbered i vs)
unfolding numbered
numbered-Above k i [] a = tt
numbered-Above k i ((j, v) ∷ vs) a = (a.0, numbered-Above k (suc i) vs a.1)

pub numbered-IsSorted : (i : ℕ) (vs : Map Variable) → IsSorted vs → IsSorted (numbered i vs)
unfolding numbered
numbered-IsSorted i [] s = tt
numbered-IsSorted i ((k, v) ∷ vs) s =
    (numbered-Above k (suc i) vs s.0, numbered-IsSorted (suc i) vs s.1)

get_elem?-last :
    (h : Heap) (v : Variable) (vs : List Variable) → get_elem? (h ++ v ∷ vs) (length h) ≡ some v
get_elem?-last [] v vs = refl
get_elem?-last (x ∷ h) v vs = get_elem?-last h v vs

length-next : (h : Heap) (v : Variable) → length (h ++ v ∷ []) ≡ suc (length h)
length-next h v = omega (arith, length-append {0} h (v ∷ []))

pub PointsTo-numbered :
    (h : Heap) (vs : Map Variable)
    → OwnNames vs
    → PointsTo (h ++ values vs) (numbered (length h) vs) vs
unfolding numbered values deref
PointsTo-numbered h [] own = tt
PointsTo-numbered h ((k, v) ∷ vs) own =
    let later = PointsTo-numbered (h ++ v ∷ []) vs own.1 in
    let same : (h ++ v ∷ []) ++ values vs ≡ h ++ v ∷ values vs =
      append_assoc h (v ∷ []) (values vs) in
    (
      (refl, own.0, rw (get_elem?-last h v (values vs), deref)),
      subst (λ (l : Heap). PointsTo l (numbered (suc (length h)) vs) vs) same
          (subst (λ (i : ℕ). PointsTo ((h ++ v ∷ []) ++ values vs) (numbered i vs) vs)
            (length-next h v) later),
    )

module _ {N : Type 0} (nc : NcLibrary N) (defines : DefinesNames nc) (mode : FileMode) where
  read_variable-eq :
      (h : Heap) (m : Metadata) (v : Variable)
      → FileVariable nc defines mode (map_values to_size m.dimensions) v
      → read_variable h m (written_var v) ≡ ok (h ++ v ∷ [], add_variable m v.name (length h))
  unfolding read_variable make_shared make_variable has_dimension
  read_variable-eq h m v fits =
      let sized : Variable = record (make_variable v.name v.type) { dimensions = v.dimensions } in
      let dims =
        read_variable_dims-eq m v.dimensions (make_variable v.name v.type)
          (KnownDims-AllDimsDefined m v.dimensions fits.known) fits.wf.distinct (λ k there. refl) in
      let (u, r, all, t, p, q, d) =
        read_variable_atts-AddsAll v.attributes sized fits.wf.named fits.wf.sorted
          (Apart-empty v.attributes) tt in
      let whole : u ≡ v =
        Variable-eq u v p q d (AddsAll-eq v.attributes u.attributes fits.wf.sorted t all) in
      rw (variable_type-nc_type v.type fits.typed, dims, r, whole)

  pub read_vars-AddsAll :
      (dims : Map ℤ) (vs : Map Variable) (h : Heap) (m : Metadata)
      → m.dimensions ≡ dims
      → OwnNames vs
      → FileVariables nc defines mode (map_values to_size dims) vs
      → IsSorted vs
      → Apart (numbered (length h) vs) m.variables
      → IsSorted m.variables
      → (m' : Metadata) × (read_vars (map_values written_var vs) h m ≡ ok (h ++ values vs, m'))
        × AddsAll (numbered (length h) vs) m.variables m'.variables
        × IsSorted m'.variables
        × (m'.dimensions ≡ m.dimensions)
        × (m'.global_attrs ≡ m.global_attrs)
  unfolding read_vars numbered values
  read_vars-AddsAll dims [] h m d own fits s new t =
      (m, rw append-nil, AddsAll-empty m.variables, t, refl, refl)
  read_vars-AddsAll dims ((k, v) ∷ vs) h m d own fits s new t =
      let m₁ : Metadata = record m { variables = insert k (length h) m.variables } in
      let added : add_variable m v.name (length h) ≡ m₁ =
        rw own.0 (unfold add_variable in rw (contains-none k m.variables new.0)) in
      let one : Adds k (length h) m.variables m₁.variables =
        λ j. lookup-insert k j (length h) m.variables new.0 in
      let first = read_variable-eq h m v (rw d fits.0) in
      let above = numbered-Above k (suc (length h)) vs s.0 in
      let apart =
        Apart-Adds k (length h) (numbered (suc (length h)) vs) m.variables m₁.variables above one
          new.1 in
      let next = length-next h v in
      let (m₂, r, all, t₂, d₂, a₂) =
        read_vars-AddsAll dims vs (h ++ v ∷ []) m₁ d own.1 fits.1 s.1 (rw next apart)
          (insert-IsSorted k (length h) m.variables t) in
      (
        m₂,
        rw (first, added) (r ∙ ap (λ (l : Heap). ok (l, m₂)) (append_assoc h (v ∷ []) (values vs))),
        AddsAll-cons k (length h) (numbered (suc (length h)) vs) m.variables m₁.variables
            m₂.variables above one (rw next at all),
        t₂,
        d₂,
        a₂,
      )
