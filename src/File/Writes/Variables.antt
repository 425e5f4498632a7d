-- ===== src/File/Writes/Variables.antt =====
-- The loop of writeVariables of src/monio/File.cc, into a file that has no variables yet.
use monio.Base.{
  ℕ, String, ◌≡◌, refl, sym, ◌∙◌, ap, List, map, [], ◌∷◌, none, some, ◌==◌, string_eq,
  if◌then◌else◌, ==_iff, ==_self, Bool-cases, inl, inr,
}
use monio.Result.{ok}
use monio.Constants.{DataType, data_type_name}
use monio.Map.{Map, lookup, contains}
use monio.Map.Sorted.{IsSorted, map_values, map_values-Above, map_values-IsSorted}
use monio.Map.Adds.{
  Adds, AddsAll, Apart, Apart-empty, AddsAll-empty, AddsAll-cons, AddsAll-eq, Apart-Adds,
}
use monio.Variable.{Variable, Attribute, get_dimension_names}
use monio.Variable.Invariant.{Named, IsWf}
use monio.Heap.{Heap, Pointer, deref}
use monio.NetCdf.{
  NcLibrary, FileMode, NcVar, NcType, nc_double, nc_float, nc_int, nc_other, TypeName, DefinesNames,
  AllDefined, resolved,
}
use monio.File.Writes.{written_att, write_variable_atts, write_variable, write_vars}
use monio.File.Writes.Entries.{opened, on_nc-eq, FileNames}

-- The type of the file for a type of the code; the others have none.
abbrev pub nc_type : DataType → NcType
nc_type DataType.double = nc_double
nc_type DataType.float = nc_float
nc_type DataType.int = nc_int
nc_type type = nc_other (data_type_name type)

abbrev pub written_var : Variable → NcVar
written_var v = record {
  name = v.name;
  type = nc_type v.type;
  dims = v.dimensions;
  atts = map_values written_att v.attributes;
}

-- The dimensions of a variable are those of the file.
abbrev pub KnownDims : Map ℕ → List (String × ℕ) → Type 0
KnownDims dims [] = Unit {0}
KnownDims dims ((d, size) ∷ rest) = (lookup d dims ≡ some size) × KnownDims dims rest

-- The pointers of the metadata, and the variables that stand there, each under its name.
abbrev pub PointsTo : Heap → Map Pointer → Map Variable → Type 0
PointsTo h [] [] = Unit {0}
PointsTo h [] (v ∷ vs) = ⊥
PointsTo h (p ∷ ps) [] = ⊥
PointsTo h ((name, p) ∷ ps) ((key, v) ∷ vs) =
    ((key ≡ name) × (v.name ≡ name) × (deref h p ≡ ok v)) × PointsTo h ps vs

resolved-KnownDims :
    (dims : Map ℕ) (rest : List (String × ℕ))
    → KnownDims dims rest
    → AllDefined dims (map (λ d. d.0) rest) × (resolved dims (map (λ d. d.0) rest) ≡ rest)
resolved-KnownDims dims [] h = (tt, refl)
resolved-KnownDims dims ((d, size) ∷ rest) h =
    let (known, same) = resolved-KnownDims dims rest h.1 in
    (((size, h.0), known), rw (h.0, resolved) (ap (λ (r : List (String × ℕ)). (d, size) ∷ r) same))

NcVar-eq :
    (v w : NcVar) → v.name ≡ w.name → v.type ≡ w.type → v.dims ≡ w.dims → v.atts ≡ w.atts → v ≡ w
NcVar-eq v w p q r s = λ i. record { name = p i; type = q i; dims = r i; atts = s i }

module _ {N : Type 0} (nc : NcLibrary N) (defines : DefinesNames nc) (mode : FileMode) where
  write_variable_atts-AddsAll :
      (var : String) (atts : Map Attribute) (n : N) (v : NcVar)
      → lookup var (nc.vars n) ≡ some v
      → FileNames nc defines mode atts
      → Named atts
      → IsSorted atts
      → Apart (map_values written_att atts) v.atts
      → IsSorted v.atts
      → (n' : N) × (v' : NcVar) × (write_variable_atts nc var atts (opened mode n)
          ≡ (ok tt, opened mode n'))
        × (nc.dims n' ≡ nc.dims n)
        × Adds var v' (nc.vars n) (nc.vars n')
        × (nc.atts n' ≡ nc.atts n)
        × ((v'.name ≡ v.name)
            × (v'.type ≡ v.type)
            × (v'.dims ≡ v.dims)
            × IsSorted v'.atts
            × AddsAll (map_values written_att atts) v.atts v'.atts)
  unfolding write_variable_atts
  write_variable_atts-AddsAll var [] n v found h own s new t =
      (n, v, refl, refl, kept, refl, (refl, refl, refl, t, AddsAll-empty v.atts))
    where
      kept : Adds var v (nc.vars n) (nc.vars n)
      kept k = elim (Bool-cases (var == k)) [
        | inl here ↦ rw here (rw ((==_iff var k).0 here) at found)
        | inr past ↦ rw past
      ]
  write_variable_atts-AddsAll var ((name, a) ∷ atts) n v found h own s new t =
      let (n₁, v₁, r, d₁, one, a₁, p₁, q₁, u₁, t₁, add) =
        defines.put_var_att-defines n var name v (written_att a) h.0 found new.0 t in
      let above = map_values-Above written_att name atts s.0 in
      let apart =
        Apart-Adds name (written_att a) (map_values written_att atts) v.atts v₁.atts above add
          new.1 in
      let found₁ : lookup var (nc.vars n₁) ≡ some v₁ = one var ∙ (rw (==_self var)) in
      let (n₂, v₂, r₂, d₂, two, a₂, (p₂, q₂, u₂, t₂, all)) =
        write_variable_atts-AddsAll var atts n₁ v₁ found₁ h.1 own.1 s.1 apart t₁ in
      (
        n₂,
        v₂,
        rw (own.0, on_nc-eq mode n n₁ (λ m. nc.put_var_att m var name (written_att a)) r) r₂,
        d₂ ∙ d₁,
        (λ k. elim (Bool-cases (var == k)) [
          | inl here ↦ two k ∙ (rw here)
          | inr past ↦ two k ∙ rw past (one k ∙ (rw past))
        ]),
        a₂ ∙ a₁,
        (
          p₂ ∙ p₁,
          q₂ ∙ q₁,
          u₂ ∙ u₁,
          t₂,
          AddsAll-cons name (written_att a) (map_values written_att atts) v.atts v₁.atts v₂.atts
              above add all,
        ),
      )

  -- A variable that a file with these dimensions can have.
  pub record FileVariable (dims : Map ℕ) (v : Variable) : Type 0 where
    pub named : defines.IsName v.name
    pub typed : TypeName (nc_type v.type) (data_type_name v.type)
    pub known : KnownDims dims v.dimensions
    pub atts_named : FileNames nc defines mode v.attributes
    pub wf : IsWf v

  pub write_variable-Adds :
      (n : N) (v : Variable)
      → FileVariable (nc.dims n) v
      → lookup v.name (nc.vars n) ≡ none
      → (n' : N) × (write_variable nc v (opened mode n) ≡ (ok tt, opened mode n'))
        × Adds v.name (written_var v) (nc.vars n) (nc.vars n')
        × (nc.dims n' ≡ nc.dims n)
        × (nc.atts n' ≡ nc.atts n)
  unfolding write_variable get_dimension_names
  write_variable-Adds n v h new =
      let names = get_dimension_names v in
      let (defined, same) = resolved-KnownDims (nc.dims n) v.dimensions h.known in
      let (n₁, r, d₁, one, a₁) =
        defines.add_var-defines n v.name (nc_type v.type) (data_type_name v.type) names h.named
          h.typed defined new in
      let v₁ : NcVar = record {
        name = v.name;
        type = nc_type v.type;
        dims = resolved (nc.dims n) names;
        atts = [];
      } in
      let found : lookup v.name (nc.vars n₁) ≡ some v₁ = one v.name ∙ (rw (==_self v.name)) in
      let written = map_values written_att v.attributes in
      let (n₂, v₂, r₂, d₂, two, a₂, (p₂, q₂, u₂, t₂, all)) =
        write_variable_atts-AddsAll v.name v.attributes n₁ v₁ found h.atts_named h.wf.named
          h.wf.sorted (Apart-empty written) tt in
      let attributes =
        AddsAll-eq written v₂.atts (map_values-IsSorted written_att v.attributes h.wf.sorted) t₂
          all in
      let whole : v₂ ≡ written_var v = NcVar-eq v₂ (written_var v) p₂ q₂ (u₂ ∙ same) attributes in
      (
        n₂,
        rw (on_nc-eq mode n n₁ (λ m. nc.add_var m v.name (data_type_name v.type) names) r) r₂,
        (λ k. elim (Bool-cases (v.name == k)) [
          | inl here ↦ two k ∙ rw here (ap some whole)
          | inr past ↦ two k ∙ rw past (one k ∙ (rw past))
        ]),
        d₂ ∙ d₁,
        a₂ ∙ a₁,
      )

  abbrev pub FileVariables : Map ℕ → Map Variable → Type 0
  FileVariables dims [] = Unit {0}
  FileVariables dims ((name, v) ∷ vs) = FileVariable dims v × FileVariables dims vs

  pub write_vars-AddsAll :
      (h : Heap) (dims : Map ℕ) (ps : Map Pointer) (vs : Map Variable) (n : N)
      → PointsTo h ps vs
      → nc.dims n ≡ dims
      → FileVariables dims vs
      → IsSorted vs
      → Apart (map_values written_var vs) (nc.vars n)
      → (n' : N) × (write_vars nc h [] ps (opened mode n) ≡ (ok tt, opened mode n'))
        × AddsAll (map_values written_var vs) (nc.vars n) (nc.vars n')
        × (nc.dims n' ≡ nc.dims n)
        × (nc.atts n' ≡ nc.atts n)
  unfolding write_vars contains lookup
  write_vars-AddsAll h dims [] [] n at d f s new = (n, refl, AddsAll-empty (nc.vars n), refl, refl)
  write_vars-AddsAll h dims [] (v ∷ vs) n at d f s new = absurd at
  write_vars-AddsAll h dims (p ∷ ps) [] n at d f s new = absurd at
  write_vars-AddsAll h dims ((name, p) ∷ ps) ((key, v) ∷ vs) n at d f s new =
      let ((same, own, there), rest) = at in
      let keyed : v.name ≡ key = own ∙ sym same in
      let fits : FileVariable (nc.dims n) v = rw d f.0 in
      let fresh : lookup v.name (nc.vars n) ≡ none = rw keyed new.0 in
      let (n₁, r, one, d₁, a₁) = write_variable-Adds n v fits fresh in
      let one' : Adds key (written_var v) (nc.vars n) (nc.vars n₁) = λ j.
        one j
        ∙ ap (λ (k : String). if k == j then some (written_var v) else lookup j (nc.vars n))
            keyed in
      let above = map_values-Above written_var key vs s.0 in
      let apart =
        Apart-Adds key (written_var v) (map_values written_var vs) (nc.vars n) (nc.vars n₁) above
          one' new.1 in
      let (n₂, r₂, all, d₂, a₂) = write_vars-AddsAll h dims ps vs n₁ rest (d₁ ∙ d) f.1 s.1 apart in
      (
        n₂,
        rw (there, r) r₂,
        AddsAll-cons key (written_var v) (map_values written_var vs) (nc.vars n) (nc.vars n₁)
            (nc.vars n₂) above one' all,
        d₂ ∙ d₁,
        a₂ ∙ a₁,
      )
