-- ===== src/AtlasWriter/Dimensions.antt =====
-- The dimensions of a field's variable.
use monio.Base.{
  ℕ, String, ◌≡◌, ◌≢◌, sym, ◌∙◌, [], ◌∷◌, some, pos, ◌==◌, nat_eq, int_eq, string_eq, ==_self,
  ==_iff, arith, ==_ne, if◌then◌else◌, Bool-cases, inl, inr,
}
use monio.Result.{ok, err, dimension_defined}
use monio.Constants.{not_found_error}
use monio.Map.{lookup, contains}
use monio.Variable.{Variable, has_dimension}
use monio.Variable
use monio.Metadata.{Metadata, is_dim_defined, get_dimension, get_dimension_name}
use monio.Atlas.Fields.{FieldLibrary}
use monio.AtlasWriter.Metadata.{
  dimension_name, add_sized_dimension, written_columns, add_variable_dimensions,
}

dimension_name-eq :
    (m : Metadata) (vert_config_name : String) (size value : ℕ)
    → vert_config_name ≢ ""
    → lookup vert_config_name m.dimensions ≡ some (pos value)
    → dimension_name m vert_config_name size
      ≡ ok (if size == value then vert_config_name else get_dimension_name m (pos size))
unfolding dimension_name is_dim_defined get_dimension contains
dimension_name-eq m vert_config_name size value named found =
    rw (==_ne vert_config_name "" named, found, contains, get_dimension)

add_sized_dimension-eq :
    (m : Metadata) (vert_config_name : String) (size : ℕ) (v : Variable) (name : String)
    → dimension_name m vert_config_name size ≡ ok name
    → name ≢ not_found_error
    → add_sized_dimension m vert_config_name size v ≡ Variable.add_dimension v name size
unfolding add_sized_dimension
add_sized_dimension-eq m vert_config_name size v name e known =
    rw (e, ==_ne name not_found_error known)

module _ {F : Type 0} (atlas : FieldLibrary F) where
  -- Let the metadata hold the levels of the field under the name of its vertical configuration, and,
  -- where it has not as many columns as levels, let another name be the first that they hold the
  -- columns under. Then a new variable gets the levels and after them the columns. A field with as many
  -- columns as levels is refused, whatever names the number has: both dimensions would get the name of
  -- the levels.
  pub add_variable_dimensions-eq :
      (f : F) (m : Metadata) (v : Variable) (vert_config_name : String)
      → v.dimensions ≡ []
      → vert_config_name ≢ ""
      → vert_config_name ≢ not_found_error
      → lookup vert_config_name m.dimensions ≡ some (pos (atlas.levels f))
      → (written_columns atlas f ≢ atlas.levels f
          → (get_dimension_name m (pos (written_columns atlas f)) ≢ not_found_error)
            × (get_dimension_name m (pos (written_columns atlas f)) ≢ vert_config_name))
      → add_variable_dimensions atlas f m v vert_config_name ≡ (
          if written_columns atlas f == atlas.levels f
          then err (dimension_defined vert_config_name)
          else ok (record v {
            dimensions =
                (vert_config_name, atlas.levels f)
                ∷ (get_dimension_name m (pos (written_columns atlas f)), written_columns atlas f)
                ∷ [];
          }))
  unfolding add_variable_dimensions Variable.add_dimension has_dimension
  add_variable_dimensions-eq f m v vert_config_name new named known held columns_found =
      let levels = atlas.levels f in
      let columns = written_columns atlas f in
      let name = get_dimension_name m (pos columns) in
      let sized : Variable = record v { dimensions = (vert_config_name, levels) ∷ [] } in
      let first : add_sized_dimension m vert_config_name levels v ≡ ok sized =
        add_sized_dimension-eq m vert_config_name levels v vert_config_name
          (dimension_name-eq m vert_config_name levels levels named held ∙ (rw (==_self levels)))
          known
        ∙ (rw new) in
      let second = dimension_name-eq m vert_config_name columns levels named held in
      rw first (elim (Bool-cases (columns == levels)) [
        | inl same ↦ rw same (
            add_sized_dimension-eq m vert_config_name columns sized vert_config_name
              (second ∙ (rw same)) known
            ∙ (rw (==_self vert_config_name)))
        | inr other ↦
            let (found, apart) = columns_found (λ p. ground (arith, ==_iff columns levels)) in
            rw other (
              add_sized_dimension-eq m vert_config_name columns sized name (second ∙ (rw other))
                found
              ∙ (rw (==_ne vert_config_name name (λ p. apart (sym p)))))
      ])
