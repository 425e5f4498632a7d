-- ===== src/Monio/JediData.antt =====
-- addJediData: two vertical coordinates, each complete.
use monio.Base.{
  ◌≢◌, ℕ, zero, suc, ◌+◌, String, ◌≡◌, refl, ◌∙◌, ap, [], ◌∷◌, ◌++◌, none, some, ℤ, pos, arith,
  string_eq, length, get_elem?, lt_of_get_elem?, length-append,
}
use monio.Result.{ok}
use monio.Constants.{
  DataType, vert_full_no_surf_name, vert_half_with_top_name, vert_full_no_surf_size,
  vert_half_with_top_size,
}
use monio.Values.{Double}
use monio.Map.{Map, lookup, contains, insert}
use monio.Variable.{
  Variable, attribute_string, attribute_name, has_dimension, make_variable, add_attribute,
}
use monio.Variable
use monio.Heap.{Heap, Pointer, make_shared}
use monio.Metadata.{Metadata, add_variable}
use monio.Metadata
use monio.Metadata.Additions.{
  lookup-two_dimensions, lookup-two_variables, lookup-two_containers, add_dimension-variables,
  add_variable-dimensions, add_dimension-global_attrs, add_variable-global_attrs,
}
use monio.Container.{Container, doubles, get_name, make_container, set_data}
use monio.Container.Datum.{get_elem?-append_last, get_elem?-append_left}
use monio.Data.{add_container}
use monio.FileData.{FileData}
use monio.Monio.{iota, jedi_variable, jedi_container, add_jedi_data}

length-iota : (n count : ℕ) → length (iota n count) ≡ count
unfolding iota
length-iota n zero = refl
length-iota n (suc count) = ap suc (length-iota (n + 2) count)

abbrev coordinate : String → ℕ → Variable
coordinate name size = record {
  name = name;
  type = DataType.double;
  dimensions = (name, size) ∷ [];
  attributes = ("name", attribute_string "name" name) ∷ [];
}

jedi_variable-eq : (name : String) (size : ℕ) → jedi_variable name size ≡ ok (coordinate name size)
unfolding jedi_variable make_variable Variable.add_dimension has_dimension add_attribute
    attribute_name contains lookup insert
jedi_variable-eq name size = refl

names_differ : vert_full_no_surf_name ≢ vert_half_with_top_name
names_differ p = cc

-- Two new variables in the heap, behind those that were there.
two_shared :
    (h : Heap) (v u : Variable)
    → ((p : Pointer) (w : Variable)
        → get_elem? h p ≡ some w
        → get_elem? ((h ++ v ∷ []) ++ u ∷ []) p ≡ some w)
      × (get_elem? ((h ++ v ∷ []) ++ u ∷ []) (length h) ≡ some v)
      × (get_elem? ((h ++ v ∷ []) ++ u ∷ []) (length (h ++ v ∷ [])) ≡ some u)
two_shared h v u =
    let h₁ = h ++ v ∷ [] in
    let size = length-append h (v ∷ []) in
    (
      (λ p w q.
          let inside = lt_of_get_elem? h p w q in
          get_elem?-append_left h₁ (u ∷ []) p (omega (arith, size))
          ∙ get_elem?-append_left h (v ∷ []) p inside
          ∙ q),
      get_elem?-append_left h₁ (u ∷ []) (length h) (omega (arith, size))
          ∙ get_elem?-append_last h v,
      get_elem?-append_last h₁ u,
    )

module _ {DateTime : Type 0} where
  -- A dimension, a variable along it, and as many values.
  abbrev pub HasCoordinate : Heap → FileData DateTime → String → ℕ → Type 0
  HasCoordinate h f name size =
      (p : Pointer) × (v : Variable) × (c : Container Double) × (lookup name f.metadata.dimensions
        ≡ some (pos size))
      × (lookup name f.metadata.variables ≡ some p)
      × (get_elem? h p ≡ some v)
      × (v.dimensions ≡ (name, size) ∷ [])
      × (lookup name f.data_held.data_containers ≡ some (doubles c))
      × (length c.data_vector ≡ size)

  -- A name that the file does not use yet.
  pub record Unused (f : FileData DateTime) (name : String) : Type 0 where
    pub dimension : lookup name f.metadata.dimensions ≡ none
    pub variable : lookup name f.metadata.variables ≡ none
    pub container : lookup name f.data_held.data_containers ≡ none

  -- Everything under another name than the two is as it was, and so is what has no name.
  abbrev pub KeepsRest : FileData DateTime → FileData DateTime → Type 0
  KeepsRest f f' =
      ((k : String)
        → k ≢ vert_full_no_surf_name
        → k ≢ vert_half_with_top_name
        → (lookup k f'.metadata.dimensions ≡ lookup k f.metadata.dimensions)
          × (lookup k f'.metadata.variables ≡ lookup k f.metadata.variables)
          × (lookup k f'.data_held.data_containers ≡ lookup k f.data_held.data_containers))
      × (f'.metadata.global_attrs ≡ f.metadata.global_attrs)
      × (f'.lfric_atlas_map ≡ f.lfric_atlas_map)
      × (f'.date_times ≡ f.date_times)

  abbrev pub AddsCoordinates : Heap → FileData DateTime → Type 0
  AddsCoordinates h f =
      (h' : Heap) × (f' : FileData DateTime) × (add_jedi_data h f ≡ ok (h', f'))
      × HasCoordinate h' f' vert_full_no_surf_name vert_full_no_surf_size
      × HasCoordinate h' f' vert_half_with_top_name vert_half_with_top_size
      × ((p : Pointer) (v : Variable) → get_elem? h p ≡ some v → get_elem? h' p ≡ some v)
      × KeepsRest f f'

  -- Where a file does not use the names of the two JEDI coordinates, addJediData succeeds and adds
  -- both: each has a dimension, a variable of that one dimension and a container of as many values.
  -- Every dimension, variable and container under another name stays as it was, the variables in the
  -- heap too, and so do the global attributes, the map and the date-times.
  pub add_jedi_data-HasCoordinate :
      (h : Heap) (f : FileData DateTime)
      → Unused f vert_full_no_surf_name
      → Unused f vert_half_with_top_name
      → AddsCoordinates h f
  unfolding add_jedi_data make_shared jedi_container set_data make_container get_name
  add_jedi_data-HasCoordinate h f full half_levels =
      let a = vert_full_no_surf_name in
      let b = vert_half_with_top_name in
      let v = coordinate a vert_full_no_surf_size in
      let u = coordinate b vert_half_with_top_size in
      let h₁ = h ++ v ∷ [] in
      let m₁ = Metadata.add_dimension f.metadata a (pos vert_full_no_surf_size) in
      let m₂ = Metadata.add_dimension m₁ b (pos vert_half_with_top_size) in
      let m₃ = add_variable m₂ a (length h) in
      let c = set_data (make_container {T = Double} a) (iota 2 vert_full_no_surf_size) in
      let e = set_data (make_container {T = Double} b) (iota 1 vert_half_with_top_size) in
      let dims : (add_variable m₃ b (length h₁)).dimensions ≡ m₂.dimensions =
        add_variable-dimensions m₃ b (length h₁) ∙ add_variable-dimensions m₂ a (length h) in
      let vars : m₂.variables ≡ f.metadata.variables =
        add_dimension-variables m₁ b (pos vert_half_with_top_size)
        ∙ add_dimension-variables f.metadata a (pos vert_full_no_surf_size) in
      let (dim_a, dim_b, dim_k) =
        lookup-two_dimensions f.metadata a b (pos vert_full_no_surf_size)
          (pos vert_half_with_top_size) names_differ full.dimension half_levels.dimension in
      let (var_a, var_b, var_k) =
        lookup-two_variables m₂ a b (length h) (length h₁) names_differ (rw vars full.variable)
          (rw vars half_levels.variable) in
      let (data_a, data_b, data_k) =
        lookup-two_containers f.data_held a b (doubles c) (doubles e) refl refl names_differ
          full.container half_levels.container in
      let (kept, at_v, at_u) = two_shared h v u in
      (
        h₁ ++ u ∷ [],
        record f {
          metadata = add_variable m₃ b (length h₁);
          data_held = add_container (add_container f.data_held (doubles c)) (doubles e);
        },
        rw (jedi_variable-eq a vert_full_no_surf_size, jedi_variable-eq b vert_half_with_top_size),
        (
          length h,
          v,
          c,
          ap (λ (x : Map ℤ). lookup a x) dims ∙ dim_a,
          var_a,
          at_v,
          refl,
          data_a,
          length-iota 2 vert_full_no_surf_size,
        ),
        (
          length h₁,
          u,
          e,
          ap (λ (x : Map ℤ). lookup b x) dims ∙ dim_b,
          var_b,
          at_u,
          refl,
          data_b,
          length-iota 1 vert_half_with_top_size,
        ),
        kept,
        (
          (λ k na nb. (
            ap (λ (x : Map ℤ). lookup k x) dims ∙ dim_k k na nb,
            var_k k na nb ∙ ap (λ (x : Map Pointer). lookup k x) vars,
            data_k k na nb,
          )),
          add_variable-global_attrs m₃ b (length h₁)
              ∙ add_variable-global_attrs m₂ a (length h)
              ∙ add_dimension-global_attrs m₁ b (pos vert_half_with_top_size)
              ∙ add_dimension-global_attrs f.metadata a (pos vert_full_no_surf_size),
          refl,
          refl,
        ),
      )
