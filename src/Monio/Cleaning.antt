-- ===== src/Monio/Cleaning.antt =====
-- cleanFileData, whose deletions cannot fail.
use monio.Base.{
  String, ◌≡◌, refl, ◌∙◌, ap, sym, Bool, true, false, [], Option, none, some, arith, ◌==◌,
  string_eq, ==_iff, ==_self, get_elem?, if◌then◌else◌, Bool-cases, inl, inr,
}
use monio.Result.{ok}
use monio.Constants.{time_dim_name, tile_dim_name, time_var_name, tile_var_name}
use monio.Map.{Map, lookup, contains}
use monio.Map.Laws.{lookup-erase}
use monio.Map.Sorted.{IsSorted}
use monio.Utils.{extract_keys}
use monio.Utils.Keys.{
  erase_unlisted, lookup-erase_unlisted, lookup_unlisted, extract_keys-Present,
  find_in_vector-extract_keys,
}
use monio.Variable.{Variable, has_dimension}
use monio.Variable
use monio.Variable.Laws.{has_dimension-delete_dimension}
use monio.Variable.Invariant.{IsWf, delete_dimension-IsWf}
use monio.Heap.{Heap, Pointer}
use monio.Heap.Laws.{map_option, AllWf, AllWf-get}
use monio.Metadata.{Metadata, clear_global_attributes, get_variable_names}
use monio.Metadata
use monio.Metadata.Removal.{remove_keys-eq}
use monio.Metadata.Shared.{points, delete_dimension-get}
use monio.Data.{Data, delete_container, get_data_container_names, is_container_present}
use monio.FileData.{FileData}
use monio.Monio.{clean_file_data}

lookup-delete_container :
    (d : Data) (name other : String)
    → lookup other (delete_container d name).data_containers
      ≡ (if name == other then none else lookup other d.data_containers)
unfolding delete_container contains
lookup-delete_container d name other =
    ground (arith, lookup-erase name other d.data_containers, ==_iff name other)

is_container_present-delete_container :
    (d : Data) (name other : String)
    → is_container_present (delete_container d name) other
      ≡ (if name == other then false else is_container_present d other)
unfolding is_container_present delete_container contains
is_container_present-delete_container d name other =
    ground (arith, lookup-erase name other d.data_containers, ==_iff name other)

-- What is left of the variables are those with a container.
lookup-left :
    (kept : Data) (variables : Map Pointer) (k : String)
    → lookup k
        (erase_unlisted (extract_keys kept.data_containers) (extract_keys variables) variables)
      ≡ (if is_container_present kept k then lookup k variables else none)
unfolding is_container_present
lookup-left kept variables k = ground (
  arith,
  lookup-erase_unlisted (extract_keys kept.data_containers) (extract_keys variables) k variables,
  lookup_unlisted k variables,
  find_in_vector-extract_keys k kept.data_containers,
)

-- Neither of the two dimensions is left.
timeless :
    (u : Variable) (o : Option Variable) (a b : String)
    → ((w : Variable) → o ≡ some w → IsWf w)
    → map_option
        (λ w. Variable.delete_dimension w b)
        (map_option (λ w. Variable.delete_dimension w a) o)
      ≡ some u
    → (has_dimension a u.dimensions ≡ false) × (has_dimension b u.dimensions ≡ false)
timeless u none a b wf e = absurd cc
timeless u (some w) a b wf e =
    let w' = Variable.delete_dimension w a in
    let held = wf w refl in
    let same : u ≡ Variable.delete_dimension w' b = cc in
    let first = has_dimension-delete_dimension w a a held in
    let then_a = has_dimension-delete_dimension w' b a (delete_dimension-IsWf w a held) in
    let then_b = has_dimension-delete_dimension w' b b (delete_dimension-IsWf w a held) in
    rw same (ground (arith, first, then_a, ==_self a, ==_self b), ground (arith, then_b, ==_self b))

module _ {DateTime : Type 0} where
  abbrev pub Cleans : Heap → FileData DateTime → Type 0
  Cleans h f =
      (h' : Heap) × (f' : FileData DateTime) × (clean_file_data h f ≡ ok (h', f'))
      × (f'.metadata.global_attrs ≡ [])
      × (f'.lfric_atlas_map ≡ f.lfric_atlas_map)
      × (f'.date_times ≡ f.date_times)
      × ((k : String)
          → lookup k f'.metadata.dimensions ≡ (
              if tile_dim_name == k
              then none
              else if time_dim_name == k
              then none
              else lookup k f.metadata.dimensions))
      × ((k : String)
          → lookup k f'.data_held.data_containers ≡ (
              if tile_var_name == k
              then none
              else if time_var_name == k
              then none
              else lookup k f.data_held.data_containers))
      × ((k : String)
          → is_container_present f'.data_held k ≡ (
              if tile_var_name == k
              then false
              else if time_var_name == k
              then false
              else is_container_present f.data_held k))
      × ((k : String)
          → lookup k f'.metadata.variables
            ≡ (if is_container_present f'.data_held k then lookup k f.metadata.variables else none))
      × ((r : Pointer)
          → get_elem? h' r ≡ (
              if points f.metadata.variables r
              then map_option (λ v. Variable.delete_dimension v tile_dim_name)
                  (map_option (λ v. Variable.delete_dimension v time_dim_name) (get_elem? h r))
              else get_elem? h r))
      × ((r : Pointer) (v : Variable)
          → points f.metadata.variables r ≡ true
          → get_elem? h' r ≡ some v
          → (has_dimension time_dim_name v.dimensions ≡ false)
            × (has_dimension tile_dim_name v.dimensions ≡ false))

  -- cleanFileData never fails. It drops the global attributes, the time and tile dimensions, the
  -- time and tile containers, and every pointer to a variable without a container; the other
  -- dimensions, containers and pointers, the map and the date-times are as they were. In the heap,
  -- each variable that the metadata pointed to, and so each that another file shares with them, has
  -- lost the time and the tile dimension and nothing else, and all other variables are as they were.
  pub clean_file_data-Cleans :
      (h : Heap) (f : FileData DateTime) → AllWf h → IsSorted f.metadata.variables → Cleans h f
  unfolding clean_file_data clear_global_attributes get_variable_names get_data_container_names
  clean_file_data-Cleans h f w s =
      let m = clear_global_attributes f.metadata in
      let (get₁, wf₁, dims₁, vars₁, attrs₁) = delete_dimension-get h m time_dim_name w in
      let h₁ = (Metadata.delete_dimension h m time_dim_name).0 in
      let m₁ = (Metadata.delete_dimension h m time_dim_name).1 in
      let (get₂, wf₂, dims₂, vars₂, attrs₂) = delete_dimension-get h₁ m₁ tile_dim_name wf₁ in
      let h₂ = (Metadata.delete_dimension h₁ m₁ tile_dim_name).0 in
      let m₂ = (Metadata.delete_dimension h₁ m₁ tile_dim_name).1 in
      let kept = delete_container (delete_container f.data_held time_var_name) tile_var_name in
      let names = extract_keys kept.data_containers in
      let keys = extract_keys m₂.variables in
      let same : m₂.variables ≡ f.metadata.variables = vars₂ ∙ vars₁ in
      let sorted : IsSorted m₂.variables = rw same s in
      let left = erase_unlisted names keys m₂.variables in
      (
        h₂,
        record f { metadata = record m₂ { variables = left }; data_held = kept },
        rw (remove_keys-eq names keys m₂ (extract_keys-Present m₂.variables sorted)),
        attrs₂ ∙ attrs₁,
        refl,
        refl,
        (λ k. dims₂ k ∙ ap (λ (o : Option _). if tile_dim_name == k then none else o) (dims₁ k)),
        (λ k.
            lookup-delete_container (delete_container f.data_held time_var_name) tile_var_name k
            ∙ ap (λ (o : Option _). if tile_var_name == k then none else o)
                (lookup-delete_container f.data_held time_var_name k)),
        (λ k.
            is_container_present-delete_container (delete_container f.data_held time_var_name)
              tile_var_name k
            ∙ ap (λ (o : Bool). if tile_var_name == k then false else o)
                (is_container_present-delete_container f.data_held time_var_name k)),
        (λ k.
            ap (λ (vs : Map Pointer). lookup k (erase_unlisted names (extract_keys vs) vs)) same
            ∙ lookup-left kept f.metadata.variables k),
        (λ r.
            let then_get = get₂ r in
            let first_get = get₁ r in
            elim (Bool-cases (points f.metadata.variables r)) [
              | inl there ↦
                  let at_m₁ : points m₁.variables r ≡ true = rw vars₁ there in
                  rw there (
                    (rw at_m₁ at then_get)
                    ∙ ap (map_option (λ v. Variable.delete_dimension v tile_dim_name))
                        (rw there at first_get))
              | inr apart ↦
                  let at_m₁ : points m₁.variables r ≡ false = rw vars₁ apart in
                  rw apart ((rw at_m₁ at then_get) ∙ (rw apart at first_get))
            ]),
        (λ r v there e.
            let at_m₁ : points m₁.variables r ≡ true = rw vars₁ there in
            let then_get = get₂ r in
            let first_get = get₁ r in
            let both = rw at_m₁ at then_get in
            timeless v (get_elem? h r) time_dim_name tile_dim_name (λ u q. AllWf-get h r u w q)
              (ap (map_option (λ u. Variable.delete_dimension u tile_dim_name))
                  (sym (rw there at first_get))
                ∙ sym both
                ∙ e)),
      )
