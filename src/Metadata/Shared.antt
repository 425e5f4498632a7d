-- ===== src/Metadata/Shared.antt =====
-- deleteDimension changes the variables in place, for all who share them.
use monio.Base.{
  String, ◌≡◌, refl, ap, ◌∙◌, Bool, false, ◌||◌, none, some, [], ◌∷◌, arith, get_elem?,
  if◌then◌else◌, ◌==◌, nat_eq, string_eq, ==_iff, Bool-cases, Option-cases, inl, inr,
}
use monio.Map.{Map, lookup, contains}
use monio.Map.Laws.{lookup-erase}
use monio.Variable.{Variable}
use monio.Variable
use monio.Variable.Invariant.{delete_dimension-IsWf}
use monio.Variable.Laws.{delete_dimension_idem}
use monio.Heap.{Heap, Pointer, update}
use monio.Heap.Laws.{map_option, get_elem?-update, AllWf, AllWf-get, update-AllWf}
use monio.Metadata.{Metadata, delete_from_variables, delete_dimension}

-- The map holds the pointer.
abbrev pub points : Map Pointer → Pointer → Bool
points [] r = false
points ((k, p) ∷ variables) r = p == r || points variables r

abbrev drop : String → Variable → Variable
drop name v = Variable.delete_dimension v name

drop_idem :
    (h : Heap) (r : Pointer) (name : String)
    → AllWf h
    → map_option (drop name) (map_option (drop name) (get_elem? h r))
      ≡ map_option (drop name) (get_elem? h r)
drop_idem h r name w = elim (Option-cases (get_elem? h r)) [
  | inl gone ↦ rw gone
  | inr (v, e) ↦ rw e (ap some (delete_dimension_idem v name (AllWf-get h r v w e)))
]

pub delete_from_variables-AllWf :
    (name : String) (variables : Map Pointer) (h : Heap)
    → AllWf h
    → AllWf (delete_from_variables name variables h)
unfolding delete_from_variables
delete_from_variables-AllWf name [] h w = w
delete_from_variables-AllWf name ((k, p) ∷ variables) h w =
    delete_from_variables-AllWf name variables (update h p (drop name))
      (update-AllWf h p (drop name) (λ v. delete_dimension-IsWf v name) w)

delete_from_variables-get :
    (name : String) (variables : Map Pointer) (h : Heap) (r : Pointer)
    → AllWf h
    → get_elem? (delete_from_variables name variables h) r
      ≡ (if points variables r then map_option (drop name) (get_elem? h r) else get_elem? h r)
unfolding delete_from_variables
delete_from_variables-get name [] h r w = refl
delete_from_variables-get name ((k, p) ∷ variables) h r w =
    let here = get_elem?-update h p r (drop name) in
    let rest =
      delete_from_variables-get name variables (update h p (drop name)) r
        (update-AllWf h p (drop name) (λ v. delete_dimension-IsWf v name) w) in
    let twice = drop_idem h r name w in
    elim (Bool-cases (p == r)) [
      | inl same ↦ elim (Bool-cases (points variables r)) [
        | inl again ↦
            let at_r : get_elem? (update h p (drop name)) r
                ≡ map_option (drop name) (get_elem? h r) =
              rw same at here in
            rw same (rw again at rest ∙ ap (map_option (drop name)) at_r ∙ twice)
        | inr once ↦
            let at_r : get_elem? (update h p (drop name)) r
                ≡ map_option (drop name) (get_elem? h r) =
              rw same at here in
            rw same (rw once at rest ∙ at_r)
      ]
      | inr other ↦
          let at_r : get_elem? (update h p (drop name)) r ≡ get_elem? h r = rw other at here in
          rw (other, ← at_r) rest
    ]

abbrev pub DropsDimension : Heap → Metadata → String → Type 0
DropsDimension h m name =
    ((r : Pointer)
      → get_elem? (delete_dimension h m name).0 r ≡ (
          if points m.variables r
          then map_option (λ v. Variable.delete_dimension v name) (get_elem? h r)
          else get_elem? h r))
    × AllWf (delete_dimension h m name).0
    × ((k : String)
        → lookup k (delete_dimension h m name).1.dimensions
          ≡ (if name == k then none else lookup k m.dimensions))
    × ((delete_dimension h m name).1.variables ≡ m.variables)
    × ((delete_dimension h m name).1.global_attrs ≡ m.global_attrs)

-- deleteDimension takes the dimension out of the map and out of every variable of the metadata, in
-- place: every pointer that the metadata hold, through whichever FileData it is followed, leads to
-- the variable without the dimension. No other variable changes, and every variable stays well
-- formed.
pub delete_dimension-get :
    (h : Heap) (m : Metadata) (name : String) → AllWf h → DropsDimension h m name
unfolding delete_dimension
delete_dimension-get h m name w = (
  (λ r. delete_from_variables-get name m.variables h r w),
  delete_from_variables-AllWf name m.variables h w,
  (λ k. ground (arith, ==_iff name k, lookup-erase name k m.dimensions, missing k)),
  ground arith,
  ground arith,
)
  where
    missing :
        (k : String) → contains name m.dimensions ≡ false → name ≡ k → lookup k m.dimensions ≡ none
    missing k h e = rw (← e) (unfold contains in ground arith)
