-- ===== src/Heap/Laws.antt =====
-- Changes in place, and the variables that are all well formed.
use monio.Base.{
  zero, suc, ◌≡◌, ap, sym, ◌∙◌, ◌≢◌, Option, none, some, [], ◌∷◌, arith, get_elem?, set,
  if◌then◌else◌, ◌==◌, nat_eq, ==_iff, Bool-cases, Option-cases, inl, inr, lt_of_get_elem?,
  get_elem?-set_self, get_elem?-set_ne,
}
use monio.Variable.{Variable}
use monio.Variable.Invariant.{IsWf}
use monio.Heap.{Heap, Pointer, update}

abbrev pub map_option : {A : Type 0} → (A → A) → Option A → Option A
map_option f none = none
map_option f (some a) = some (f a)

update-none :
    (h : Heap) (p : Pointer) (f : Variable → Variable) → get_elem? h p ≡ none → update h p f ≡ h
unfolding update
update-none h p f e = rw (e, update)

update-some :
    (h : Heap) (p : Pointer) (f : Variable → Variable) (v : Variable)
    → get_elem? h p ≡ some v
    → update h p f ≡ set h p (f v)
unfolding update
update-some h p f v e = rw (e, update)

pub get_elem?-update :
    (h : Heap) (p r : Pointer) (f : Variable → Variable)
    → get_elem? (update h p f) r ≡ (if p == r then map_option f (get_elem? h r) else get_elem? h r)
get_elem?-update h p r f = elim (Option-cases (get_elem? h p)) [
  | inl gone ↦ elim (Bool-cases (p == r)) [
    | inl same ↦
        let at_r : p ≡ r = (==_iff p r).0 same in
        let gone' : get_elem? h r ≡ none = rw at_r at gone in
        rw (update-none h p f gone, same, gone')
    | inr other ↦ rw (update-none h p f gone, other)
  ]
  | inr (v, e) ↦ elim (Bool-cases (p == r)) [
    | inl same ↦
        let at_r : p ≡ r = (==_iff p r).0 same in
        let here : get_elem? h r ≡ some v = rw at_r at e in
        let put = get_elem?-set_self h p (f v) (lt_of_get_elem? h p v e) in
        rw (update-some h p f v e, same, here) (ap (get_elem? (set h p (f v))) (sym at_r) ∙ put)
    | inr other ↦
        let apart : p ≢ r = λ q. ground (arith, ==_iff p r) in
        rw (update-some h p f v e, other) (get_elem?-set_ne h p r (f v) apart)
  ]
]

-- Every variable is well formed.
abbrev pub AllWf : Heap → Type 0
AllWf [] = Unit {0}
AllWf (v ∷ h) = IsWf v × AllWf h

pub AllWf-get : (h : Heap) (p : Pointer) (v : Variable) → AllWf h → get_elem? h p ≡ some v → IsWf v
AllWf-get [] p v w e = cc
AllWf-get (u ∷ h) zero v w e = let q : u ≡ v = cc in rw q at w.0
AllWf-get (u ∷ h) (suc p) v w e = AllWf-get h p v w.1 e

AllWf-set : (h : Heap) (p : Pointer) (v : Variable) → AllWf h → IsWf v → AllWf (set h p v)
AllWf-set [] p v w k = tt
AllWf-set (u ∷ h) zero v w k = (k, w.1)
AllWf-set (u ∷ h) (suc p) v w k = (w.0, AllWf-set h p v w.1 k)

pub update-AllWf :
    (h : Heap) (p : Pointer) (f : Variable → Variable)
    → ((v : Variable) → IsWf v → IsWf (f v))
    → AllWf h
    → AllWf (update h p f)
update-AllWf h p f keep w = elim (Option-cases (get_elem? h p)) [
  | inl gone ↦ rw (update-none h p f gone) w
  | inr (v, e) ↦ rw (update-some h p f v e) (AllWf-set h p (f v) w (keep v (AllWf-get h p v w e)))
]
