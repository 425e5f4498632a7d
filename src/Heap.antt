-- ===== src/Heap.antt =====
-- The variables that std::shared_ptr<Variable> points to. A Metadata holds pointers, so that a copy
-- of a FileData shares its variables with the original. A pointer is the index of its variable;
-- nothing is freed while a pointer is left, so indices are not used again.
pub mod Laws
pub mod Trims
use monio.Base.{
  ℕ, ◌≡◌, refl, List, [], ◌∷◌, ◌++◌, Option, none, some, length, get_elem?, set, ◌⊎◌, inl, inr,
  Option-cases,
}
use monio.Result.{Result, ok, err, Error, undefined_access}
use monio.Variable.{Variable}

abbrev pub Pointer : Type 0
Pointer = ℕ

abbrev pub Heap : Type 0
Heap = List Variable

-- std::make_shared<Variable>
unfoldable pub make_shared : Heap → Variable → Pointer × Heap
make_shared h v = (length h, h ++ v ∷ [])

unfoldable pub deref : Heap → Pointer → Result Variable
deref h p = elim (get_elem? h p) [ none ↦ err undefined_access | some v ↦ ok v ]

-- A member function that changes the variable in place.
unfoldable pub update : Heap → Pointer → (Variable → Variable) → Heap
update h p f = elim (get_elem? h p) [ none ↦ h | some v ↦ set h p (f v) ]

pub deref-cases :
    (h : Heap) (p : Pointer)
    → (deref h p ≡ err undefined_access) ⊎ ((v : Variable) × (deref h p ≡ ok v))
unfolding deref
deref-cases h p = elim (Option-cases (get_elem? h p)) [
  | inl e ↦ inl (rw (e, deref))
  | inr (v, e) ↦ inr (v, rw (e, deref))
]

pub deref-eq-err : (h : Heap) (p : Pointer) (e : Error) → deref h p ≡ err e → undefined_access ≡ e
unfolding deref
deref-eq-err h p e q = elim (Option-cases (get_elem? h p)) [
  | inl gone ↦ cc (rw (deref, gone) at q)
  | inr (v, there) ↦ let bad : ok v ≡ err e = rw (deref, there) at q in absurd cc
]
