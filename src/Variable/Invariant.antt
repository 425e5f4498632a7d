-- ===== src/Variable/Invariant.antt =====
-- The invariant of a variable, and that every operation keeps it.
use monio.Base.{
  ℕ, String, ◌≡◌, refl, true, false, List, [], ◌∷◌, ◌++◌, arith, ◌==◌, string_eq, ==_iff,
  if◌then◌else◌, Bool-cases, inl, inr,
}
use monio.Result.{Result, ok, err, ◌>>=◌}
use monio.Constants.{DataType}
use monio.Map.{Map, insert, erase, contains}
use monio.Map.Sorted.{IsSorted, insert-IsSorted, erase-IsSorted}
use monio.Variable.{
  Attribute, Variable, attribute_name, has_dimension, erase_dimension, add_dimension, add_attribute,
  delete_dimension, delete_attribute, make_variable,
}

-- No two dimensions have one name.
abbrev pub Distinct : List (String × ℕ) → Type 0
Distinct [] = Unit {0}
Distinct ((n, size) ∷ dims) = (has_dimension n dims ≡ false) × Distinct dims

-- Every attribute stands under its own name.
abbrev pub Named : Map Attribute → Type 0
Named [] = Unit {0}
Named ((k, a) ∷ m) = (attribute_name a ≡ k) × Named m

pub record IsWf (v : Variable) : Type 0 where
  pub distinct : Distinct v.dimensions
  pub sorted : IsSorted v.attributes
  pub named : Named v.attributes

pub has_dimension-append :
    (k n : String) (size : ℕ) (dims : List (String × ℕ))
    → has_dimension k (dims ++ (n, size) ∷ []) ≡ (if has_dimension k dims then true else n == k)
unfolding has_dimension
has_dimension-append k n size [] = ground arith
has_dimension-append k n size ((m, s) ∷ dims) = ground (arith, has_dimension-append k n size dims)

Distinct-append :
    (n : String) (size : ℕ) (dims : List (String × ℕ))
    → has_dimension n dims ≡ false
    → Distinct dims
    → Distinct (dims ++ (n, size) ∷ [])
unfolding has_dimension
Distinct-append n size [] h d = (refl, tt)
Distinct-append n size ((m, s) ∷ dims) h d = elim (Bool-cases (m == n)) [
  | inl hit ↦ ground arith
  | inr miss ↦
      let apart : (n == m) ≡ false = ground (arith, ==_iff m n, ==_iff n m) in
      let rest : has_dimension n dims ≡ false = ground arith in
      (ground (arith, has_dimension-append m n size dims), Distinct-append n size dims rest d.1)
]

pub has_dimension-erase :
    (k n : String) (dims : List (String × ℕ))
    → Distinct dims
    → has_dimension k (erase_dimension n dims) ≡ (if n == k then false else has_dimension k dims)
unfolding has_dimension erase_dimension
has_dimension-erase k n [] d = ground arith
has_dimension-erase k n ((m, s) ∷ dims) d =
    ground (arith, ==_iff m n, ==_iff n k, ==_iff m k, has_dimension-erase k n dims d.1)

Distinct-erase :
    (n : String) (dims : List (String × ℕ)) → Distinct dims → Distinct (erase_dimension n dims)
unfolding erase_dimension
Distinct-erase n [] d = tt
Distinct-erase n ((m, s) ∷ dims) d =
    ground (arith, Distinct-erase n dims d.1, has_dimension-erase m n dims d.1)

Named-insert : (a : Attribute) (m : Map Attribute) → Named m → Named (insert (attribute_name a) a m)
unfolding insert
Named-insert a [] h = (refl, tt)
Named-insert a ((k, b) ∷ m) h = let rest = Named-insert a m h.1 in ground (arith, rest)

Named-erase : (k : String) (m : Map Attribute) → Named m → Named (erase k m)
unfolding erase
Named-erase k [] h = tt
Named-erase k ((j, b) ∷ m) h = let rest = Named-erase k m h.1 in ground (arith, rest)

pub make_variable-IsWf : (name : String) (type : DataType) → IsWf (make_variable name type)
unfolding make_variable
make_variable-IsWf name type = record { distinct = tt; sorted = tt; named = tt }

-- A property of the variable that a call returns, if it returns one.
abbrev pub Keeps : Result Variable → Type 0
Keeps (ok v) = IsWf v
Keeps (err e) = Unit {0}

pub add_dimension-IsWf :
    (v : Variable) (name : String) (size : ℕ) → IsWf v → Keeps (add_dimension v name size)
unfolding add_dimension
add_dimension-IsWf v name size w = elim (Bool-cases (has_dimension name v.dimensions)) [
  | inl there ↦ rw there tt
  | inr free ↦ rw free (record {
    distinct = Distinct-append name size v.dimensions free w.distinct;
    sorted = w.sorted;
    named = w.named;
  })
]

pub add_attribute-IsWf : (v : Variable) (a : Attribute) → IsWf v → Keeps (add_attribute v a)
unfolding add_attribute
add_attribute-IsWf v a w = elim (Bool-cases (contains (attribute_name a) v.attributes)) [
  | inl there ↦ rw there tt
  | inr free ↦ rw free (record {
    distinct = w.distinct;
    sorted = insert-IsSorted (attribute_name a) a v.attributes w.sorted;
    named = Named-insert a v.attributes w.named;
  })
]

pub delete_dimension-IsWf : (v : Variable) (name : String) → IsWf v → IsWf (delete_dimension v name)
unfolding delete_dimension
delete_dimension-IsWf v name w = ground (arith, Distinct-erase name v.dimensions w.distinct)

pub delete_attribute-IsWf :
    (v : Variable) (name : String) → IsWf v → Keeps (delete_attribute v name)
unfolding delete_attribute
delete_attribute-IsWf v name w = elim (Bool-cases (contains name v.attributes)) [
  | inl there ↦ rw there (record {
    distinct = w.distinct;
    sorted = erase-IsSorted name v.attributes w.sorted;
    named = Named-erase name v.attributes w.named;
  })
  | inr missing ↦ rw missing tt
]

-- The operations that change a variable.
pub data VariableCall : Type 0 where
  adds_dimension : String → ℕ → VariableCall
  adds_attribute : Attribute → VariableCall
  deletes_dimension : String → VariableCall
  deletes_attribute : String → VariableCall

pub after : Variable → VariableCall → Result Variable
after v (adds_dimension name size) = add_dimension v name size
after v (adds_attribute a) = add_attribute v a
after v (deletes_dimension name) = ok (delete_dimension v name)
after v (deletes_attribute name) = delete_attribute v name

pub run : Variable → List VariableCall → Result Variable
run v [] = ok v
run v (c ∷ cs) = after v c >>= λ u. run u cs

after-IsWf : (v : Variable) (c : VariableCall) → IsWf v → Keeps (after v c)
unfolding after
after-IsWf v (adds_dimension name size) w = add_dimension-IsWf v name size w
after-IsWf v (adds_attribute a) w = add_attribute-IsWf v a w
after-IsWf v (deletes_dimension name) w = delete_dimension-IsWf v name w
after-IsWf v (deletes_attribute name) w = delete_attribute-IsWf v name w

next-IsWf :
    (r : Result Variable) (f : Variable → Result Variable)
    → Keeps r
    → ((u : Variable) → IsWf u → Keeps (f u))
    → Keeps (r >>= f)
next-IsWf (ok u) f k h = h u k
next-IsWf (err e) f k h = tt

-- Whatever the calls, a variable that they leave has distinct dimension names, and its attributes
-- in order under their own names.
pub run-IsWf : (v : Variable) (cs : List VariableCall) → IsWf v → Keeps (run v cs)
unfolding run
run-IsWf v [] w = w
run-IsWf v (c ∷ cs) w =
    next-IsWf (after v c) (λ u. run u cs) (after-IsWf v c w) (λ u k. run-IsWf u cs k)
