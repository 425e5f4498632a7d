-- ===== src/Variable/Laws.antt =====
-- What the operations of a variable do to each other.
use native.Mathlib.Nat.{mul_assoc, div-add-mod, mul-add-mod_self_left}
use monio.Base.{
  ℕ, ◌*◌, ◌/◌, ◌%◌, ◌^◌, String, ◌≡◌, refl, ap, sym, ◌∙◌, ◌≢◌, true, false, List, [], ◌∷◌, ◌++◌,
  none, some, arith, string_eq, ==_self, ==_iff, if◌then◌else◌, ◌==◌, ==_ne, Bool-cases, inl, inr,
  ◌⊎◌,
}
use monio.Result.{Result, ok, err, dimension_defined, attribute_defined, attribute_not_coded}
use monio.Map.{insert, contains, lookup}
use monio.Map.Laws.{lookup-insert}
use monio.Variable.Invariant.{IsWf, has_dimension-erase}
use monio.Variable.{
  Variable, Attribute, attribute_string, attribute_double, attribute_int, attribute_name,
  has_dimension, erase_dimension, add_dimension, add_attribute, delete_dimension, total_size_from,
  get_total_size, get_str_attr,
}

total_size_from-append :
    (t : ℕ) (n : String) (size : ℕ) (dims : List (String × ℕ))
    → total_size_from t (dims ++ (n, size) ∷ []) ≡ (total_size_from t dims * size) % 2 ^ 64
unfolding total_size_from
total_size_from-append t n size [] = refl
total_size_from-append t n size ((m, s) ∷ dims) =
    total_size_from-append ((t * s) % 2 ^ 64) n size dims

-- The product of the sizes.
abbrev pub product : List (String × ℕ) → ℕ
product [] = 1
product ((n, size) ∷ dims) = size * product dims

pub mod_mul : (m a b : ℕ) → (a % m * b) % m ≡ (a * b) % m
mod_mul m a b =
    sym (mul-add-mod_self_left m (a / m * b) (a % m * b))
    ∙ ap (λ (t : ℕ). t % m) (omega (arith, ap (λ (t : ℕ). t * b) (div-add-mod a m)))

total_size_from-product :
    (t : ℕ) (dims : List (String × ℕ))
    → total_size_from (t % 2 ^ 64) dims ≡ (t * product dims) % 2 ^ 64
unfolding total_size_from
total_size_from-product t [] = ap (λ (n : ℕ). n % 2 ^ 64) (omega arith)
total_size_from-product t ((n, size) ∷ dims) =
    ap (λ (k : ℕ). total_size_from k dims) (mod_mul (2 ^ 64) t size)
    ∙ total_size_from-product (t * size) dims
    ∙ ap (λ (k : ℕ). k % 2 ^ 64) (mul_assoc t size (product dims))

-- getTotalSize is the product of the sizes, in a size_t.
pub get_total_size-product : (v : Variable) → get_total_size v ≡ product v.dimensions % 2 ^ 64
unfolding get_total_size
get_total_size-product v =
    total_size_from-product 1 v.dimensions ∙ ap (λ (k : ℕ). k % 2 ^ 64) (omega arith)

erase_dimension-append :
    (n : String) (size : ℕ) (dims : List (String × ℕ))
    → has_dimension n dims ≡ false
    → erase_dimension n (dims ++ (n, size) ∷ []) ≡ dims
unfolding has_dimension erase_dimension
erase_dimension-append n size [] h = rw (==_self n)
erase_dimension-append n size ((m, s) ∷ dims) h = ground (arith, erase_dimension-append n size dims)

has_dimension_last :
    (n : String) (size : ℕ) (dims : List (String × ℕ))
    → has_dimension n (dims ++ (n, size) ∷ []) ≡ true
unfolding has_dimension
has_dimension_last n size [] = rw (==_self n)
has_dimension_last n size ((m, s) ∷ dims) = ground (arith, has_dimension_last n size dims)

abbrev pub AddsDimension : Variable → String → ℕ → Type 0
AddsDimension v name size =
    ((has_dimension name v.dimensions ≡ true)
      × (add_dimension v name size ≡ err (dimension_defined name)))
    ⊎ ((u : Variable) × (has_dimension name v.dimensions ≡ false)
        × (add_dimension v name size ≡ ok u)
        × (delete_dimension u name ≡ v)
        × (get_total_size u ≡ (get_total_size v * size) % 2 ^ 64))

-- addDimension succeeds exactly for a new name. Then deleteDimension takes the dimension away
-- again, and the total size is multiplied by the new size, in a size_t.
pub add_dimension-cases : (v : Variable) (name : String) (size : ℕ) → AddsDimension v name size
unfolding add_dimension delete_dimension get_total_size
add_dimension-cases v name size = elim (Bool-cases (has_dimension name v.dimensions)) [
  | inl there ↦ inl (there, rw there)
  | inr free ↦
      let dims = v.dimensions ++ (name, size) ∷ [] in
      inr (
        record v { dimensions = dims },
        free,
        rw free,
        rw (has_dimension_last name size v.dimensions) (
            ap (λ (d : List (String × ℕ)). record v { dimensions = d })
              (erase_dimension-append name size v.dimensions free)),
        total_size_from-append 1 name size v.dimensions,
      )
]

-- What getStrAttr gives for an attribute.
abbrev pub text_of : Attribute → Result String
text_of (attribute_string name value) = ok value
text_of (attribute_double name value) = err attribute_not_coded
text_of (attribute_int name value) = err attribute_not_coded

abbrev pub AddsAttribute : Variable → Attribute → Type 0
AddsAttribute v a =
    ((contains (attribute_name a) v.attributes ≡ true)
      × (add_attribute v a ≡ err (attribute_defined (attribute_name a))))
    ⊎ ((u : Variable) × (contains (attribute_name a) v.attributes ≡ false)
        × (add_attribute v a ≡ ok u)
        × (lookup (attribute_name a) u.attributes ≡ some a)
        × ((other : String)
            → other ≢ attribute_name a
            → lookup other u.attributes ≡ lookup other v.attributes)
        × (u.name ≡ v.name)
        × (u.type ≡ v.type)
        × (u.dimensions ≡ v.dimensions)
        × (get_str_attr u (attribute_name a) ≡ text_of a))

get_str_attr-eq :
    (u : Variable) (name : String) (a : Attribute)
    → lookup name u.attributes ≡ some a
    → get_str_attr u name ≡ text_of a
unfolding get_str_attr
get_str_attr-eq u name (attribute_string n value) h = rw (h, get_str_attr)
get_str_attr-eq u name (attribute_double n value) h = rw (h, get_str_attr)
get_str_attr-eq u name (attribute_int n value) h = rw (h, get_str_attr)

-- addAttribute refuses an attribute of any type whose name the variable has one of already. Any
-- other it adds: it stands under its name, the attributes of other names, the name, the type and the
-- dimensions stay as they were, and getStrAttr finds its value where it is a text and refuses it
-- where it is a number.
pub add_attribute-cases : (v : Variable) (a : Attribute) → AddsAttribute v a
unfolding add_attribute
add_attribute-cases v a =
    let name = attribute_name a in
    elim (Bool-cases (contains name v.attributes)) [
      | inl there ↦ inl (there, rw there)
      | inr free ↦
          let u : Variable = record v { attributes = insert name a v.attributes } in
          let missing : lookup name v.attributes ≡ none = unfold contains in ground arith in
          let found = λ (k : String). lookup-insert name k a v.attributes missing in
          let own : lookup name u.attributes ≡ some a = found name ∙ (rw (==_self name)) in
          inr (
            u,
            free,
            rw free,
            own,
            (λ other ne. found other ∙ (rw (==_ne name other (λ p. ne (sym p))))),
            refl,
            refl,
            refl,
            get_str_attr-eq u name a own,
          )
    ]

-- Deleting a dimension twice is deleting it once.
pub delete_dimension_idem :
    (v : Variable) (name : String)
    → IsWf v
    → delete_dimension (delete_dimension v name) name ≡ delete_dimension v name
unfolding delete_dimension
delete_dimension_idem v name w =
    ground (arith, has_dimension-erase name name v.dimensions w.distinct, ==_self name)

pub has_dimension-delete_dimension :
    (v : Variable) (name other : String)
    → IsWf v
    → has_dimension other (delete_dimension v name).dimensions
      ≡ (if name == other then false else has_dimension other v.dimensions)
unfolding delete_dimension
has_dimension-delete_dimension v name other w =
    ground (arith, has_dimension-erase other name v.dimensions w.distinct, ==_iff name other)
