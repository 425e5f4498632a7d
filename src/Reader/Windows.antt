-- ===== src/Reader/Windows.antt =====
-- The part of a variable that is read at a time step.
use native.Mathlib.Nat.{mul_assoc}
use monio.Base.{
  ℕ, suc, ◌+◌, ◌*◌, ◌%◌, ◌^◌, String, ◌≡◌, refl, ◌∙◌, ap, sym, false, List, [], ◌∷◌, length, arith,
  ◌==◌, string_eq, ==_iff, if◌then◌else◌, Bool-cases, inl, inr,
}
use monio.Variable.{Variable, has_dimension}
use monio.Variable.Invariant.{Distinct, IsWf}
use monio.Variable.Laws.{mod_mul}
use monio.Reader.{window_from, window}

abbrev pub product_of : List ℕ → ℕ
product_of [] = 1
product_of (n ∷ ns) = n * product_of ns

window_from-length :
    (t : String) (dims : List (String × ℕ)) (size : ℕ)
    → Distinct dims
    → (length (window_from t dims size).0 ≡ length (window_from t dims size).1)
      × (length (window_from t dims size).1 + (if has_dimension t dims then 1 else 0) ≡ length dims)
unfolding window_from has_dimension
window_from-length t [] size d = (refl, refl)
window_from-length t ((name, n) ∷ dims) size d = elim (Bool-cases (name == t)) [
  | inl here ↦
      let at_t : name ≡ t = (==_iff name t).0 here in
      let gone : has_dimension t dims ≡ false = rw (sym at_t) d.0 in
      let rest = window_from-length t dims size d.1 in
      rw here (rest.0, omega (arith, rw gone at rest.1))
  | inr other ↦
      let rest = window_from-length t dims ((size * n) % 2 ^ 64) d.1 in
      rw other (ap suc rest.0, omega (arith, rest.1))
]

window_from-size :
    (t : String) (dims : List (String × ℕ)) (size : ℕ)
    → (window_from t dims (size % 2 ^ 64)).2
      ≡ (size * product_of (window_from t dims (size % 2 ^ 64)).1) % 2 ^ 64
unfolding window_from
window_from-size t [] size = ap (λ (k : ℕ). k % 2 ^ 64) (omega arith)
window_from-size t ((name, n) ∷ dims) size = elim (Bool-cases (name == t)) [
  | inl here ↦ rw here (window_from-size t dims size)
  | inr other ↦
      rw (other, mod_mul (2 ^ 64) size n)
        (window_from-size t dims (size * n)
          ∙ ap (λ (k : ℕ). k % 2 ^ 64)
              (mul_assoc size n (product_of (window_from t dims ((size * n) % 2 ^ 64)).1)))
]

abbrev pub FitsVariable : String → ℕ → Variable → Type 0
FitsVariable time_dim_name time_step v =
    let w = window time_dim_name time_step v in
    (length w.start ≡ length w.counts)
    × (length w.counts ≡ (
        if has_dimension time_dim_name v.dimensions
        then length v.dimensions
        else length v.dimensions + 1))
    × (w.size ≡ product_of w.counts % 2 ^ 64)

-- The window of readDatumAtTime has as many starts as counts, and its size is the product of the
-- counts, in a size_t. It has the rank of the variable exactly where the variable has the time
-- dimension; otherwise it has one dimension more than the variable.
pub window-FitsVariable :
    (time_dim_name : String) (time_step : ℕ) (v : Variable)
    → IsWf v
    → FitsVariable time_dim_name time_step v
unfolding window
window-FitsVariable time_dim_name time_step v w =
    let (same, rank) = window_from-length time_dim_name v.dimensions 1 w.distinct in
    (ap suc same, ground (arith, rank), window_from-size time_dim_name v.dimensions 1)
