-- ===== src/Utils/Vectors.antt =====
-- findPosInVector and findInVector agree, and give the first position of the term.
use monio.Base.{
  ℕ, zero, suc, ◌≡◌, refl, ◌≢◌, ◌<◌, ap, ◌⊎◌, inl, inr, true, false, some, List, [], ◌∷◌, length,
  get_elem?, ◌==◌, ◌||◌, Eq, ==_iff, ==_ne, pos, negsuc, arith, Bool-cases, nat_eq,
}
use monio.Utils.{find, find_pos_in_vector, find_in_vector}

-- `i` is the first index of the term.
pub record IsFirst {ℓ} {A : Type ℓ} (xs : List A) (term : A) (i : ℕ) : Type ℓ where
  pub at : get_elem? xs i ≡ some term
  pub before : (j : ℕ) → j < i → get_elem? xs j ≢ some term

module _ {ℓ} {A : Type ℓ} ⦃e : Eq A⦄ where
  absent_cons :
      (x : A) (xs : List A) (term : A)
      → x ≢ term
      → ((j : ℕ) → get_elem? xs j ≢ some term)
      → (j : ℕ) → get_elem? (x ∷ xs) j ≢ some term
  absent_cons x xs term n h zero = λ p. n (cc)
  absent_cons x xs term n h (suc j) = h j

  first_cons :
      (x : A) (xs : List A) (term : A) (i : ℕ)
      → x ≢ term
      → ((j : ℕ) → j < i → get_elem? xs j ≢ some term)
      → (j : ℕ) → j < suc i
      → get_elem? (x ∷ xs) j ≢ some term
  first_cons x xs term i n h zero lt = λ p. n (cc)
  first_cons x xs term i n h (suc j) lt = h j (omega arith)

  pub find-cases :
      (xs : List A) (term : A)
      → ((find xs term ≡ length xs) × ((j : ℕ) → get_elem? xs j ≢ some term))
        ⊎ ((find xs term < length xs) × IsFirst xs term (find xs term))
  unfolding find
  find-cases [] term = inl (refl, λ j h. cc)
  find-cases (x ∷ xs) term = elim (Bool-cases (x == term)) [
    | inl here ↦ rw here (
        inr (
          omega arith,
          record { at = ap some ((==_iff x term).0 here); before = λ j h. elim h [ ] },
        ))
    | inr miss ↦
        let other : x ≢ term = λ p. ground (arith, ==_iff x term) in
        rw miss (elim (find-cases xs term) [
          | inl (size, gone) ↦ inl (ap suc size, absent_cons x xs term other gone)
          | inr (room, f) ↦ inr (
            omega arith,
            record { at = f.at; before = first_cons x xs term (find xs term) other f.before },
          )
        ])
  ]

  abbrev pub Finds : List A → A → Type ℓ
  Finds xs term =
      ((find_pos_in_vector xs term ≡ negsuc 0)
        × (find_in_vector xs term ≡ false)
        × ((j : ℕ) → get_elem? xs j ≢ some term))
      ⊎ ((i : ℕ) × (find_pos_in_vector xs term ≡ pos i)
          × (find_in_vector xs term ≡ true)
          × IsFirst xs term i)

  -- findPosInVector returns -1 exactly when the vector does not hold the term, and otherwise the
  -- first index that does; findInVector says which of the two it is.
  pub find_pos_in_vector-cases : (xs : List A) (term : A) → Finds xs term
  unfolding find_pos_in_vector find_in_vector
  find_pos_in_vector-cases xs term = elim (find-cases xs term) [
    | inl (size, gone) ↦
        let hit = (==_iff (find xs term) (length xs)).1 size in inl (rw hit, rw hit, gone)
    | inr (room, f) ↦
        let miss = ==_ne (find xs term) (length xs) (λ p. omega arith) in
        inr (find xs term, rw miss, rw miss, f)
  ]

  pub find_in_vector-cons :
      (x : A) (xs : List A) (term : A)
      → find_in_vector (x ∷ xs) term ≡ (x == term || find_in_vector xs term)
  unfolding find_in_vector
  find_in_vector-cons x xs term = ground arith
