-- ===== src/Reader/TimeSteps.antt =====
-- findTimeStep.
use monio.Base.{
  ℕ, suc, ◌+◌, ◌≡◌, ◌≢◌, refl, List, [], ◌∷◌, Option, none, some, length, get_elem?, arith, ◌==◌,
  nat_eq, Eq, ==_iff, ==_ne, ap, if◌then◌else◌, ◌⊎◌, inl, inr, Bool-cases,
}
use monio.Result.{ok, err, date_times_missing, date_time_not_found}
use monio.Utils.{find}
use monio.Utils.Vectors.{IsFirst, find-cases}
use monio.FileData.{FileData}
use monio.Reader.{FileReads, Reader, is_open, closed, step_from, find_time_step}

closed_at :
    {File : Type 0} (o : Option File) → closed (record { file = o }) ≡ record { file = none }
unfolding closed is_open
closed_at none = refl
closed_at (some f) = refl

-- closeFile leaves no file.
pub closed-eq : {File : Type 0} (r : Reader File) → closed r ≡ record { file = none }
closed-eq r = closed_at r.file

empty_of_length {ℓ} : {A : Type ℓ} (xs : List A) → length xs ≡ 0 → xs ≡ []
empty_of_length [] h = refl
empty_of_length (x ∷ xs) h = absurd (omega arith)

module _ {File DateTime : Type 0} (api : FileReads File) ⦃e : Eq DateTime⦄ where
  step_from-find :
      (i : ℕ) (time : DateTime) (times : List DateTime)
      → step_from api i time times
        ≡ (if find times time == length times then none else some (i + find times time))
  unfolding step_from find
  step_from-find i time [] = refl
  step_from-find i time (t ∷ times) = ground (arith, step_from-find (suc i) time times)

  abbrev pub FindsStep : FileData DateTime → DateTime → Reader File → Type 0
  FindsStep file time r =
      ((file.date_times ≡ [])
        × (find_time_step api file time r ≡ (err date_times_missing, record { file = none })))
      ⊎ ((file.date_times ≢ [])
          × ((j : ℕ) → get_elem? file.date_times j ≢ some time)
          × (find_time_step api file time r ≡ (err date_time_not_found, record { file = none })))
      ⊎ ((i : ℕ) × IsFirst file.date_times time i × (find_time_step api file time r ≡ (ok i, r)))

  -- findTimeStep returns the first time step with the date-time and leaves the file open. Where the
  -- file has no date-times, or not this one, it closes the file and throws.
  pub find_time_step-cases :
      (file : FileData DateTime) (time : DateTime) (r : Reader File) → FindsStep file time r
  unfolding find_time_step
  find_time_step-cases file time r = elim (Bool-cases (length file.date_times == 0)) [
    | inl empty ↦
        inl (empty_of_length file.date_times ((==_iff _ _).0 empty), rw (empty, closed-eq r))
    | inr some_times ↦
        let held : file.date_times ≢ [] =
          λ p. ground (arith, ap (λ (ts : List DateTime). length ts) p) in
        elim (find-cases file.date_times time) [
          | inl (size, gone) ↦ inr (
              inl (
                held,
                gone,
                rw (
                  some_times,
                  step_from-find 0 time file.date_times,
                  (==_iff _ _).1 size,
                  closed-eq r,
                ),
              ))
          | inr (room, first) ↦ inr (
              inr (
                find file.date_times time,
                first,
                rw
                    (
                      some_times,
                      step_from-find 0 time file.date_times,
                      ==_ne (find file.date_times time) (length file.date_times) (λ p. omega arith),
                    )
                    (ap (λ (n : ℕ). (ok n, r)) (omega arith)),
              ))
        ]
  ]
