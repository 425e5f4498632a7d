-- ===== src/Exec.antt =====
-- Calls that change a state and may throw: a throw keeps the state that it finds.
pub mod Closes
pub mod Fails
pub mod Preserves
use monio.Base.{Bool, if◌then◌else◌}
use monio.Result.{Result, ok, err, Error}

abbrev pub Exec : Type 0 → Type 0 → Type 0
Exec S A = S → Result A × S

module _ {S : Type 0} where
  abbrev pub pure : {A : Type 0} → A → Exec S A
  pure a s = (ok a, s)

  abbrev pub continue : {A B : Type 0} → (A → Exec S B) → Result A × S → Result B × S
  continue f (ok a, s) = f a s
  continue f (err e, s) = (err e, s)

  infixl 5 ◌>>=◌
  abbrev pub ◌>>=◌ : {A B : Type 0} → Exec S A → (A → Exec S B) → Exec S B
  (m >>= f) s = continue f (m s)

  infixl 5 ◌>>◌
  abbrev pub ◌>>◌ : {A B : Type 0} → Exec S A → Exec S B → Exec S B
  first >> second = first >>= λ _. second

  -- A call that does not change the state.
  abbrev pub lift : {A : Type 0} → Result A → Exec S A
  lift r s = (r, s)

  abbrev pub on_error : {A : Type 0} → (S → S) → Result A × S → Result A × S
  on_error clean (ok a, s) = (ok a, s)
  on_error clean (err e, s) = (err e, clean s)

  -- A call that cleans up before it throws.
  abbrev pub cleaning : {A : Type 0} → (S → S) → Result A → Exec S A
  cleaning clean r s = on_error clean (r, s)

  abbrev pub on_error_where : {A : Type 0} → (Error → Bool) → (S → S) → Result A × S → Result A × S
  on_error_where test clean (ok a, s) = (ok a, s)
  on_error_where test clean (err e, s) = (err e, if test e then clean s else s)

  -- A call some of whose errors clean up.
  abbrev pub cleaning_where : {A : Type 0} → (Error → Bool) → (S → S) → Exec S A → Exec S A
  cleaning_where test clean call s = on_error_where test clean (call s)
