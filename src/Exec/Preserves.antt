-- ===== src/Exec/Preserves.antt =====
-- What a call preserves, where it returns and where it throws: one rule for each way to build a call.
use monio.Base.{Bool, true, false, if◌then◌else◌}
use monio.Result.{Result, ok, err}
use monio.Exec.{Exec, pure, ◌>>=◌, lift, cleaning, continue}

-- What holds of the state before the call holds of the state after it.
pub record Preserves {S A : Type 0} (Holds : S → Type 0) (call : Exec S A) : Type 0 where
  pub at : (s : S) → Holds s → Holds (call s).1

module _ {S : Type 0} {Holds : S → Type 0} where
  pub Preserves-pure : {A : Type 0} (a : A) → Preserves Holds (pure a)
  Preserves-pure a = record { at = λ s h. h }

  pub Preserves-lift : {A : Type 0} (r : Result A) → Preserves Holds (lift r)
  Preserves-lift r = record { at = λ s h. h }

  pub Preserves-cleaning :
      {A : Type 0} (clean : S → S) (r : Result A)
      → ((s : S) → Holds s → Holds (clean s))
      → Preserves Holds (cleaning clean r)
  Preserves-cleaning clean (ok a) k = record { at = λ s h. h }
  Preserves-cleaning clean (err e) k = record { at = k }

  pub Preserves-if :
      {A : Type 0} (b : Bool) (m n : Exec S A)
      → Preserves Holds m
      → Preserves Holds n
      → Preserves Holds (if b then m else n)
  Preserves-if true m n p q = p
  Preserves-if false m n p q = q

  continue-Preserves :
      {A B : Type 0} (r : Result A) (s : S) (f : A → Exec S B)
      → ((a : A) → Preserves Holds (f a))
      → Holds s
      → Holds (continue f (r, s)).1
  continue-Preserves (ok a) s f k h = (k a).at s h
  continue-Preserves (err e) s f k h = h

  infixl 5 ◌>>>◌
  -- The rule for a bind, in the shape of a bind.
  pub ◌>>>◌ :
      {A B : Type 0} {m : Exec S A} {f : A → Exec S B}
      → Preserves Holds m
      → ((a : A) → Preserves Holds (f a))
      → Preserves Holds (m >>= f)
  ◌>>>◌ {m = m} {f = f} h k = record {
    at = λ s held. let (r, s') = m s in continue-Preserves r s' f k (h.at s held);
  }
