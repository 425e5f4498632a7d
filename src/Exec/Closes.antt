-- ===== src/Exec/Closes.antt =====
-- What holds of the state where a call throws: one rule for each way to build a call.
use monio.Base.{◌≡◌, Bool, true, false, if◌then◌else◌, ◌⊎◌, inl, inr}
use monio.Result.{Result, ok, err, Error}
use monio.Exec.{Exec, pure, ◌>>=◌, lift, cleaning, continue}

-- Where the call throws, the error is one of `Outside`, or `IsClosed` holds of the state it leaves.
pub record Closes {S A : Type 0} (Outside : Error → Type 0) (IsClosed : S → Type 0)
    (call : Exec S A) : Type 0 where
  pub at : (s : S) (e : Error) → (call s).0 ≡ err e → Outside e ⊎ IsClosed (call s).1

module _ {S : Type 0} {Outside : Error → Type 0} {IsClosed : S → Type 0} where
  pub Closes-ok :
      {A : Type 0} (call : Exec S A)
      → ((s : S) → (a : A) × ((call s).0 ≡ ok a))
      → Closes Outside IsClosed call
  Closes-ok call h = record { at = λ s e p. let (a, q) = h s in cc }

  pub Closes-pure : {A : Type 0} (a : A) → Closes Outside IsClosed (pure a)
  Closes-pure a = record { at = λ s e p. cc }

  pub Closes-lift :
      {A : Type 0} (r : Result A)
      → ((e : Error) → r ≡ err e → Outside e)
      → Closes Outside IsClosed (lift r)
  Closes-lift r h = record { at = λ s e p. inl (h e p) }

  pub Closes-cleaning :
      {A : Type 0} (clean : S → S) (r : Result A)
      → ((s : S) → IsClosed (clean s))
      → Closes Outside IsClosed (cleaning clean r)
  Closes-cleaning clean (ok a) h = record { at = λ s e p. cc }
  Closes-cleaning clean (err e) h = record { at = λ s e' p. inr (h s) }

  pub Closes-if :
      {A : Type 0} (b : Bool) (m n : Exec S A)
      → Closes Outside IsClosed m
      → Closes Outside IsClosed n
      → Closes Outside IsClosed (if b then m else n)
  Closes-if true m n p q = p
  Closes-if false m n p q = q

  continue-Closes :
      {A B : Type 0} (r : Result A) (s : S) (f : A → Exec S B)
      → ((e : Error) → r ≡ err e → Outside e ⊎ IsClosed s)
      → ((a : A) → Closes Outside IsClosed (f a))
      → (e : Error) → (continue f (r, s)).0 ≡ err e
      → Outside e ⊎ IsClosed (continue f (r, s)).1
  continue-Closes (ok a) s f h k e p = (k a).at s e p
  continue-Closes (err e) s f h k e' p = h e' (cc)

  pub Closes-bind :
      {A B : Type 0} (m : Exec S A) (f : A → Exec S B)
      → Closes Outside IsClosed m
      → ((a : A) → Closes Outside IsClosed (f a))
      → Closes Outside IsClosed (m >>= f)
  Closes-bind m f h k = record {
    at = λ s e p. let (r, s') = m s in continue-Closes r s' f (h.at s) k e p;
  }

  infixl 5 ◌>>>◌
  -- The rule for a bind, in the shape of a bind.
  pub ◌>>>◌ :
      {A B : Type 0} {m : Exec S A} {f : A → Exec S B}
      → Closes Outside IsClosed m
      → ((a : A) → Closes Outside IsClosed (f a))
      → Closes Outside IsClosed (m >>= f)
  h >>> k = Closes-bind _ _ h k
