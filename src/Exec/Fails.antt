-- ===== src/Exec/Fails.antt =====
-- The errors that a call gives: one rule for each way to build a call, of a result and of a call that
-- changes a state.
use monio.Base.{◌≡◌, Bool, true, false, if◌then◌else◌, subst}
use monio.Result.{Result, ok, err, Error}
use monio.Result
use monio.Exec.{Exec, pure, ◌>>=◌, lift, cleaning, continue}

-- Where there is an error, it is one of `IsAllowed`.
pub record Fails {A : Type 0} (IsAllowed : Error → Type 0) (r : Result A) : Type 0 where
  pub on : (e : Error) → r ≡ err e → IsAllowed e

pub record ExecFails {S A : Type 0} (IsAllowed : Error → Type 0) (call : Exec S A) : Type 0 where
  pub at : (s : S) → Fails IsAllowed (call s).0

pub Fails-mono :
    {A : Type 0} {IsFew IsMore : Error → Type 0} (r : Result A)
    → ((e : Error) → IsFew e → IsMore e)
    → Fails IsFew r
    → Fails IsMore r
Fails-mono r more h = record { on = λ e p. more e (h.on e p) }

module _ {IsAllowed : Error → Type 0} where
  pub Fails-ok : {A : Type 0} (a : A) → Fails IsAllowed (ok a)
  Fails-ok a = record { on = λ e p. absurd cc }

  pub Fails-err : {A : Type 0} (x : Error) → IsAllowed x → Fails {A = A} IsAllowed (err x)
  Fails-err x allowed = record { on = λ e p. let same : x ≡ e = cc in subst IsAllowed same allowed }

  pub Fails-if :
      {A : Type 0} (b : Bool) (r t : Result A)
      → Fails IsAllowed r
      → Fails IsAllowed t
      → Fails IsAllowed (if b then r else t)
  Fails-if true r t p q = p
  Fails-if false r t p q = q

  pub Fails-bind :
      {A B : Type 0} (r : Result A) (f : A → Result B)
      → Fails IsAllowed r
      → ((a : A) → Fails IsAllowed (f a))
      → Fails IsAllowed (Result.◌>>=◌ r f)
  Fails-bind (ok a) f p q = q a
  Fails-bind (err x) f p q = Fails-err x (p.on x (cc))

  module _ {S : Type 0} where
    pub ExecFails-pure : {A : Type 0} (a : A) → ExecFails {S = S} IsAllowed (pure a)
    ExecFails-pure a = record { at = λ s. Fails-ok a }

    pub ExecFails-lift :
        {A : Type 0} (r : Result A) → Fails IsAllowed r → ExecFails {S = S} IsAllowed (lift r)
    ExecFails-lift r h = record { at = λ s. h }

    pub ExecFails-cleaning :
        {A : Type 0} (clean : S → S) (r : Result A)
        → Fails IsAllowed r
        → ExecFails IsAllowed (cleaning clean r)
    ExecFails-cleaning clean (ok a) h = record { at = λ s. Fails-ok a }
    ExecFails-cleaning clean (err x) h = record { at = λ s. Fails-err x (h.on x (cc)) }

    pub ExecFails-if :
        {A : Type 0} (b : Bool) (m n : Exec S A)
        → ExecFails IsAllowed m
        → ExecFails IsAllowed n
        → ExecFails IsAllowed (if b then m else n)
    ExecFails-if true m n p q = p
    ExecFails-if false m n p q = q

    continue-Fails :
        {A B : Type 0} (r : Result A) (s : S) (f : A → Exec S B)
        → Fails IsAllowed r
        → ((a : A) → ExecFails IsAllowed (f a))
        → Fails IsAllowed (continue f (r, s)).0
    continue-Fails (ok a) s f h k = (k a).at s
    continue-Fails (err x) s f h k = Fails-err x (h.on x (cc))

    infixl 5 ◌>>>◌
    -- The rule for a bind, in the shape of a bind.
    pub ◌>>>◌ :
        {A B : Type 0} {m : Exec S A} {f : A → Exec S B}
        → ExecFails IsAllowed m
        → ((a : A) → ExecFails IsAllowed (f a))
        → ExecFails IsAllowed (m >>= f)
    ◌>>>◌ {m = m} {f = f} h k = record {
      at = λ s. let (r, s') = m s in continue-Fails r s' f (h.at s) k;
    }
