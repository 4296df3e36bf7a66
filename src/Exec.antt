-- ===== src/Exec.antt =====
-- Handlers of the controllers: a computation over a state that may stop with an error. What was
-- done before the error stays done, so the state comes back beside it.
pub mod Preserves
pub mod Stops
use oci_openshift_autoscalin.Base.{Result, ok, err, Error, Bool, true, false, if◌then◌else◌}

abbrev pub Exec : Type 0 → Type 0 → Type 0
Exec S A = S → Result A × S

module _ {S A : Type 0} where
  unfoldable pub return : A → Exec S A
  return a s = (ok a, s)

  unfoldable pub fail : Error → Exec S A
  fail e s = (err e, s)

  -- a computation that reads and changes nothing
  unfoldable pub lift : Result A → Exec S A
  lift r s = (r, s)

  -- the error as a value, for code that looks at it
  unfoldable pub catch : Exec S A → Exec S (Result A)
  catch m s = let (r, t) = m s in (ok r, t)

module _ {S : Type 0} where
  unfoldable pub get : Exec S S
  get s = (ok s, s)

  unfoldable pub modify : (S → S) → Exec S (Unit {0})
  modify f s = (ok tt, f s)

module _ {S A B : Type 0} where
  abbrev pub proceed : Result A → (A → Exec S B) → Exec S B
  proceed (ok a) f s = f a s
  proceed (err e) f s = (err e, s)

  infixl 5 ◌>>=◌
  unfoldable pub ◌>>=◌ : Exec S A → (A → Exec S B) → Exec S B
  unfolding return fail lift catch get modify
  ◌>>=◌ m f s = let (r, t) = m s in proceed r f t

infixl 5 ◌>>◌
abbrev pub ◌>>◌ : {S B : Type 0} → Exec S (Unit {0}) → Exec S B → Exec S B
m >> n = m >>= λ _. n
