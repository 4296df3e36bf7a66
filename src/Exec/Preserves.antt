-- ===== src/Exec/Preserves.antt =====
-- Invariants of handlers: one rule for each way to build one.
use oci_openshift_autoscalin.Base.{Bool, true, false, if◌then◌else◌, Result, ok, err, Error}
use oci_openshift_autoscalin.Exec.{Exec, return, fail, lift, catch, get, proceed, ◌>>=◌}

-- From a state with `P` the handler ends in one, whether it returns or stops with an error.
pub record Preserves {S A : Type 0} (P : S → Type 0) (m : Exec S A) : Type 0 where
  pub run : (s : S) → P s → P (m s).1

module _ {S A : Type 0} {P : S → Type 0} where
  pub return-Preserves : (a : A) → Preserves P (return a)
  unfolding return
  return-Preserves a = record { run = λ s h. h }

  pub fail-Preserves : (e : Error) → Preserves P (fail {A = A} e)
  unfolding fail
  fail-Preserves e = record { run = λ s h. h }

  pub lift-Preserves : (r : Result A) → Preserves P (lift r)
  unfolding lift
  lift-Preserves r = record { run = λ s h. h }

  pub catch-Preserves : (m : Exec S A) → Preserves P m → Preserves P (catch m)
  unfolding catch
  catch-Preserves m keep = record { run = λ s h. keep.run s h }

  pub if-Preserves :
      (b : Bool) (m n : Exec S A) → Preserves P m → Preserves P n → Preserves P (if b then m else n)
  if-Preserves true m n keep_m keep_n = keep_m
  if-Preserves false m n keep_m keep_n = keep_n

module _ {S : Type 0} {P : S → Type 0} where
  pub get-Preserves : Preserves P get
  unfolding get
  get-Preserves = record { run = λ s h. h }

module _ {S A B : Type 0} {P : S → Type 0} where
  proceed-Preserves :
      (r : Result A) (f : A → Exec S B) (s : S)
      → ((a : A) → Preserves P (f a))
      → P s
      → P (proceed r f s).1
  proceed-Preserves (ok a) f s keep h = (keep a).run s h
  proceed-Preserves (err e) f s keep h = h

  pub bind-Preserves :
      (m : Exec S A) (f : A → Exec S B)
      → Preserves P m
      → ((a : A) → Preserves P (f a))
      → Preserves P (m >>= f)
  unfolding ◌>>=◌
  bind-Preserves m f keep_m keep_f = record {
    run = λ s h. let (r, t) = m s in proceed-Preserves r f t keep_f (keep_m.run s h);
  }

  -- what a first step reaches, the rest keeps
  pub bind-after :
      (m : Exec S A) (f : A → Exec S B) (s : S)
      → P (m s).1
      → ((a : A) → Preserves P (f a))
      → P ((m >>= f) s).1
  unfolding ◌>>=◌
  bind-after m f s h keep = proceed-Preserves (m s).0 f (m s).1 keep h

pub ruleset preserves_rules = (
  return-Preserves, fail-Preserves, lift-Preserves, catch-Preserves, if-Preserves, get-Preserves,
  bind-Preserves,
)
