-- ===== src/Exec/Stops.antt =====
-- What a computation that ended without an error did: each of its steps ended without one.
use oci_openshift_autoscalin.Base.{Result, ok, err, ◌≡◌, refl}
use oci_openshift_autoscalin.Exec.{Exec, return, proceed, lift, ◌>>=◌}

module _ {S A B : Type 0} where
  proceed-ok :
      (r : Result A) (t : S) (f : A → Exec S B) (b : B)
      → (proceed r f t).0 ≡ ok b
      → (a : A) × (r ≡ ok a) × ((f a t).0 ≡ ok b)
  proceed-ok (ok a) t f b h = (a, refl, h)
  proceed-ok (err e) t f b h = cc h

  pub bind-ok :
      (m : Exec S A) (f : A → Exec S B) (s : S) (b : B)
      → ((m >>= f) s).0 ≡ ok b
      → (a : A) × ((m s).0 ≡ ok a) × ((f a (m s).1).0 ≡ ok b)
  unfolding ◌>>=◌
  bind-ok m f s b h = proceed-ok (m s).0 (m s).1 f b h

  pub lift-ok :
      (r : Result A) (f : A → Exec S B) (s : S) (b : B)
      → ((lift r >>= f) s).0 ≡ ok b
      → (a : A) × (r ≡ ok a) × ((f a s).0 ≡ ok b)
  unfolding lift
  lift-ok r f s b h = bind-ok (lift r) f s b h

module _ {S A B : Type 0} where
  -- after a step without an error the next one runs
  pub bind-runs :
      (m : Exec S A) (f : A → Exec S B) (s : S) (a : A) → (m s).0 ≡ ok a → (m >>= f) s ≡ f a (m s).1
  unfolding ◌>>=◌
  bind-runs m f s a h = rw h refl

  pub lift-runs :
      (r : Result A) (f : A → Exec S B) (s : S) (b : B)
      → ((lift r >>= f) s).0 ≡ ok b
      → (a : A) × (r ≡ ok a) × ((f a s).0 ≡ ok b) × ((lift r >>= f) s ≡ f a s)
  unfolding lift
  lift-runs r f s b h = let (a, e, g) = lift-ok r f s b h in (a, e, g, bind-runs (lift r) f s a e)

pub return-ok : {S A : Type 0} (a b : A) (s : S) → (return a s).0 ≡ ok b → b ≡ a
unfolding return
return-ok a b s h = cc h
