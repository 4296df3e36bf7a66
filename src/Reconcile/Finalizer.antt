-- ===== src/Reconcile/Finalizer.antt =====
-- When the finalizer of a resource that is being deleted goes away.
use oci_openshift_autoscalin.Base.{
  Bool, true, false, Result, ok, err, Error, Check, ◌≡◌, ◌∙◌, ap, refl, ◌⊎◌, inl, inr,
}
use oci_openshift_autoscalin.Exec.{return, fail, catch, proceed, ◌>>=◌}
use oci_openshift_autoscalin.Exec.Stops.{bind-ok}
use oci_openshift_autoscalin.Handler.{Reconciler, current}
use oci_openshift_autoscalin.Reconcile.{
  cleanup, report_cleanup, after_cleanup, start_cleanup, clean_up, give_up, when_held, finalize,
}
use oci_openshift_autoscalin.Reconcile.Updates.{updates, is_singleton_owner-Only, clean_up-Only}
use oci_openshift_autoscalin.Run.{Run, Log, Action}
use oci_openshift_autoscalin.Run.Calls.{calls, Only}
use oci_openshift_autoscalin.Singleton.{is_singleton_owner}

proceed-or :
    {A B : Type 0} (G : Type 0) (before : Log) (a : Result A) (f : A → Action B) (s : Run)
    → Only updates before s
    → ((x : A) → a ≡ ok x → Only updates before (f x s).1 ⊎ G)
    → Only updates before (proceed a f s).1 ⊎ G
proceed-or G before (ok a) f s h k = k a refl
proceed-or G before (err e) f s h k = inl h

bind-or :
    {A B : Type 0} (G : Type 0) (before : Log) (m : Action A) (f : A → Action B) (r : Run)
    → Only updates before (m r).1
    → ((x : A) → (m r).0 ≡ ok x → Only updates before (f x (m r).1).1 ⊎ G)
    → Only updates before ((m >>= f) r).1 ⊎ G
unfolding ◌>>=◌
bind-or G before m f r h k = proceed-or G before (m r).0 f (m r).1 h k

-- a computation that always ends with an error
abbrev Fails : {A : Type 0} → Action A → Type 0
Fails {A} m = (r : Run) (a : A) → ¬ ((m r).0 ≡ ok a)

bind-Fails :
    {A B : Type 0} (m : Action A) (f : A → Action B) → ((a : A) → Fails (f a)) → Fails (m >>= f)
bind-Fails m f fails r b h = let (a, _, x) = bind-ok m f r b h in fails a (m r).1 b x

fail-Fails : {A : Type 0} (e : Error) → Fails (fail {A = A} e)
unfolding fail
fail-Fails e r a h = cc h

module _ (c : Reconciler) where
  report_cleanup-Fails : (e : Error) → Fails (report_cleanup c e)
  unfolding report_cleanup
  report_cleanup-Fails e = bind-Fails _ _ (λ _.
      bind-Fails _ _
        (λ _. bind-Fails _ _ (λ _. bind-Fails _ _ (λ _. bind-Fails _ _ (λ u. fail-Fails _)))))

  -- the cleanup that is announced from `s` succeeds
  abbrev pub CleanupSucceeds : Run → Type 0
  CleanupSucceeds s = (cleanup c (start_cleanup c s).1).0 ≡ ok tt

  after_cleanup-ok : (a : Check) (s : Run) → (after_cleanup c a s).0 ≡ ok tt → a ≡ ok tt
  after_cleanup-ok (ok _) s h = refl
  after_cleanup-ok (err e) s h = elim (report_cleanup-Fails e s tt h) [ ]

  catch-ok : (a b : Check) → Result.ok a ≡ Result.ok b → b ≡ ok tt → a ≡ ok tt
  catch-ok a b h e = cc (h, e)

  clean_up-ok : (r : Run) → (clean_up c r).0 ≡ ok tt → CleanupSucceeds r
  unfolding clean_up catch
  clean_up-ok r h =
      let (_, _, x) = bind-ok (start_cleanup c) _ r tt h in
      let s = (start_cleanup c r).1 in
      let (a, y, z) = bind-ok (catch (cleanup c)) (after_cleanup c) s tt x in
      catch-ok (cleanup c s).0 a y (after_cleanup-ok a _ z)

  module _ (before : Log) where
    give_up_owned :
        (s : Run)
        → Only updates before s
        → Only updates before (give_up c true s).1 ⊎ CleanupSucceeds s
    unfolding give_up
    give_up_owned s h =
        bind-or (CleanupSucceeds s) before (clean_up c) _ s ((clean_up-Only before c).run s h)
          (λ _ done. inr (clean_up-ok s done))

    give_up_cases :
        (owns : Bool) (denied : Type 0) (s : Run)
        → (owns ≡ false → denied)
        → Only updates before s
        → Only updates before (give_up c owns s).1 ⊎ (denied ⊎ CleanupSucceeds s)
    give_up_cases false denied s d h = inr (inl (d refl))
    give_up_cases true denied s d h = elim (give_up_owned s h) [
      | inl kept ↦ inl kept
      | inr done ↦ inr (inr done)
    ]

    when_held_cases :
        (held : Bool) (r : Run)
        → Only updates before r
        → Only updates before (when_held c held r.instance r).1
          ⊎ (((is_singleton_owner c.env r.instance r).0 ≡ ok false)
              ⊎ CleanupSucceeds (is_singleton_owner c.env r.instance r).1)
    unfolding return
    when_held_cases false r h = inl h
    when_held_cases true r h =
        let asked = (is_singleton_owner-Only before c.env r.instance).run r h in
        bind-or _ before (is_singleton_owner c.env r.instance) (give_up c) r asked
          (λ owns e. give_up_cases owns _ _ (λ d. e ∙ ap Result.ok d) asked)

  -- The resource itself is written while it is being deleted, which is how its finalizer goes away,
  -- only after the cleanup of this run succeeded, or where the resource does not own the shared
  -- objects: otherwise the updates in the log are those from before.
  pub updates-finalize :
      (r : Run)
      → (calls updates (finalize c r).1.log ≡ calls updates r.log)
        ⊎ (((is_singleton_owner c.env r.instance r).0 ≡ ok false)
            ⊎ CleanupSucceeds (is_singleton_owner c.env r.instance r).1)
  unfolding finalize current ◌>>=◌
  updates-finalize r = when_held_cases (calls updates r.log) _ r refl
