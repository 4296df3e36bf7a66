-- ===== src/Reconcile/Errors.antt =====
-- What a reconcile that fails writes into the status.
use oci_openshift_autoscalin.Base.{
  ℕ, Bool, true, false, Option, none, some, [], ◌∷◌, ◌++◌, ◌≡◌, ◌∙◌, ap, refl, Result, err, Error,
  Result-cases, inl, inr,
}
use oci_openshift_autoscalin.Api.{Autoscaler, Condition, condition_false, condition_ready}
use oci_openshift_autoscalin.Exec.{return, fail, catch, modify, ◌>>=◌, ◌>>◌}
use oci_openshift_autoscalin.Handler.{
  Reconciler, change, current, set_instance, add_failure, ready_from_failed_stage, update_status,
}
use oci_openshift_autoscalin.Kube.{IsLawful}
use oci_openshift_autoscalin.Reconcile.{report_unless, after_stack, reconcile_owned}
use oci_openshift_autoscalin.Run.{Run, Call, Log, Action, ask}
use oci_openshift_autoscalin.Run.Calls.{
  calls, calls-append, calls-set_condition_and_record, calls-set_ready_condition_from_failed_stage,
}
use oci_openshift_autoscalin.Stack.{reconcile_stack}
use oci_openshift_autoscalin.Status.{
  phase_blocked, find_condition, stages, first_false_condition, observe_generation, with_phase,
  phase_error, set_condition_and_record, set_ready_condition_from_failed_stage,
}
use oci_openshift_autoscalin.Status.Events.{find-set_condition_and_record}
use oci_openshift_autoscalin.Status.Ready.{failed_stage-Reports, no_failed_stage}

-- every call but an event
abbrev pub writes : Call → Bool
writes c = elim c [ Call.event t reason message ↦ false | _ ↦ true ]

module _ (c : Reconciler) (lawful : IsLawful c.kube) where
  -- the condition Ready is there and false
  abbrev pub NotReady : Autoscaler → Type 0
  NotReady a =
      (x : Condition) × (find_condition c.kube a condition_ready ≡ some x)
      × (x.status ≡ condition_false)

  log-update_status :
      (r : Run) → (update_status c r).1.log ≡ r.log ++ Call.update_status r.instance ∷ []
  unfolding update_status current ask modify ◌>>=◌
  log-update_status r = elim (Result-cases (c.env.update_status r.log r.instance)) [
    | inl (e, x) ↦ rw x refl
    | inr (a, x) ↦ rw x refl
  ]

  -- the last steps of a reconcile that failed
  abbrev finish : Error → Action (Option ℕ)
  finish e = do
    change observe_generation
    u ← catch (update_status c)
    fail (add_failure e "failed to update status after reconcile error" u)

  log-finish :
      (e : Error) (r : Run)
      → (finish e r).1.log ≡ r.log ++ Call.update_status (observe_generation r.instance) ∷ []
  unfolding modify catch fail ◌>>=◌
  log-finish e r = log-update_status (set_instance (observe_generation r.instance) r)

  -- one status is written, and it is not ready
  abbrev pub WritesNotReady : Log → Log → Type 0
  WritesNotReady before after =
      (a : Autoscaler) × (calls writes after ≡ calls writes before ++ Call.update_status a ∷ [])
      × NotReady a
      × (a.status.observed_generation ≡ a.metadata.generation)

  finish-WritesNotReady :
      (e : Error) (before : Log) (r : Run)
      → calls writes r.log ≡ calls writes before
      → NotReady r.instance
      → WritesNotReady before (finish e r).1.log
  unfolding find_condition calls
  finish-WritesNotReady e before r same (x, found, negative) =
      let a = observe_generation r.instance in
      (
        a,
        ap (calls writes) (log-finish e r)
            ∙ calls-append writes r.log (Call.update_status a ∷ [])
            ∙ ap (λ l. l ++ Call.update_status a ∷ []) same,
        (x, found, negative),
        refl,
      )

  reported-NotReady :
      (r : Run) (failed : Option Condition)
      → first_false_condition c.kube r.instance stages ≡ failed
      → (set_ready_condition_from_failed_stage c.kube c.recorder r).1 ≡ true
      → NotReady (set_ready_condition_from_failed_stage c.kube c.recorder r).0.instance
  reported-NotReady r none h reported =
      cc (ap (λ x. x.1) (no_failed_stage c.kube lawful c.recorder r h), reported)
  reported-NotReady r (some failed) h reported =
      let ((x, found, negative, _, _), _) =
        failed_stage-Reports c.kube lawful c.recorder r failed h in
      (x, found, negative)

  after_report-WritesNotReady :
      (e : Error) (before : Log) (reported : Bool) (s : Run)
      → calls writes s.log ≡ calls writes before
      → (reported ≡ true → NotReady s.instance)
      → WritesNotReady before ((report_unless c e reported >>= λ _. finish e) s).1.log
  unfolding ◌>>=◌ return modify
  after_report-WritesNotReady e before true s same ready =
      finish-WritesNotReady e before s same (ready refl)
  after_report-WritesNotReady e before false s same ready =
      let t = set_instance (with_phase phase_error s.instance) s in
      let u =
        set_condition_and_record c.kube c.recorder condition_ready condition_false "ReconcileError"
          e.message t in
      finish-WritesNotReady e before u
        (calls-set_condition_and_record writes (λ t reason message. refl) c.kube c.recorder
            condition_ready condition_false "ReconcileError" e.message t
          ∙ same)
        (
          _,
          find-set_condition_and_record c.kube lawful c.recorder condition_ready condition_false
              "ReconcileError" e.message t condition_ready,
          refl,
        )

  after_stack-WritesNotReady :
      (original : Autoscaler) (e : Error) (r : Run)
      → WritesNotReady r.log (after_stack c original (err e) r).1.log
  unfolding ready_from_failed_stage ◌>>=◌
  after_stack-WritesNotReady original e r =
      after_report-WritesNotReady e r.log
        (set_ready_condition_from_failed_stage c.kube c.recorder r).1
        (set_ready_condition_from_failed_stage c.kube c.recorder r).0
        (calls-set_ready_condition_from_failed_stage writes (λ t reason message. refl) c.kube
          c.recorder r)
        (reported-NotReady r _ refl)

  after_result-WritesNotReady :
      (original : Autoscaler) (a : Result ℕ) (e : Error) (s : Run)
      → a ≡ err e
      → WritesNotReady s.log (after_stack c original a s).1.log
  after_result-WritesNotReady original a e s h = rw h (after_stack-WritesNotReady original e s)

  -- When a stage of the reconcile ends with an error, exactly one status is written after the
  -- stages and nothing else but events: in it the condition Ready is false and the generation is
  -- the one of the resource. Whether that write succeeds does not matter.
  pub reconcile_owned-WritesNotReady :
      (r : Run) (e : Error)
      → (reconcile_stack c r).0 ≡ err e
      → WritesNotReady (reconcile_stack c r).1.log (reconcile_owned c r).1.log
  unfolding reconcile_owned current catch ◌>>=◌
  reconcile_owned-WritesNotReady r e h =
      after_result-WritesNotReady r.instance (reconcile_stack c r).0 e (reconcile_stack c r).1 h

  -- one status is written, it is blocked and not ready
  abbrev pub WritesBlocked : Log → Log → Type 0
  WritesBlocked before after =
      (a : Autoscaler) × (calls writes after ≡ calls writes before ++ Call.update_status a ∷ [])
      × NotReady a
      × (a.status.phase ≡ phase_blocked)
