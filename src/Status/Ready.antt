-- ===== src/Status/Ready.antt =====
-- The Ready condition and the phase, from the four stages.
use oci_openshift_autoscalin.Base.{
  String, Bool, true, false, Option, none, some, List, [], ◌∷◌, ◌≡◌, ◌≢◌, inl, inr, refl, sym, ◌∙◌,
  ◌==◌, eq_iff, arith, if◌then◌else◌, Bool-cases,
}
use oci_openshift_autoscalin.Api.{
  Autoscaler, Condition, ConditionStatus, condition_true, condition_false, condition_unknown,
  condition_ready, condition_policy_accepted, condition_providers_ready, condition_autoscaler_ready,
  condition_scaling_resources_ready,
}
use oci_openshift_autoscalin.Kube.{Kube, IsLawful}
use oci_openshift_autoscalin.Run.{Run}
use oci_openshift_autoscalin.Status.{
  find_condition, condition_is_true, autoscaler_stack_ready, first_false_condition, stages,
  set_condition_and_record, set_ready_condition_from_failed_stage, set_aggregate_ready_condition,
  phase_blocked, phase_error, phase_ready, phase_reconciling, set_autoscaler_condition,
  observe_generation,
}
use oci_openshift_autoscalin.Status.Events.{
  instance-set_condition_and_record, find-set_condition_and_record,
}

module _ (k : Kube) (lawful : IsLawful k) (recorder : Bool) where
  -- status and phase that a reported Ready condition comes with
  abbrev pub Reports : Run → ConditionStatus → String → Type 0
  Reports r status phase =
      (c : Condition) × (find_condition k r.instance condition_ready ≡ some c)
      × (c.status ≡ status)
      × (r.instance.status.phase ≡ phase)
      × (c.observed_generation ≡ r.instance.metadata.generation)

  reports :
      (status : ConditionStatus) (reason message phase : String) (r : Run)
      → r.instance.status.phase ≡ phase
      → Reports
          (set_condition_and_record k recorder condition_ready status reason message r)
          status
          phase
  unfolding set_autoscaler_condition
  reports status reason message phase r h = (
    _,
    find-set_condition_and_record k lawful recorder condition_ready status reason message r
        condition_ready,
    refl,
    rw (instance-set_condition_and_record k lawful recorder condition_ready status reason message r)
        h,
    rw (instance-set_condition_and_record k lawful recorder condition_ready status reason message r)
        refl,
  )

  pub failed_stage-Reports :
      (r : Run) (c : Condition)
      → first_false_condition k r.instance stages ≡ some c
      → let after = set_ready_condition_from_failed_stage k recorder r in
        Reports after.0 condition_false
          (if c.type == condition_policy_accepted then phase_blocked else phase_error)
        × (after.1 ≡ true)
  unfolding set_ready_condition_from_failed_stage
  failed_stage-Reports r c h = rw h (reports condition_false c.reason c.message _ _ refl, refl)

  pub no_failed_stage :
      (r : Run)
      → first_false_condition k r.instance stages ≡ none
      → set_ready_condition_from_failed_stage k recorder r ≡ (r, false)
  unfolding set_ready_condition_from_failed_stage
  no_failed_stage r h = rw h

  -- what a run reports, by the first failed stage and whether the stack is ready
  abbrev pub Verdict : Run → Option Condition → Bool → Type 0
  Verdict r (some c) _ =
      Reports r condition_false
        (if c.type == condition_policy_accepted then phase_blocked else phase_error)
  Verdict r none true = Reports r condition_true phase_ready
  Verdict r none false = Reports r condition_unknown phase_reconciling

  aggregate-Verdict :
      (r : Run) (failed : Option Condition) (stack : Bool)
      → first_false_condition k (observe_generation r.instance) stages ≡ failed
      → autoscaler_stack_ready k (observe_generation r.instance) ≡ stack
      → Verdict (set_aggregate_ready_condition k recorder r) failed stack
  unfolding set_aggregate_ready_condition
  aggregate-Verdict r (some c) stack h _ =
      let (said, reported) =
        failed_stage-Reports (record r { instance = observe_generation r.instance }) c h in
      rw reported said
  aggregate-Verdict r none true h s =
      rw (no_failed_stage (record r { instance = observe_generation r.instance }) h, s)
        (reports condition_true _ _ _ _ refl)
  aggregate-Verdict r none false h s =
      rw (no_failed_stage (record r { instance = observe_generation r.instance }) h, s)
        (reports condition_unknown _ _ _ _ refl)

  first_false_observed :
      (a : Autoscaler) (types : List String)
      → first_false_condition k (observe_generation a) types ≡ first_false_condition k a types
  unfolding first_false_condition find_condition
  first_false_observed a [] = refl
  first_false_observed a (t ∷ types) = rw (first_false_observed a types)

  stack_ready_observed :
      (a : Autoscaler)
      → autoscaler_stack_ready k (observe_generation a) ≡ autoscaler_stack_ready k a
  unfolding autoscaler_stack_ready condition_is_true
  stack_ready_observed a = refl

  -- Exactly the stages decide: with a failed stage Ready is false, and the phase is Blocked for the
  -- policy and Error for the others; with none failed and the stack ready, Ready is true and the
  -- phase Ready; else Ready is unknown and the phase Reconciling. The condition carries the
  -- generation of the object.
  pub aggregate_ready :
      (r : Run)
      → Verdict
          (set_aggregate_ready_condition k recorder r)
          (first_false_condition k r.instance stages)
          (autoscaler_stack_ready k r.instance)
  aggregate_ready r =
      aggregate-Verdict r _ _ (first_false_observed r.instance stages)
        (stack_ready_observed r.instance)

  phase_blocked-ne-ready : phase_blocked ≢ phase_ready
  phase_blocked-ne-ready h = cc ((eq_iff phase_blocked phase_ready).1 h)

  phase_error-ne-ready : phase_error ≢ phase_ready
  phase_error-ne-ready h = cc ((eq_iff phase_error phase_ready).1 h)

  phase_reconciling-ne-ready : phase_reconciling ≢ phase_ready
  phase_reconciling-ne-ready h = cc ((eq_iff phase_reconciling phase_ready).1 h)

  abbrev pub StagesHold : Autoscaler → Type 0
  StagesHold a =
      (a.status.capi_installed ≡ true)
      × (a.status.cluster_autoscaler_deployed ≡ true)
      × (condition_is_true k a condition_policy_accepted ≡ true)
      × (condition_is_true k a condition_providers_ready ≡ true)
      × (condition_is_true k a condition_autoscaler_ready ≡ true)
      × (condition_is_true k a condition_scaling_resources_ready ≡ true)

  stack_ready-StagesHold : (a : Autoscaler) → autoscaler_stack_ready k a ≡ true → StagesHold a
  unfolding autoscaler_stack_ready
  stack_ready-StagesHold a h = ground arith

  ready_of_Verdict :
      (r after : Run) (failed : Option Condition) (stack : Bool)
      → autoscaler_stack_ready k r.instance ≡ stack
      → Verdict after failed stack
      → after.instance.status.phase ≡ phase_ready
      → StagesHold r.instance
  ready_of_Verdict r after (some c) stack s v h =
      elim (Bool-cases (c.type == condition_policy_accepted)) [
        | inl e ↦ absurd (phase_blocked-ne-ready (sym (rw e at (v.3)) ∙ h))
        | inr e ↦ absurd (phase_error-ne-ready (sym (rw e at (v.3)) ∙ h))
      ]
  ready_of_Verdict r after none true s v h = stack_ready-StagesHold r.instance s
  ready_of_Verdict r after none false s v h = absurd (phase_reconciling-ne-ready (sym v.3 ∙ h))

  -- The phase Ready is reported only if the providers are installed, the autoscaler is deployed and
  -- all four stage conditions are true.
  pub ready_phase-StagesHold :
      (r : Run)
      → (set_aggregate_ready_condition k recorder r).instance.status.phase ≡ phase_ready
      → StagesHold r.instance
  ready_phase-StagesHold r =
      ready_of_Verdict r (set_aggregate_ready_condition k recorder r) _ _ refl (aggregate_ready r)
