-- ===== src/Status.antt =====
-- Conditions, phase and events (internal/controllers/status.go).
pub mod Events
pub mod Ready
use oci_openshift_autoscalin.Base.{
  String, Bool, true, false, Option, none, some, List, [], ◌∷◌, ◌++◌, ◌||◌, ◌&&◌, not, ◌==◌,
  if◌then◌else◌,
}
use oci_openshift_autoscalin.Api.{
  Autoscaler, Condition, ConditionStatus, condition_true, condition_false, condition_unknown,
  same_status, Status, condition_ready, condition_policy_accepted, condition_providers_ready,
  condition_autoscaler_ready, condition_scaling_resources_ready,
}
use oci_openshift_autoscalin.Kube.{Kube}
use oci_openshift_autoscalin.Run.{Run, Call, EventType, normal, warning}

-- PhaseInitializing, …
abbrev pub phase_initializing : String
phase_initializing = "Initializing"

abbrev pub phase_blocked : String
phase_blocked = "Blocked"

abbrev pub phase_reconciling : String
phase_reconciling = "Reconciling"

abbrev pub phase_ready : String
phase_ready = "Ready"

abbrev pub phase_error : String
phase_error = "Error"

abbrev pub phase_cleaning_up : String
phase_cleaning_up = "CleaningUp"

-- `instance.Status.Phase = phase` and the like
abbrev pub with_phase : String → Autoscaler → Autoscaler
with_phase phase a = record a { status = record (a.status) { phase = phase } }

abbrev pub observe_generation : Autoscaler → Autoscaler
observe_generation a = record a {
  status = record (a.status) { observed_generation = a.metadata.generation };
}

unfoldable pub event_type_for_status : ConditionStatus → Option EventType
event_type_for_status condition_false = some warning
event_type_for_status condition_true = some normal
event_type_for_status condition_unknown = none

-- the stages in the order in which a failure is looked for
abbrev pub stages : List String
stages =
    condition_policy_accepted ∷ condition_providers_ready ∷ condition_autoscaler_ready
    ∷ condition_scaling_resources_ready ∷ []

module _ (k : Kube) where
  unfoldable pub find_condition : Autoscaler → String → Option Condition
  find_condition a type = k.find_status_condition a.status.conditions type

  unfoldable pub set_autoscaler_condition :
      Autoscaler → String → ConditionStatus → String → String → Autoscaler
  set_autoscaler_condition a type status reason message =
      let c : Condition = record {
        type = type;
        status = status;
        reason = reason;
        message = message;
        observed_generation = a.metadata.generation;
      } in
      record a {
        status = record (a.status) { conditions = k.set_status_condition a.status.conditions c };
      }

  unfoldable pub condition_is_true : Autoscaler → String → Bool
  unfolding find_condition
  condition_is_true a type = elim (find_condition a type) [
    | none ↦ false
    | some c ↦ same_status c.status condition_true
  ]

  unfoldable pub autoscaler_stack_ready : Autoscaler → Bool
  autoscaler_stack_ready a =
      a.status.capi_installed
      && a.status.cluster_autoscaler_deployed
      && condition_is_true a condition_policy_accepted
      && condition_is_true a condition_providers_ready
      && condition_is_true a condition_autoscaler_ready
      && condition_is_true a condition_scaling_resources_ready

  abbrev is_false : Option Condition → Bool
  is_false none = false
  is_false (some c) = same_status c.status condition_false

  unfoldable pub first_false_condition : Autoscaler → List String → Option Condition
  first_false_condition a [] = none
  first_false_condition a (type ∷ types) =
      let rest = first_false_condition a types in
      if is_false (find_condition a type) then find_condition a type else rest

  unfoldable pub condition_changed : Autoscaler → String → ConditionStatus → String → String → Bool
  unfolding find_condition
  condition_changed a type status reason message = elim (find_condition a type) [
    | none ↦ true
    | some c ↦
        not (same_status c.status status) || not (c.reason == reason) || not (c.message == message)
  ]

  -- `has_recorder`: the reconciler's EventRecorder is not nil
  module _ (has_recorder : Bool) where
    unfoldable pub record_event : EventType → String → String → Run → Run
    record_event type reason message r =
        if has_recorder then record r { log = r.log ++ Call.event type reason message ∷ [] } else r

    abbrev record_change : Bool → Option EventType → String → String → Run → Run
    record_change true (some type) reason message r = record_event type reason message r
    record_change _ _ reason message r = r

    unfoldable pub set_condition_and_record : String → ConditionStatus → String → String → Run → Run
    unfolding condition_changed set_autoscaler_condition event_type_for_status record_event
    set_condition_and_record type status reason message r =
        let changed = condition_changed r.instance type status reason message in
        record_change changed (event_type_for_status status) reason message
          (record r { instance = set_autoscaler_condition r.instance type status reason message })

    abbrev pub phase_for : Condition → String
    phase_for c = if c.type == condition_policy_accepted then phase_blocked else phase_error

    abbrev pub report_failed : Option Condition → Run → Run × Bool
    report_failed none r = (r, false)
    report_failed (some c) r =
        let r' = record r { instance = with_phase (phase_for c) r.instance } in
        (set_condition_and_record condition_ready condition_false c.reason c.message r', true)

    unfoldable pub set_ready_condition_from_failed_stage : Run → Run × Bool
    set_ready_condition_from_failed_stage r =
        report_failed (first_false_condition r.instance stages) r

    unfoldable pub set_aggregate_ready_condition : Run → Run
    set_aggregate_ready_condition r =
        let r' = record r { instance = observe_generation r.instance } in
        let (failed, reported) = set_ready_condition_from_failed_stage r' in
        let ready =
          set_condition_and_record condition_ready condition_true "ReconcileSuccess"
            "OCI CAPI autoscaler is ready"
            (record r' { instance = with_phase phase_ready r'.instance }) in
        let progressing =
          set_condition_and_record condition_ready condition_unknown "Reconciling"
            "OCI CAPI autoscaler reconciliation is still in progress"
            (record r' { instance = with_phase phase_reconciling r'.instance }) in
        if reported
        then failed
        else if autoscaler_stack_ready r'.instance
        then ready
        else progressing
