-- ===== src/Handler/Quiet.antt =====
-- Calls that the steps of the reconciler do not make: the rules for each step they share.
use oci_openshift_autoscalin.Base.{String, ◌<>◌, Bool, false, Result, ok, err, ◌≡◌, ◌∙◌, refl}
use oci_openshift_autoscalin.Api.{Autoscaler, ConditionStatus, condition_false}
use oci_openshift_autoscalin.Exec.Preserves.{
  Preserves, return-Preserves, fail-Preserves, catch-Preserves, bind-Preserves,
}
use oci_openshift_autoscalin.Handler.{
  Reconciler, change, set_condition, current, ready_from_failed_stage, update_status, report,
  reporting,
}
use oci_openshift_autoscalin.Run.{Call, Log, EventType, Action}
use oci_openshift_autoscalin.Run.Calls.{
  calls-set_ready_condition_from_failed_stage, Only, ask-Only, modify-Only,
  calls-set_condition_and_record,
}

-- neither an event nor a write of the status is of the kind
pub record SparesStatus (p : Call → Bool) : Type 0 where
  pub event : (t : EventType) (reason message : String) → p (Call.event t reason message) ≡ false
  pub status : (a : Autoscaler) → p (Call.update_status a) ≡ false

module _ (p : Call → Bool) (before : Log) where
  pub change-Only : (f : Autoscaler → Autoscaler) → Preserves (Only p before) (change f)
  change-Only f = modify-Only p before _ (λ r. refl)

  pub current-Only : Preserves (Only p before) current
  unfolding current
  current-Only = record { run = λ r h. h }

module _ (c : Reconciler) (p : Call → Bool) (spares : SparesStatus p) (before : Log) where
  pub set_condition-Only :
      (type : String) (status : ConditionStatus) (reason message : String)
      → Preserves (Only p before) (set_condition c type status reason message)
  set_condition-Only type status reason message =
      modify-Only p before _
        (calls-set_condition_and_record p spares.event c.kube c.recorder type status reason message)

  pub ready_from_failed_stage-Only : Preserves (Only p before) (ready_from_failed_stage c)
  unfolding ready_from_failed_stage
  ready_from_failed_stage-Only = record {
    run = λ r h. calls-set_ready_condition_from_failed_stage p spares.event c.kube c.recorder r ∙ h;
  }

  pub update_status-Only : Preserves (Only p before) (update_status c)
  unfolding update_status
  update_status-Only = bind-Preserves _ _ (current-Only p before) (λ a.
      bind-Preserves _ _ (ask-Only p before (Call.update_status a) _ (spares.status a))
        (λ b. modify-Only p before _ (λ r. refl)))

  report-Only :
      {A : Type 0} (type reason text : String) (first : Action (Unit {0}))
      → Preserves (Only p before) first
      → (r : Result A) → Preserves (Only p before) (report c type reason text first r)
  report-Only type reason text first keep_first (ok a) = return-Preserves a
  report-Only type reason text first keep_first (err e) =
      bind-Preserves _ _
        (bind-Preserves _ _ keep_first
          (λ _. set_condition-Only type condition_false reason (text <> ": " <> e.message)))
        (λ _. fail-Preserves e)

  pub reporting-Only :
      {A : Type 0} (type reason text : String) (first : Action (Unit {0})) (m : Action A)
      → Preserves (Only p before) first
      → Preserves (Only p before) m
      → Preserves (Only p before) (reporting c type reason text first m)
  unfolding reporting
  reporting-Only type reason text first m keep_first keep_m =
      bind-Preserves _ _ (catch-Preserves m keep_m) (report-Only type reason text first keep_first)
