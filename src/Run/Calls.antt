-- ===== src/Run/Calls.antt =====
-- The calls of one kind in a log, and computations that make none of them.
use oci_openshift_autoscalin.Base.{
  String, Bool, true, false, Option, none, some, [], ◌∷◌, ◌++◌, ◌≡◌, refl, ◌∙◌, arith, Result,
  if◌then◌else◌,
}
use mathlib.Core.List.{append-nil}
use oci_openshift_autoscalin.Exec.{modify}
use oci_openshift_autoscalin.Exec.Preserves.{Preserves}
use oci_openshift_autoscalin.Api.{Condition, ConditionStatus, condition_false, condition_ready}
use oci_openshift_autoscalin.Kube.{Kube}
use oci_openshift_autoscalin.Run.{Run, Call, Log, EventType, normal, warning, ask}
use oci_openshift_autoscalin.Status.{
  report_failed, first_false_condition, stages, set_condition_and_record,
  set_ready_condition_from_failed_stage, set_aggregate_ready_condition,
}

unfoldable pub calls : (Call → Bool) → Log → Log
calls p [] = []
calls p (c ∷ log) = let rest = calls p log in if p c then c ∷ rest else rest

pub calls-append :
    (p : Call → Bool) (log more : Log) → calls p (log ++ more) ≡ calls p log ++ calls p more
unfolding calls
calls-append p [] more = refl
calls-append p (c ∷ log) more = ground (arith, calls-append p log more)

-- a call of another kind leaves the calls of the kind as they are
pub calls-quiet :
    (p : Call → Bool) (log : Log) (c : Call) → p c ≡ false → calls p (log ++ c ∷ []) ≡ calls p log
unfolding calls
calls-quiet p log c h = calls-append p log (c ∷ []) ∙ rw h (append-nil (calls p log))

-- the calls of the kind are the ones of `before`
abbrev pub Only : (Call → Bool) → Log → Run → Type 0
Only p before r = calls p r.log ≡ before

module _ (p : Call → Bool) (before : Log) where
  pub ask-Only :
      {A : Type 0} (c : Call) (answer : Log → Result A)
      → p c ≡ false
      → Preserves (Only p before) (ask c answer)
  unfolding ask
  ask-Only c answer h = record { run = λ r e. calls-quiet p r.log c h ∙ e }

  pub modify-Only :
      (f : Run → Run)
      → ((r : Run) → calls p (f r).log ≡ calls p r.log)
      → Preserves (Only p before) (modify f)
  unfolding modify
  modify-Only f h = record { run = λ r e. h r ∙ e }

-- The conditions and their events make no call of the kind.
module _ (p : Call → Bool)
    (quiet : (t : EventType) (reason message : String) → p (Call.event t reason message) ≡ false)
    (k : Kube) (recorder : Bool) where
  pub calls-set_condition_and_record :
      (type : String) (status : ConditionStatus) (reason message : String) (r : Run)
      → calls p (set_condition_and_record k recorder type status reason message r).log
        ≡ calls p r.log
  unfolding set_condition_and_record
  calls-set_condition_and_record type status reason message r = ground (
    arith,
    calls-quiet p r.log (Call.event normal reason message) (quiet normal reason message),
    calls-quiet p r.log (Call.event warning reason message) (quiet warning reason message),
  )

  calls-if :
      (b : Bool) (r s : Run) (log : Log)
      → calls p r.log ≡ log
      → calls p s.log ≡ log
      → calls p (if b then r else s).log ≡ log
  calls-if true r s log h i = h
  calls-if false r s log h i = i

  calls-report_failed :
      (o : Option Condition) (r : Run)
      → calls p (report_failed k recorder o r).0.log ≡ calls p r.log
  calls-report_failed none r = refl
  calls-report_failed (some c) r =
      calls-set_condition_and_record condition_ready condition_false c.reason c.message _

  pub calls-set_ready_condition_from_failed_stage :
      (r : Run) → calls p (set_ready_condition_from_failed_stage k recorder r).0.log ≡ calls p r.log
  unfolding set_ready_condition_from_failed_stage
  calls-set_ready_condition_from_failed_stage r =
      calls-report_failed (first_false_condition k r.instance stages) r

  pub calls-set_aggregate_ready_condition :
      (r : Run) → calls p (set_aggregate_ready_condition k recorder r).log ≡ calls p r.log
  unfolding set_aggregate_ready_condition
  calls-set_aggregate_ready_condition r =
      search (calls-if, calls-set_ready_condition_from_failed_stage, calls-set_condition_and_record)
