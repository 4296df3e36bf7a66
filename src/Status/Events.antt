-- ===== src/Status/Events.antt =====
-- Conditions that are set, and the events that are sent for them.
use oci_openshift_autoscalin.Base.{String, Bool, true, some, ◌≡◌, refl, ◌==◌, arith, if◌then◌else◌}
use oci_openshift_autoscalin.Api.{
  Condition, ConditionStatus, condition_true, condition_false, condition_unknown, same_status,
}
use oci_openshift_autoscalin.Kube.{Kube, IsLawful}
use oci_openshift_autoscalin.Run.{Run}
use oci_openshift_autoscalin.Status.{
  find_condition, set_autoscaler_condition, set_condition_and_record,
}

pub same_status_refl : (s : ConditionStatus) → same_status s s ≡ true
same_status_refl condition_true = refl
same_status_refl condition_false = refl
same_status_refl condition_unknown = refl

module _ (k : Kube) (lawful : IsLawful k) (recorder : Bool) where
  module _ (type : String) (status : ConditionStatus) (reason message : String) (r : Run) where
    abbrev made : Condition
    made = record {
      type = type;
      status = status;
      reason = reason;
      message = message;
      observed_generation = r.instance.metadata.generation;
    }

    pub instance-set_condition_and_record :
        (set_condition_and_record k recorder type status reason message r).instance
        ≡ set_autoscaler_condition k r.instance type status reason message
    unfolding set_condition_and_record
    instance-set_condition_and_record = ground arith

    pub find-set_condition_and_record :
        (t : String)
        → find_condition k
            (set_condition_and_record k recorder type status reason message r).instance
            t
          ≡ (if type == t then some made else find_condition k r.instance t)
    unfolding set_autoscaler_condition find_condition
    find-set_condition_and_record t =
        rw instance-set_condition_and_record (lawful.find-set r.instance.status.conditions made t)
