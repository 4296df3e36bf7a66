-- ===== src/Kube.antt =====
-- What the operator calls in the Kubernetes libraries (k8s.io/apimachinery and
-- sigs.k8s.io/controller-runtime) and two of Go's, as parameters: no code of theirs is modelled.
-- `IsLawful` states the documented behaviour that theorems rely on.
use oci_openshift_autoscalin.Base.{
  String, Bool, true, false, Option, some, List, ◌≡◌, ◌==◌, if◌then◌else◌, Result, Check,
}
use oci_openshift_autoscalin.Api.{Condition, Status}

pub record Kube : Type 0 where
  -- `validation.IsDNS1123Label`: the reasons why a text is no label
  pub is_dns1123_label : String → List String
  -- `meta.SetStatusCondition`
  pub set_status_condition : List Condition → Condition → List Condition
  -- `meta.FindStatusCondition`
  pub find_status_condition : List Condition → String → Option Condition
  -- `controllerutil.ContainsFinalizer`, `AddFinalizer` and `RemoveFinalizer` on the list
  pub contains_finalizer : List String → String → Bool
  pub add_finalizer : List String → String → List String
  pub remove_finalizer : List String → String → List String
  -- `reflect.DeepEqual` of two statuses
  pub deep_equal : Status → Status → Bool
  -- `%q` of Go's `fmt`
  pub quote : String → String
  -- the group that `schema.ParseGroupVersion` reads
  pub parse_group : String → Result String
  -- the error of Go's `net.ParseCIDR`
  pub parse_cidr : String → Check

pub record IsLawful (k : Kube) : Type 0 where
  -- a condition that was set is found under its type, the others stay
  pub find-set :
      (cs : List Condition) (c : Condition) (t : String)
      → k.find_status_condition (k.set_status_condition cs c) t
        ≡ (if c.type == t then some c else k.find_status_condition cs t)
  -- a condition is found under its own type
  pub find_type :
      (cs : List Condition) (t : String) (c : Condition)
      → k.find_status_condition cs t ≡ some c
      → c.type ≡ t
  pub contains-add :
      (fs : List String) (f : String) → k.contains_finalizer (k.add_finalizer fs f) f ≡ true
  pub contains-remove :
      (fs : List String) (f : String) → k.contains_finalizer (k.remove_finalizer fs f) f ≡ false
