-- ===== src/Api.antt =====
-- The custom resource OCIClusterAutoscaler (api/v1alpha1/ociclusterautoscaler_types.go).
-- Pointers to optional values are `Option`; times are seconds; `status.conditions` carries the
-- fields that the operator sets (`lastTransitionTime` is the API library's and is not modelled).
use oci_openshift_autoscalin.Base.{ℕ, String, Bool, Option, List}
use oci_openshift_autoscalin.Base.Int.{ℤ}

pub record ShapeConfig : Type 0 where
  pub cpus : Option ℤ
  pub memory : Option ℤ

pub record AutoscalingSpec : Type 0 where
  pub min_nodes : Option ℤ
  pub max_nodes : Option ℤ
  pub shape : String
  pub shape_config : Option ShapeConfig
  pub image_id : String
  pub pool_identifier : String
  pub enable_rdma : Bool
  pub rdma_compute_cluster_id : String
  pub rdma_failure_domain : String

pub record CapiSpec : Type 0 where
  pub cluster_name : String

pub record ClusterAutoscalerSpec : Type 0 where
  pub repository_url : String
  pub name : String
  pub service_account_name : String
  pub cloud_provider : String
  pub create_rbac : Option Bool
  pub create_service_account : Option Bool
  pub version : String

pub record Spec : Type 0 where
  pub autoscaling : AutoscalingSpec
  pub capi : CapiSpec
  pub cluster_autoscaler : ClusterAutoscalerSpec

pub data ConditionStatus : Type 0 where
  condition_true condition_false condition_unknown : ConditionStatus

abbrev pub same_status : ConditionStatus → ConditionStatus → Bool
same_status condition_true condition_true = Bool.true
same_status condition_false condition_false = Bool.true
same_status condition_unknown condition_unknown = Bool.true
same_status _ _ = Bool.false

pub record Condition : Type 0 where
  pub type : String
  pub status : ConditionStatus
  pub reason : String
  pub message : String
  pub observed_generation : ℕ

pub record Status : Type 0 where
  pub conditions : List Condition
  pub phase : String
  pub capi_installed : Bool
  pub cluster_autoscaler_deployed : Bool
  pub observed_generation : ℕ

pub record NamespacedName : Type 0 where
  pub namespace : String
  pub name : String

pub record ObjectMeta : Type 0 where
  pub namespace : String
  pub name : String
  pub generation : ℕ
  pub creation_timestamp : ℕ
  pub deletion_timestamp : Option ℕ
  pub finalizers : List String

-- OCIClusterAutoscaler
pub record Autoscaler : Type 0 where
  pub metadata : ObjectMeta
  pub spec : Spec
  pub status : Status

abbrev pub condition_ready : String
condition_ready = "Ready"

abbrev pub condition_policy_accepted : String
condition_policy_accepted = "PolicyAccepted"

abbrev pub condition_providers_ready : String
condition_providers_ready = "ProvidersReady"

abbrev pub condition_autoscaler_ready : String
condition_autoscaler_ready = "AutoscalerReady"

abbrev pub condition_scaling_resources_ready : String
condition_scaling_resources_ready = "ScalingResourcesReady"

abbrev pub condition_cleanup_succeeded : String
condition_cleanup_succeeded = "CleanupSucceeded"
