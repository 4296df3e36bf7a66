-- ===== src/Objects.antt =====
-- The Kubernetes objects that the operator manages, and the components that group them
-- (internal/components/component.go). The payload of an object is what the operator sets in it.
use oci_openshift_autoscalin.Base.{ℕ, String, Bool, Option, List, Result}
use oci_openshift_autoscalin.Base.Int.{ℤ}
use oci_openshift_autoscalin.Base.Dict.{Dict}

pub record PolicyRule : Type 0 where
  pub api_groups : List String
  pub resources : List String
  pub verbs : List String

pub record Subject : Type 0 where
  pub kind : String
  pub name : String
  pub namespace : String

pub record RoleRef : Type 0 where
  pub api_group : String
  pub kind : String
  pub name : String

-- SecurityContextConstraints
pub record Scc : Type 0 where
  pub run_as_user : String
  pub se_linux_context : String
  pub fs_group : String
  pub supplemental_groups : String
  pub allow_privileged_container : Bool
  pub allow_host_dir_volume_plugin : Bool
  pub allow_host_network : Bool
  pub allow_host_ports : Bool
  pub allow_host_pid : Bool
  pub allow_host_ipc : Bool
  pub allow_privilege_escalation : Bool
  pub default_allow_privilege_escalation : Bool
  pub default_add_capabilities : List String
  pub allowed_capabilities : List String
  pub required_drop_capabilities : List String
  pub volumes : List String
  pub seccomp_profiles : List String
  pub users : List String

pub record Subnet : Type 0 where
  pub id : String
  pub name : String
  pub role : String

pub record IdentityRef : Type 0 where
  pub api_version : String
  pub kind : String
  pub name : String
  pub namespace : String

pub record OciClusterSpec : Type 0 where
  pub oci_resource_identifier : String
  pub compartment_id : String
  pub control_plane_host : String
  pub control_plane_port : ℕ
  pub api_server_lb_id : String
  pub skip_network_management : Bool
  pub vcn_id : String
  pub subnets : List Subnet
  pub network_security_groups : List Subnet
  pub identity_ref : Option IdentityRef

-- The operator sets no namespace.
pub record InfrastructureRef : Type 0 where
  pub api_group : String
  pub kind : String
  pub name : String
  pub namespace : Option String

pub record CapiClusterSpec : Type 0 where
  pub pod_cidr_blocks : List String
  pub service_domain : String
  pub service_cidr_blocks : List String
  pub infrastructure_ref : Option InfrastructureRef

pub record VnicAttachment : Type 0 where
  pub subnet_name : String
  pub assign_public_ip : Bool
  pub display_name : String
  pub nic_index : ℕ

pub record MachineSpec : Type 0 where
  pub image_id : String
  pub shape : String
  pub ocpus : String
  pub memory_in_gbs : String
  pub subnet_name : String
  pub assign_private_dns_record : Bool
  pub freeform_tags : Dict String
  pub defined_tags : Dict (Dict String)
  pub boot_volume_type : Option String
  pub vnic_attachments : List VnicAttachment
  pub compute_cluster_id : Option String
  pub enabled_plugins : List String

pub record Rollout : Type 0 where
  pub type : String
  pub max_surge : ℕ
  pub max_unavailable : ℕ

-- `others`: the fields of the specification that the operator does not name
pub record MachineDeploymentSpec : Type 0 where
  pub replicas : Option ℤ
  pub cluster_name : String
  pub match_labels : Dict String
  pub template_labels : Dict String
  pub template_cluster_name : String
  pub data_secret_name : String
  pub infrastructure_ref : Option InfrastructureRef
  pub failure_domain : Option String
  pub rollout : Option Rollout
  pub others : Dict String

pub record NodeCondition : Type 0 where
  pub type : String
  pub status : String
  pub timeout_seconds : ℕ

pub record HealthCheckSpec : Type 0 where
  pub cluster_name : String
  pub match_labels : Dict String
  pub node_startup_timeout_seconds : ℕ
  pub unhealthy_node_conditions : List NodeCondition
  pub trigger_if : String

pub data Payload : Type 0 where
  -- an object that the operator only labels, or one that does not exist yet
  empty : Payload
  secret : Dict String → Payload
  cluster_role : List PolicyRule → Payload
  cluster_role_binding : RoleRef → List Subject → Payload
  scc : Scc → Payload
  oci_cluster : OciClusterSpec → Payload
  -- the type of the principal and the allowed namespaces
  oci_cluster_identity : String → List String → Payload
  capi_cluster : CapiClusterSpec → Payload
  machine_template : MachineSpec → Payload
  machine_deployment : MachineDeploymentSpec → Payload
  machine_health_check : HealthCheckSpec → Payload

pub record Object : Type 0 where
  pub kind : String
  pub namespace : String
  pub name : String
  pub labels : Dict String
  pub annotations : Dict String
  pub payload : Payload

-- `MutateFn` may be nil.
pub record Subcomponent : Type 0 where
  pub name : String
  pub object : Object
  pub mutate_fn : Option (Object → Result Object)

pub record Component : Type 0 where
  pub instance_name : String
  pub name : String
  pub subcomponents : List Subcomponent
