-- ===== src/Config.antt =====
-- The autoscaling configuration and its validation
-- (internal/components/enable_autoscaler/config.go and shapes.go).
pub mod Resolve
use oci_openshift_autoscalin.Base.{
  ℕ, String, ◌<>◌, Bool, true, false, Option, none, some, List, [], ◌∷◌, ◌||◌, ◌&&◌, not, ◌==◌,
  if◌then◌else◌, leb, Result, ok, err, Check, Error, errorf, wrap_err, reject_if,
}
use oci_openshift_autoscalin.Base.Int.{ℤ, pos, lt_ℤ}
use oci_openshift_autoscalin.Base.Bind.{◌>>=◌, ◌>>◌}
use oci_openshift_autoscalin.Base.Text.{is_nil, is_blank, trim_space, has_prefix_upper}
use oci_openshift_autoscalin.Api.{Autoscaler, ShapeConfig}

pub record AutoScalingConfig : Type 0 where
  pub cpus : ℤ
  pub memory : ℤ
  pub min_nodes : ℤ
  pub max_nodes : ℤ
  pub shape : String
  pub image_id : String
  pub defined_tags_namespace : String
  pub enable_rdma : Bool
  pub rdma_compute_cluster_id : String
  pub rdma_failure_domain : String

pub record NetworkConfig : Type 0 where
  pub vcn_id : String
  pub ocp_subnet_id : String
  pub ocp_subnet_name : String
  pub compute_nsg_name : String
  pub network_security_group_id : String
  pub control_plane_endpoint : String
  pub api_server_load_balancer_id : String
  pub cluster_network_cidr_block : String
  pub service_network_cidr_block : String
  pub bare_metal_subnet_id : String
  pub bare_metal_subnet_name : String

-- `compartment_id` is the one field of ClusterConfig
pub record Config : Type 0 where
  pub compartment_id : String
  pub network : NetworkConfig
  pub autoscaling : AutoScalingConfig

-- `strings.HasPrefix(strings.ToUpper(strings.TrimSpace(shape)), "BM.")`
unfoldable pub is_bare_metal_shape : String → Bool
unfolding has_prefix_upper trim_space
is_bare_metal_shape shape =
    let s = trim_space shape in if is_nil s then false else has_prefix_upper s "BM."

abbrev pub or_default {ℓ} : {A : Type ℓ} → Option A → A → A
or_default none a = a
or_default (some b) a = b

abbrev pub or_text : String → String → String
or_text text fallback = if is_nil text then fallback else text

abbrev pub spec_cpus : Option ShapeConfig → Option ℤ
spec_cpus none = none
spec_cpus (some s) = s.cpus

abbrev pub spec_memory : Option ShapeConfig → Option ℤ
spec_memory none = none
spec_memory (some s) = s.memory

abbrev pub is_positive : ℤ → Bool
is_positive n = lt_ℤ (pos 0) n

-- `ValidateShapeConfig`, on the shape configuration of the instance (`none` also for a nil instance)
unfoldable pub validate_shape_config : Option ShapeConfig → Config → Check
validate_shape_config shape config = do
  reject_if (not (is_positive (or_default (spec_cpus shape) config.autoscaling.cpus)))
      (errorf "shapeConfig.cpus must be greater than 0")
  reject_if (not (is_positive (or_default (spec_memory shape) config.autoscaling.memory)))
      (errorf "shapeConfig.memory must be greater than 0")

-- what the custom resource overrides in the operator's configuration
unfoldable pub override : Autoscaler → Config → Config
override a config =
    let s = a.spec.autoscaling in
    let c = config.autoscaling in
    record config {
      autoscaling = record {
        cpus = or_default (spec_cpus s.shape_config) c.cpus;
        memory = or_default (spec_memory s.shape_config) c.memory;
        min_nodes = or_default s.min_nodes c.min_nodes;
        max_nodes = or_default s.max_nodes c.max_nodes;
        shape = or_text s.shape c.shape;
        image_id = or_text s.image_id c.image_id;
        defined_tags_namespace = c.defined_tags_namespace;
        enable_rdma = if s.enable_rdma then true else c.enable_rdma;
        rdma_compute_cluster_id = or_text s.rdma_compute_cluster_id c.rdma_compute_cluster_id;
        rdma_failure_domain = or_text s.rdma_failure_domain c.rdma_failure_domain;
      };
    }

abbrev pub required_fields : Config → List (String × String)
required_fields c =
    (c.compartment_id, "compartment ID must not be empty")
    ∷ (c.network.vcn_id, "VCN ID must not be empty")
    ∷ (c.network.ocp_subnet_id, "OCP subnet ID must not be empty")
    ∷ (c.network.ocp_subnet_name, "OCP subnet name must not be empty")
    ∷ (c.network.compute_nsg_name, "compute NSG name must not be empty")
    ∷ (c.network.network_security_group_id, "network security group ID must not be empty")
    ∷ (c.network.control_plane_endpoint, "control plane endpoint must not be empty")
    ∷ (c.network.api_server_load_balancer_id, "API server load balancer ID must not be empty")
    ∷ []

-- the ladder of tests, from the first field to the last
unfoldable pub require_fields : List (String × String) → Check
require_fields [] = ok tt
require_fields ((value, text) ∷ fields) = do
  reject_if (is_blank value) (errorf text)
  require_fields fields

unfoldable pub validate_required_config_fields : Config → Check
validate_required_config_fields config = require_fields (required_fields config)

unfoldable pub validate_bare_metal_subnet_config : Config → Check
validate_bare_metal_subnet_config config =
    if not (is_bare_metal_shape config.autoscaling.shape) then ok tt else (do
      reject_if (is_blank config.network.bare_metal_subnet_id)
          (errorf "bare metal subnet ID must not be empty for BM shapes")
      reject_if (is_blank config.network.bare_metal_subnet_name)
          (errorf "bare metal subnet name must not be empty for BM shapes"))

unfoldable pub validate_rdma_config : Config → Check
validate_rdma_config config =
    let c = config.autoscaling in
    if not c.enable_rdma then ok tt else (do
      reject_if (not (is_bare_metal_shape c.shape))
          (errorf "RDMA autoscaling requires a bare-metal shape")
      reject_if (is_blank c.rdma_compute_cluster_id)
          (errorf "RDMA compute cluster ID must not be empty when RDMA autoscaling is enabled")
      reject_if (is_blank c.rdma_failure_domain)
          (errorf "RDMA failure domain must not be empty when RDMA autoscaling is enabled"))

-- `matches`: Go's regular expression `^[A-Za-z][A-Za-z0-9_.-]{0,99}$`
unfoldable pub validate_defined_tags_namespace : (String → Bool) → Config → Check
validate_defined_tags_namespace matches config =
    let namespace = trim_space config.autoscaling.defined_tags_namespace in
    if is_nil namespace
    then ok tt
    else reject_if (not (matches namespace)) (
        errorf
          "defined tags namespace must start with a letter, contain only letters, numbers, '.', '_' or '-', and be at most 100 characters")

-- `SetAutoScalingConfig` up to the network
unfoldable pub resolve_config : (String → Bool) → Autoscaler → Config → Result Config
resolve_config matches a config = do
  validate_shape_config a.spec.autoscaling.shape_config config
  let resolved = override a config
  validate_required_config_fields resolved
  validate_bare_metal_subnet_config resolved
  validate_rdma_config resolved
  validate_defined_tags_namespace matches resolved
  ok resolved

-- `ValidateMinMaxNodes` of capi.go
unfoldable pub validate_min_max_nodes : Autoscaler → Config → Check
validate_min_max_nodes a config = do
  let min_nodes = or_default a.spec.autoscaling.min_nodes config.autoscaling.min_nodes
  let max_nodes = or_default a.spec.autoscaling.max_nodes config.autoscaling.max_nodes
  reject_if (lt_ℤ min_nodes (pos 0)) (errorf "min nodes must be equal to or greater than 0")
  reject_if (lt_ℤ max_nodes (pos 0)) (errorf "max nodes must be equal to or greater than 0")
  reject_if (lt_ℤ max_nodes min_nodes) (errorf "min nodes must be less than max nodes")
