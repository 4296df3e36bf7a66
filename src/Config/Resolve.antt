-- ===== src/Config/Resolve.antt =====
-- What a configuration that was accepted guarantees.
use oci_openshift_autoscalin.Base.{◌≤◌, String, true, false, ◌≡◌, ◌↔◌, arith, ok}
use oci_openshift_autoscalin.Base.Int.{ℤ, pos, negsuc, lt_ℤ}
use oci_openshift_autoscalin.Base.Text.{is_blank}
use oci_openshift_autoscalin.Api.{Autoscaler}
use oci_openshift_autoscalin.Config.{
  Config, is_bare_metal_shape, is_positive, or_default, validate_min_max_nodes,
}

abbrev pub min_of : Autoscaler → Config → ℤ
min_of a config = or_default a.spec.autoscaling.min_nodes config.autoscaling.min_nodes

abbrev pub max_of : Autoscaler → Config → ℤ
max_of a config = or_default a.spec.autoscaling.max_nodes config.autoscaling.max_nodes

-- 0 ≤ low ≤ high
abbrev pub InOrder : ℤ → ℤ → Type 0
InOrder (pos m) (pos n) = m ≤ n
InOrder _ _ = ⊥

ladder :
    (low high : ℤ)
    → lt_ℤ low (pos 0) ≡ false
    → lt_ℤ high (pos 0) ≡ false
    → lt_ℤ high low ≡ false
    → InOrder low high
ladder (pos m) (pos n) h i j = ground (arith, j)
ladder (pos m) (negsuc n) h i j = cc i
ladder (negsuc m) (pos n) h i j = cc h
ladder (negsuc m) (negsuc n) h i j = cc h

climb :
    (low high : ℤ)
    → InOrder low high
    → (lt_ℤ low (pos 0) ≡ false) × (lt_ℤ high (pos 0) ≡ false) × (lt_ℤ high low ≡ false)
climb (pos m) (pos n) h = (ground arith, ground arith, ground (arith, h))
climb (pos m) (negsuc n) h = elim h [ ]
climb (negsuc m) (pos n) h = elim h [ ]
climb (negsuc m) (negsuc n) h = elim h [ ]

-- The sizes of the node group are accepted exactly when, with the values of the custom resource in
-- place of those of the operator, the smallest is not negative and at most the largest.
pub validate_min_max_nodes-ok :
    (a : Autoscaler) (config : Config)
    → validate_min_max_nodes a config ≡ ok tt ↔ InOrder (min_of a config) (max_of a config)
unfolding validate_min_max_nodes
validate_min_max_nodes-ok a config = (
  λ h.
      ladder (min_of a config) (max_of a config) (ground (arith, h)) (ground (arith, h))
        (ground (arith, h)),
  λ h. let (x, y, z) = climb (min_of a config) (max_of a config) h in rw (x, y, z),
)

abbrev pub Given : String → Type 0
Given s = is_blank s ≡ false

-- what the objects of a node group need
pub record IsDeployable (config : Config) : Type 0 where
  pub compartment_id : Given config.compartment_id
  pub vcn_id : Given config.network.vcn_id
  pub ocp_subnet_id : Given config.network.ocp_subnet_id
  pub ocp_subnet_name : Given config.network.ocp_subnet_name
  pub compute_nsg_name : Given config.network.compute_nsg_name
  pub network_security_group_id : Given config.network.network_security_group_id
  pub control_plane_endpoint : Given config.network.control_plane_endpoint
  pub api_server_load_balancer_id : Given config.network.api_server_load_balancer_id
  pub cpus : is_positive config.autoscaling.cpus ≡ true
  pub memory : is_positive config.autoscaling.memory ≡ true
  -- a bare-metal shape has its second subnet
  pub bare_metal :
      is_bare_metal_shape config.autoscaling.shape ≡ true
      → Given config.network.bare_metal_subnet_id × Given config.network.bare_metal_subnet_name
  -- RDMA runs on bare metal, with its compute cluster and its failure domain
  pub rdma :
      config.autoscaling.enable_rdma ≡ true
      → (is_bare_metal_shape config.autoscaling.shape ≡ true)
        × Given config.autoscaling.rdma_compute_cluster_id
        × Given config.autoscaling.rdma_failure_domain
