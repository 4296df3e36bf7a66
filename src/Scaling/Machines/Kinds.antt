-- ===== src/Scaling/Machines/Kinds.antt =====
-- The two kinds of machine: bare metal with two networks, and virtual with one.
use oci_openshift_autoscalin.Base.{
  String, false, none, some, [], ◌∷◌, ◌≡◌, ◌≢◌, arith, eq_iff, if◌then◌else◌, ok,
}
use oci_openshift_autoscalin.Base.Int.{show_ℤ}
use oci_openshift_autoscalin.Base.Text.{trim_space}
use oci_openshift_autoscalin.Config.{Config}
use oci_openshift_autoscalin.Objects.{MachineSpec, VnicAttachment}
use oci_openshift_autoscalin.Scaling.Machines.{check_bare_metal_subnets, rdma_plugin}

abbrev pub ocp_vnic : String → VnicAttachment
ocp_vnic subnet = record {
  subnet_name = subnet;
  assign_public_ip = false;
  display_name = "vnic_ocp";
  nic_index = 1;
}

-- a machine with two networks
pub record IsBareMetal (config : Config) (spec : MachineSpec) : Type 0 where
  pub primary : spec.subnet_name ≡ trim_space config.network.bare_metal_subnet_name
  pub secondary : spec.vnic_attachments ≡ ocp_vnic (trim_space config.network.ocp_subnet_name) ∷ []
  -- the two subnets differ, by name and by identifier
  pub names : spec.subnet_name ≢ trim_space config.network.ocp_subnet_name
  pub ids : trim_space config.network.bare_metal_subnet_id ≢ trim_space config.network.ocp_subnet_id
  pub boot : spec.boot_volume_type ≡ some "ISCSI"
  -- the shape is fixed
  pub fixed : (spec.ocpus ≡ "") × (spec.memory_in_gbs ≡ "")
  pub compute_cluster : spec.compute_cluster_id ≡ (
      if config.autoscaling.enable_rdma
      then some config.autoscaling.rdma_compute_cluster_id
      else none)
  pub plugins :
      spec.enabled_plugins ≡ (if config.autoscaling.enable_rdma then rdma_plugin ∷ [] else [])

-- a machine with one network and a flexible shape
pub record IsVirtual (config : Config) (spec : MachineSpec) : Type 0 where
  pub primary : spec.subnet_name ≡ trim_space config.network.ocp_subnet_name
  pub secondary : spec.vnic_attachments ≡ []
  pub boot : spec.boot_volume_type ≡ none
  pub cpus : spec.ocpus ≡ show_ℤ config.autoscaling.cpus
  pub memory : spec.memory_in_gbs ≡ show_ℤ config.autoscaling.memory

pub subnets-differ :
    (ocp_id metal_id ocp_name metal_name : String)
    → check_bare_metal_subnets ocp_id metal_id ocp_name metal_name ocp_name ≡ ok tt
    → (metal_name ≢ ocp_name) × (metal_id ≢ ocp_id)
unfolding check_bare_metal_subnets
subnets-differ ocp_id metal_id ocp_name metal_name h = (
  λ e. ground (arith, h, e, eq_iff ocp_name metal_name),
  λ e. ground (arith, h, e, eq_iff ocp_id metal_id),
)
