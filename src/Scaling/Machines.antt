-- ===== src/Scaling/Machines.antt =====
-- The template of the machines of a node group (`OCIMachineTemplate` of
-- internal/components/enable_autoscaler/capi.go).
pub mod BareMetal
pub mod Kinds
pub mod Placed
pub mod Template
use oci_openshift_autoscalin.Base.{
  String, ◌<>◌, Bool, true, false, Option, none, some, List, [], ◌∷◌, ◌&&◌, not, ◌==◌,
  if◌then◌else◌, Result, ok, err, Check, errorf, reject_if,
}
use oci_openshift_autoscalin.Base.Bind.{◌>>=◌, ◌>>◌}
use oci_openshift_autoscalin.Base.Int.{show_ℤ}
use oci_openshift_autoscalin.Base.Text.{is_nil, trim_space}
use oci_openshift_autoscalin.Base.Dict.{Dict, insert}
use oci_openshift_autoscalin.Api.{Autoscaler}
use oci_openshift_autoscalin.Config.{Config, is_bare_metal_shape}
use oci_openshift_autoscalin.Kube.{Kube}
use oci_openshift_autoscalin.Labels.{set_component_labels}
use oci_openshift_autoscalin.NodePool.{validate_generated_node_pool_names}
use oci_openshift_autoscalin.Objects.{Object, Payload, MachineSpec}
use oci_openshift_autoscalin.Scaling.Rendered.{rendered, as_they_are}
use oci_openshift_autoscalin.Scaling.Tags.{
  DefinedTags, merge_defined_tags, validate_defined_tag_overrides,
  boot_volume_defined_tag_namespace, openshift_tag_ns, openshift_tag_key, openshift_tag_value,
  boot_volume_type_tag, boot_volume_type_iscsi,
}

abbrev pub oci_instance_managed_by_tag : String
oci_instance_managed_by_tag = "oci-capi-operator-managed-by"

abbrev pub oci_instance_autoscaler_namespace_tag : String
oci_instance_autoscaler_namespace_tag = "oci-capi-operator-autoscaler-namespace"

abbrev pub oci_instance_autoscaler_cluster_name_tag : String
oci_instance_autoscaler_cluster_name_tag = "oci-capi-operator-cluster-name"

abbrev pub oci_instance_autoscaler_pool_tag : String
oci_instance_autoscaler_pool_tag = "oci-capi-operator-pool-identifier"

abbrev pub rdma_plugin : String
rdma_plugin = "Compute HPC RDMA Authentication"

-- `ResolveSubnetNamesForShape`: the primary and the secondary subnet
unfoldable pub resolve_subnet_names_for_shape : String → String → String → String × String
resolve_subnet_names_for_shape shape ocp bare_metal =
    if is_bare_metal_shape shape then (bare_metal, ocp) else (ocp, "")

abbrev pub existing_tags : Payload → DefinedTags
existing_tags (Payload.machine_template spec) = spec.defined_tags
existing_tags _ = []

unfoldable pub freeform_tags : String → Autoscaler → Dict String
unfolding insert trim_space
freeform_tags cluster_name a =
    let tags =
      (oci_instance_managed_by_tag, a.metadata.name)
      ∷ (oci_instance_autoscaler_namespace_tag, a.metadata.namespace)
      ∷ (oci_instance_autoscaler_cluster_name_tag, cluster_name)
      ∷ [] in
    let pool_identifier = trim_space a.spec.autoscaling.pool_identifier in
    if is_nil pool_identifier
    then tags
    else insert oci_instance_autoscaler_pool_tag pool_identifier tags

-- what both kinds of shape have in common
unfoldable pub common_spec : String → Autoscaler → Config → String → DefinedTags → MachineSpec
unfolding freeform_tags
common_spec cluster_name a config subnet_name tags = record {
  image_id = config.autoscaling.image_id;
  shape = config.autoscaling.shape;
  ocpus = "";
  memory_in_gbs = "";
  subnet_name = subnet_name;
  assign_private_dns_record = true;
  freeform_tags = freeform_tags cluster_name a;
  defined_tags = tags;
  boot_volume_type = none;
  vnic_attachments = [];
  compute_cluster_id = none;
  enabled_plugins = [];
}

unfoldable pub with_shape_config : Config → MachineSpec → MachineSpec
with_shape_config config spec = record spec {
  ocpus = show_ℤ config.autoscaling.cpus;
  memory_in_gbs = show_ℤ config.autoscaling.memory;
}

-- the checks of the subnets of a bare-metal shape; the texts are trimmed
unfoldable pub check_bare_metal_subnets : String → String → String → String → String → Check
check_bare_metal_subnets ocp_id metal_id ocp_name metal_name secondary = do
  reject_if (not (is_nil ocp_id) && not (is_nil metal_id) && ocp_id == metal_id)
      (errorf "bare metal subnet must differ from primary subnet")
  reject_if (not (is_nil ocp_name) && not (is_nil metal_name) && ocp_name == metal_name)
      (errorf "bare metal subnet must differ from primary subnet")
  reject_if (is_nil metal_id) (errorf "bare metal subnet ID must not be empty for BM shapes")
  reject_if (is_nil metal_name) (errorf "bare metal subnet name must not be empty for BM shapes")
  reject_if (is_nil secondary)
      (errorf "bare metal secondary VNIC subnet name must not be empty for BM shapes")

abbrev pub openshift_tags : Dict String
openshift_tags = (openshift_tag_key, openshift_tag_value) ∷ []

abbrev pub boot_tags : Dict String
boot_tags = (boot_volume_type_tag, boot_volume_type_iscsi) ∷ []

unfoldable pub bare_metal_tags : (String → String) → Config → DefinedTags → Result DefinedTags
bare_metal_tags quote config tags = do
  let namespace = boot_volume_defined_tag_namespace config
  validate_defined_tag_overrides quote tags openshift_tag_ns openshift_tags
  validate_defined_tag_overrides quote tags namespace boot_tags
  ok (
      merge_defined_tags (merge_defined_tags tags openshift_tag_ns openshift_tags) namespace
        boot_tags)

unfoldable pub with_rdma : Config → MachineSpec → MachineSpec
with_rdma config spec =
    if config.autoscaling.enable_rdma
    then record spec {
      compute_cluster_id = some config.autoscaling.rdma_compute_cluster_id;
      enabled_plugins = rdma_plugin ∷ [];
    }
    else spec

unfoldable pub with_bare_metal : String → DefinedTags → MachineSpec → MachineSpec
with_bare_metal secondary tags spec = record spec {
  defined_tags = tags;
  boot_volume_type = some "ISCSI";
  vnic_attachments =
      record {
        subnet_name = secondary;
        assign_public_ip = false;
        display_name = "vnic_ocp";
        nic_index = 1;
      }
      ∷ [];
}

module _ (k : Kube) (cluster_name : String) (a : Autoscaler) (config : Config) where
  -- the case of a bare-metal shape, with its primary and its secondary subnet, over the tags that
  -- are there
  unfoldable pub bare_metal_spec : String × String → DefinedTags → Result MachineSpec
  bare_metal_spec (primary, secondary) existing = do
    check_bare_metal_subnets (trim_space config.network.ocp_subnet_id)
        (trim_space config.network.bare_metal_subnet_id) (trim_space config.network.ocp_subnet_name)
        (trim_space config.network.bare_metal_subnet_name) secondary
    tags ← bare_metal_tags k.quote config existing
    ok (
        with_rdma config
          (with_bare_metal secondary tags (common_spec cluster_name a config primary existing)))

  unfoldable pub virtual_spec : String × String → DefinedTags → MachineSpec
  virtual_spec (primary, _) existing =
      with_shape_config config (common_spec cluster_name a config primary existing)

  unfoldable pub machine_spec : DefinedTags → Result MachineSpec
  unfolding trim_space
  machine_spec existing =
      let shape = config.autoscaling.shape in
      let is_bm = is_bare_metal_shape shape in
      let bare_metal_subnet_name =
        if is_bm then trim_space config.network.bare_metal_subnet_name else "" in
      let names =
        resolve_subnet_names_for_shape shape (trim_space config.network.ocp_subnet_name)
          bare_metal_subnet_name in
      if is_bm then bare_metal_spec names existing else ok (virtual_spec names existing)

  unfoldable pub machine_template_payload : Payload → Result Payload
  machine_template_payload existing = do
    validate_generated_node_pool_names k cluster_name a
    spec ← machine_spec (existing_tags existing)
    ok (Payload.machine_template spec)

  -- the mutation of `OCIMachineTemplate`
  unfoldable pub machine_template : Object → Result Object
  machine_template o =
      rendered (set_component_labels a.metadata.name "EnableAutoscaler" "machineTemplate")
        as_they_are (machine_template_payload o.payload) o
