-- ===== src/Tests/Scaling.antt =====
-- Example node groups.
use oci_openshift_autoscalin.Base.{
  true, false, none, some, List, [], ◌∷◌, ◌≡◌, ◌↔◌, ◌⊎◌, refl, ok, IsOk, inl, inr, In, zip,
}
use oci_openshift_autoscalin.Base.Int.{pos}
use oci_openshift_autoscalin.Base.Dict.{lookup}
use oci_openshift_autoscalin.Base.Text.{trim_space, before}
use oci_openshift_autoscalin.Config.{is_bare_metal_shape}
use oci_openshift_autoscalin.Components.{mutation}
use oci_openshift_autoscalin.Components.Stable.{Settles}
use oci_openshift_autoscalin.NodePool.{
  bootstrap_secret_name, node_pool_name, autoscaling_name, validate_generated_node_pool_names,
  validate_node_pool_name, validate_dns1123_label,
}
use oci_openshift_autoscalin.Objects.{
  Object, Payload, Component, Subcomponent, MachineSpec, MachineDeploymentSpec, HealthCheckSpec,
}
use oci_openshift_autoscalin.Scaling.Rendered.{new_object}
use oci_openshift_autoscalin.Scaling.Tags.{
  validate_defined_tag_overrides, check_overrides, boot_volume_defined_tag_namespace,
}
use oci_openshift_autoscalin.Scaling.Tags.Kept.{tag}
use oci_openshift_autoscalin.Scaling.References.{
  infrastructure_ref, validate_capi_infrastructure_ref, validate_machine_deployment_object,
}
use oci_openshift_autoscalin.Scaling.Machines.{
  machine_template, machine_template_payload, machine_spec, bare_metal_spec, bare_metal_tags,
  resolve_subnet_names_for_shape, check_bare_metal_subnets, existing_tags,
}
use oci_openshift_autoscalin.Scaling.Machines.Kinds.{IsBareMetal, IsVirtual}
use oci_openshift_autoscalin.Scaling.Machines.Template.{
  machine_template-placed, tag-machine_template,
}
use oci_openshift_autoscalin.Scaling.Deployment.{
  machine_deployment, machine_deployment_payload, machine_deployment_spec, machine_health_check,
  machine_health_check_payload,
}
use oci_openshift_autoscalin.Scaling.Deployment.Selected.{
  Selects, machine_deployment-machine_health_check,
}
use oci_openshift_autoscalin.Scaling.Cluster.{capi_cluster}
use oci_openshift_autoscalin.Scaling.Cluster.Valid.{IsCidr, capi_cluster-IsOk}
use oci_openshift_autoscalin.Scaling.Parts.{scaling_components}
use oci_openshift_autoscalin.Scaling.Targets.{IsLinked, node_group_targets}
use oci_openshift_autoscalin.Scaling.Linked.{mutation-IsLinked}
use oci_openshift_autoscalin.Scaling.NodeGroup.{Event, run, view, replay, or_before, run-view}
use oci_openshift_autoscalin.Tests.Groups.{metal_config, source, parse_bool, principal, namespaces}
use oci_openshift_autoscalin.Namespaces.{with_defaults, default_namespace}
use oci_openshift_autoscalin.Helm.{deployment_values}
use oci_openshift_autoscalin.Providers.Owned.{operator_components-managed_by_label}
use oci_openshift_autoscalin.Scaling.Renewed.{reads_cluster}
use oci_openshift_autoscalin.Scaling.Secrets.{SecretSource}
use oci_openshift_autoscalin.Labels.{managed_by_label}
use oci_openshift_autoscalin.Providers.Wired.{
  renewed_components, operator_parts, operator_components, operator_components-mutation,
}
use oci_openshift_autoscalin.Tests.Fixtures.{kube, older_resource, config}

-- a template with a tag of its owner
abbrev tagged_spec : MachineSpec
tagged_spec = record {
  image_id = "old";
  shape = "BM.Standard.E5.192";
  ocpus = "";
  memory_in_gbs = "";
  subnet_name = "metal";
  assign_private_dns_record = true;
  freeform_tags = [];
  defined_tags = ("billing", ("team", "blue") ∷ []) ∷ [];
  boot_volume_type = none;
  vnic_attachments = [];
  compute_cluster_id = none;
  enabled_plugins = [];
}

abbrev template : Object
template = record (new_object "OCIMachineTemplate" "machines" "ocp-gpu-autoscaling") {
  payload = Payload.machine_template tagged_spec;
}

abbrev written_template : Object
written_template =
    or_before template (machine_template kube "ocp" older_resource metal_config template)

written : machine_template kube "ocp" older_resource metal_config template ≡ ok written_template
unfolding machine_template machine_template_payload machine_spec bare_metal_spec bare_metal_tags
    resolve_subnet_names_for_shape check_bare_metal_subnets validate_generated_node_pool_names
    validate_node_pool_name validate_dns1123_label node_pool_name autoscaling_name trim_space
    is_bare_metal_shape validate_defined_tag_overrides check_overrides lookup
    boot_volume_defined_tag_namespace
written = refl

placed_example :
    (spec : MachineSpec) × (written_template.payload ≡ Payload.machine_template spec)
    × (((is_bare_metal_shape metal_config.autoscaling.shape ≡ true) × IsBareMetal metal_config spec)
        ⊎ ((is_bare_metal_shape metal_config.autoscaling.shape ≡ false)
            × IsVirtual metal_config spec))
placed_example =
    machine_template-placed kube "ocp" older_resource metal_config template written_template written

kept_tag_example : tag "billing" "team" (existing_tags written_template.payload) ≡ some "blue"
unfolding lookup
kept_tag_example =
    tag-machine_template kube "ocp" older_resource metal_config template written_template written
      "billing" "team" "blue" refl

abbrev group : Component
group =
    (operator_parts kube source parse_bool principal namespaces).scaling_components "ocp"
      older_resource metal_config

abbrev linked_group : Component
linked_group =
    scaling_components kube source "machines" "capi" "ocp" "account" older_resource metal_config
      true

abbrev template_part : Subcomponent
template_part = record {
  name = "machineTemplate";
  object = new_object "OCIMachineTemplate" "machines" "ocp-gpu-autoscaling";
  mutate_fn = some (machine_template kube "ocp" older_resource metal_config);
}

-- a later reconcile gets another token
abbrev later_source : SecretSource
later_source = record source { create_token = λ account namespace. ok "later token" }

abbrev later_group : Component
later_group =
    (operator_parts kube later_source parse_bool principal namespaces).scaling_components "ocp"
      older_resource metal_config

template-In : In template_part group.subcomponents
unfolding operator_parts scaling_components node_pool_name autoscaling_name trim_space with_defaults
    default_namespace
template-In = inr (inr (inr (inl refl)))

templates-In : In (template_part, template_part) (zip group.subcomponents later_group.subcomponents)
unfolding operator_parts scaling_components node_pool_name autoscaling_name trim_space with_defaults
    default_namespace
templates-In = inr (inr (inr (inl refl)))

abbrev labelled_template : Object
labelled_template = or_before template (mutation group template_part template)

template_labelled : mutation group template_part template ≡ ok labelled_template
unfolding operator_parts scaling_components mutation written
template_labelled = refl

group-In : In group (
    operator_components kube source parse_bool principal namespaces
      (deployment_values namespaces older_resource)
      "ocp"
      older_resource
      metal_config)
group-In = inr (inr (inr (inl refl)))

groups-In :
    In
      (group, later_group)
      (renewed_components kube source later_source parse_bool principal namespaces
        (deployment_values namespaces older_resource)
        "ocp"
        older_resource
        metal_config)
groups-In = inr (inr (inr (inl refl)))

settled_example :
    Settles
      (reads_cluster template_part)
      labelled_template
      (mutation later_group template_part labelled_template)
settled_example =
    operator_components-mutation kube source later_source parse_bool principal namespaces
      (deployment_values namespaces older_resource) "ocp" older_resource metal_config group
      later_group template_part template_part groups-In templates-In template labelled_template
      template_labelled

managed_example :
    lookup managed_by_label labelled_template.labels ≡ some older_resource.metadata.name
managed_example =
    operator_components-managed_by_label kube source parse_bool principal namespaces
      (deployment_values namespaces older_resource) "ocp" older_resource metal_config group
      template_part group-In template-In template labelled_template template_labelled

abbrev deployment : Object
deployment = new_object "MachineDeployment" "machines" "ocp-gpu"

abbrev deployment_part : Subcomponent
deployment_part = record {
  name = "machineDeployment";
  object = deployment;
  mutate_fn = some (machine_deployment kube "ocp" older_resource metal_config);
}

deployment-In : In deployment_part linked_group.subcomponents
unfolding scaling_components node_pool_name trim_space
deployment-In = inr (inr (inr (inr (inl refl))))

abbrev labelled_deployment : Object
labelled_deployment = or_before deployment (mutation linked_group deployment_part deployment)

deployed : mutation linked_group deployment_part deployment ≡ ok labelled_deployment
unfolding scaling_components mutation machine_deployment machine_deployment_payload
    machine_deployment_spec validate_generated_node_pool_names validate_node_pool_name
    node_pool_name trim_space validate_dns1123_label autoscaling_name infrastructure_ref before
    validate_machine_deployment_object validate_capi_infrastructure_ref bootstrap_secret_name
deployed = refl

reference_example :
    IsLinked
      (node_group_targets kube source "machines" "capi" "ocp" "account" older_resource metal_config
        true)
      labelled_deployment.payload
reference_example =
    mutation-IsLinked kube source "machines" "capi" "ocp" "account" older_resource metal_config true
      deployment_part deployment-In deployment labelled_deployment tt deployed

abbrev made_deployment : Object
made_deployment =
    or_before deployment (machine_deployment kube "ocp" older_resource config deployment)

made : machine_deployment kube "ocp" older_resource config deployment ≡ ok made_deployment
unfolding machine_deployment machine_deployment_payload machine_deployment_spec
    validate_generated_node_pool_names validate_node_pool_name node_pool_name trim_space
    validate_dns1123_label autoscaling_name infrastructure_ref before
    validate_machine_deployment_object validate_capi_infrastructure_ref bootstrap_secret_name
made = refl

abbrev health_check : Object
health_check = new_object "MachineHealthCheck" "machines" "ocp-gpu-autoscaling"

abbrev made_health_check : Object
made_health_check =
    or_before health_check (machine_health_check kube "ocp" older_resource config health_check)

checked : machine_health_check kube "ocp" older_resource config health_check ≡ ok made_health_check
unfolding machine_health_check machine_health_check_payload validate_generated_node_pool_names
    validate_node_pool_name node_pool_name trim_space validate_dns1123_label autoscaling_name
checked = refl

selected_machines_example :
    (spec : MachineDeploymentSpec) × (health : HealthCheckSpec) × (made_deployment.payload
      ≡ Payload.machine_deployment spec)
    × (made_health_check.payload ≡ Payload.machine_health_check health)
    × (health.match_labels ≡ spec.match_labels)
    × Selects spec.match_labels spec.template_labels
selected_machines_example =
    machine_deployment-machine_health_check kube "ocp" older_resource config config deployment
      health_check made_deployment made_health_check made checked

abbrev events : List Event
events =
    Event.scaled (pos 4)
    ∷ Event.reconciled older_resource config
    ∷ Event.scaled (pos 2)
    ∷ Event.reconciled older_resource metal_config
    ∷ []

group_example :
    view (run kube "ocp" events made_deployment) ≡ replay kube "ocp" events (view made_deployment)
unfolding machine_deployment machine_deployment_payload machine_deployment_spec
    validate_generated_node_pool_names validate_node_pool_name node_pool_name trim_space
    validate_dns1123_label autoscaling_name infrastructure_ref before
    validate_machine_deployment_object validate_capi_infrastructure_ref bootstrap_secret_name
group_example = run-view kube "ocp" events made_deployment (pos 0) refl

cluster_example :
    IsOk (capi_cluster kube "ocp" older_resource config (new_object "Cluster" "machines" "ocp"))
    ↔ IsCidr kube "" × IsCidr kube ""
unfolding trim_space before
cluster_example =
    capi_cluster-IsOk kube "ocp" config refl refl older_resource
      (new_object "Cluster" "machines" "ocp")
