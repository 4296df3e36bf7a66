-- ===== src/Scaling/Machines/Template.antt =====
-- What the template of a node group is after it was written.
use oci_openshift_autoscalin.Base.{String, true, false, ◌≡◌, ok, some, ◌⊎◌, sym, ◌∙◌, ap}
use mathlib.Core.Path.{subst}
use oci_openshift_autoscalin.Base.Bind.{bind-ok}
use oci_openshift_autoscalin.Api.{Autoscaler}
use oci_openshift_autoscalin.Config.{Config, is_bare_metal_shape}
use oci_openshift_autoscalin.Kube.{Kube}
use oci_openshift_autoscalin.Labels.{set_component_labels}
use oci_openshift_autoscalin.NodePool.{validate_generated_node_pool_names}
use oci_openshift_autoscalin.Objects.{Object, Payload, MachineSpec}
use oci_openshift_autoscalin.Scaling.Tags.Kept.{tag}
use oci_openshift_autoscalin.Scaling.Rendered.{as_they_are}
use oci_openshift_autoscalin.Scaling.Repeated.{rendered-steps}
use oci_openshift_autoscalin.Scaling.Deployment.Steps.{ok-payload}
use oci_openshift_autoscalin.Scaling.Machines.{
  machine_template, machine_template_payload, machine_spec, existing_tags,
}
use oci_openshift_autoscalin.Scaling.Machines.Kinds.{IsBareMetal, IsVirtual}
use oci_openshift_autoscalin.Scaling.Machines.Placed.{machine_spec-placed, tag-machine_spec}

module _ (k : Kube) (cluster_name : String) (a : Autoscaler) (config : Config)
    (o made : Object) where
  machine_template-steps :
      machine_template k cluster_name a config o ≡ ok made
      → (spec : MachineSpec) × (machine_spec k cluster_name a config (existing_tags o.payload)
          ≡ ok spec)
        × (Payload.machine_template spec ≡ made.payload)
  unfolding machine_template machine_template_payload
  machine_template-steps h =
      let (q, e, m) =
        rendered-steps (set_component_labels a.metadata.name "EnableAutoscaler" "machineTemplate")
          as_they_are (machine_template_payload k cluster_name a config o.payload) o made h in
      let (_, _, h1) = bind-ok (validate_generated_node_pool_names k cluster_name a) _ q e in
      let (spec, s, h2) =
        bind-ok (machine_spec k cluster_name a config (existing_tags o.payload)) _ q h1 in
      (spec, s, ok-payload _ _ h2 ∙ ap (λ x. x.payload) m)

  -- A template that was written has the networks and the size that its shape needs. With a
  -- bare-metal shape the machine has the bare-metal subnet first and the cluster's subnet on its second network card,
  -- not public, the two differ by name and by identifier, it boots from iSCSI, has no flexible size,
  -- and is in the compute cluster exactly when RDMA is enabled. With another shape it has the
  -- cluster's subnet only and the configured processors and memory.
  pub machine_template-placed :
      machine_template k cluster_name a config o ≡ ok made
      → (spec : MachineSpec) × (made.payload ≡ Payload.machine_template spec)
        × (((is_bare_metal_shape config.autoscaling.shape ≡ true) × IsBareMetal config spec)
            ⊎ ((is_bare_metal_shape config.autoscaling.shape ≡ false) × IsVirtual config spec))
  machine_template-placed h =
      let (spec, s, m) = machine_template-steps h in
      (spec, sym m, machine_spec-placed k cluster_name a config (existing_tags o.payload) spec s)

  -- Writing a template never removes nor changes a defined tag that it has: a tag that contradicts
  -- one of the operator's stops the mutation.
  pub tag-machine_template :
      machine_template k cluster_name a config o ≡ ok made
      → (namespace key value : String) → tag namespace key (existing_tags o.payload) ≡ some value
      → tag namespace key (existing_tags made.payload) ≡ some value
  tag-machine_template h namespace key value t =
      let (spec, s, m) = machine_template-steps h in
      subst (λ p. tag namespace key (existing_tags p) ≡ some value) m
        (tag-machine_spec k cluster_name a config (existing_tags o.payload) spec s namespace key
          value t)
