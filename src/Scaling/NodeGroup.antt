-- ===== src/Scaling/NodeGroup.antt =====
-- The node group that the cluster autoscaler sees: its size and the bounds of its size. The operator
-- reconciles the machine deployment; the cluster autoscaler scales it.
use oci_openshift_autoscalin.Base.{
  String, [], ◌∷◌, ◌≡◌, refl, sym, ap, ◌∙◌, arith, Result, ok, err, Option, some, List, Bool, true,
  false, succeeds, if◌then◌else◌,
}
use mathlib.Core.Path.{subst}
use oci_openshift_autoscalin.Base.Int.{ℤ, show_ℤ}
use oci_openshift_autoscalin.Base.Dict.{lookup, lookup-insert}
use oci_openshift_autoscalin.Api.{Autoscaler}
use oci_openshift_autoscalin.Config.{Config}
use oci_openshift_autoscalin.Kube.{Kube}
use oci_openshift_autoscalin.Objects.{Object, Payload}
use oci_openshift_autoscalin.Scaling.References.{validate_machine_deployment_object}
use oci_openshift_autoscalin.Labels.{set_default_labels}
use oci_openshift_autoscalin.Scaling.Rendered.{rendered}
use oci_openshift_autoscalin.Scaling.Deployment.Steps.{machine_deployment_payload-steps}
use oci_openshift_autoscalin.Scaling.Deployment.{
  machine_deployment, machine_deployment_payload, machine_deployment_spec, capacity_annotations,
  existing_replicas, node_group_min_size_annotation, node_group_max_size_annotation,
}

pub record NodeGroup : Type 0 where
  pub size : Option ℤ
  pub min_size : Option String
  pub max_size : Option String

-- the node group of a machine deployment
abbrev pub view : Object → NodeGroup
view o = record {
  size = existing_replicas o.payload;
  min_size = lookup node_group_min_size_annotation o.annotations;
  max_size = lookup node_group_max_size_annotation o.annotations;
}

-- What happens to a machine deployment: the operator reconciles it for a resource and its resolved
-- configuration, or the cluster autoscaler sets its replicas.
pub data Event : Type 0 where
  reconciled : Autoscaler → Config → Event
  scaled : ℤ → Event

abbrev pub with_replicas : ℤ → Payload → Payload
with_replicas n (Payload.machine_deployment spec) =
    Payload.machine_deployment (record spec { replicas = some n })
with_replicas n p = p

-- an object that was not made stays as it is
abbrev pub or_before : Object → Result Object → Object
or_before o (ok made) = made
or_before o (err e) = o

replicas-with :
    (n m : ℤ) (p : Payload)
    → existing_replicas p ≡ some m
    → existing_replicas (with_replicas n p) ≡ some n
replicas-with n m (Payload.machine_deployment spec) h = refl
replicas-with n m Payload.empty h = cc h
replicas-with n m (Payload.secret x0) h = cc h
replicas-with n m (Payload.cluster_role x0) h = cc h
replicas-with n m (Payload.cluster_role_binding x0 x1) h = cc h
replicas-with n m (Payload.scc x0) h = cc h
replicas-with n m (Payload.oci_cluster x0) h = cc h
replicas-with n m (Payload.oci_cluster_identity x0 x1) h = cc h
replicas-with n m (Payload.capi_cluster x0) h = cc h
replicas-with n m (Payload.machine_template x0) h = cc h
replicas-with n m (Payload.machine_health_check x0) h = cc h

module _ (k : Kube) (cluster_name : String) where
  unfoldable pub step : Event → Object → Object
  step (reconciled a config) o = or_before o (machine_deployment k cluster_name a config o)
  step (scaled n) o = record o { payload = with_replicas n o.payload }

  unfoldable pub run : List Event → Object → Object
  run [] o = o
  run (e ∷ es) o = run es (step e o)

  -- whether the operator can render the machine deployment of a resource
  unfoldable pub renders : Autoscaler → Config → Bool
  renders a config = succeeds (machine_deployment_payload k cluster_name a config Payload.empty)

  -- The same on the node group: a reconcile sets the bounds and never the size.
  unfoldable pub group_step : Event → NodeGroup → NodeGroup
  unfolding renders
  group_step (reconciled a config) g =
      if renders a config
      then record g {
        min_size = some (show_ℤ config.autoscaling.min_nodes);
        max_size = some (show_ℤ config.autoscaling.max_nodes);
      }
      else g
  group_step (scaled n) g = record g { size = some n }

  unfoldable pub replay : List Event → NodeGroup → NodeGroup
  replay [] g = g
  replay (e ∷ es) g = replay es (group_step e g)

  renders_any :
      (a : Autoscaler) (config : Config) (p : Payload)
      → succeeds (machine_deployment_payload k cluster_name a config p) ≡ renders a config
  unfolding renders machine_deployment_payload machine_deployment_spec
      validate_machine_deployment_object
  renders_any a config p = ground arith

  size_made :
      (a : Autoscaler) (config : Config) (p q : Payload) (m : ℤ)
      → machine_deployment_payload k cluster_name a config p ≡ ok q
      → existing_replicas p ≡ some m
      → existing_replicas q ≡ some m
  unfolding machine_deployment_spec
  size_made a config p q m h e =
      let (ref, _, _, _, made) = machine_deployment_payload-steps k cluster_name a config p q h in
      subst (λ x. existing_replicas x ≡ some m) made (ground (arith, e))

  group_at :
      (a : Autoscaler) (config : Config) (o : Object) (m : ℤ) (r : Result Payload)
      → machine_deployment_payload k cluster_name a config o.payload ≡ r
      → existing_replicas o.payload ≡ some m
      → view (
          or_before o
            (rendered (set_default_labels a.metadata.name) (capacity_annotations config) r o))
        ≡ group_step (reconciled a config) (view o)
  unfolding group_step capacity_annotations
  group_at a config o m (err e) h p =
      let b : renders a config ≡ false =
        sym (renders_any a config o.payload) ∙ ap (λ r. succeeds r) h in
      rw b refl
  group_at a config o m (ok q) h p =
      let b : renders a config ≡ true =
        sym (renders_any a config o.payload) ∙ ap (λ r. succeeds r) h in
      rw (b, size_made a config o.payload q m h p, p) (simp lookup-insert refl)

  step-view :
      (e : Event) (o : Object) (m : ℤ)
      → existing_replicas o.payload ≡ some m
      → view (step e o) ≡ group_step e (view o)
  unfolding step group_step machine_deployment
  step-view (reconciled a config) o m p = group_at a config o m _ refl p
  step-view (scaled n) o m p = rw (replicas-with n m o.payload p) refl

  group_step_sized :
      (e : Event) (g : NodeGroup) (m : ℤ)
      → g.size ≡ some m
      → (n : ℤ) × ((group_step e g).size ≡ some n)
  unfolding group_step
  group_step_sized (reconciled a config) g m p = (m, ground (arith, p))
  group_step_sized (scaled n) g m p = (n, refl)

  -- Take a machine deployment that has its replicas, and any sequence in which the operator reconciles
  -- it, for whatever resources and configurations, and the cluster autoscaler scales it. The node
  -- group that comes out is the one that follows this rule: scaling sets the size and nothing
  -- else, a reconcile that can be rendered sets the two bounds and nothing else, and another
  -- reconcile sets nothing.
  pub run-view :
      (es : List Event) (o : Object) (m : ℤ)
      → existing_replicas o.payload ≡ some m
      → view (run es o) ≡ replay es (view o)
  unfolding run replay
  run-view [] o m p = refl
  run-view (e ∷ es) o m p =
      let here = step-view e o m p in
      let (n, q) = group_step_sized e (view o) m p in
      run-view es (step e o) n (ap (λ g. g.size) here ∙ q) ∙ ap (λ g. replay es g) here
