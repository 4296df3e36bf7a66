-- ===== src/Providers/Owned.antt =====
-- The operator's objects name the custom resource that they belong to.
use oci_openshift_autoscalin.Base.{
  String, Bool, Option, some, All, In, All-In, refl, ◌≡◌, ◌∙◌, ap, ok,
}
use oci_openshift_autoscalin.Base.Dict.{lookup}
use oci_openshift_autoscalin.Api.{Autoscaler}
use oci_openshift_autoscalin.Components.{mutation}
use oci_openshift_autoscalin.Components.Mutation.{mutation-managed_by_label}
use oci_openshift_autoscalin.Config.{Config}
use oci_openshift_autoscalin.Credentials.{Credentials}
use oci_openshift_autoscalin.Helm.{DeploymentValues}
use oci_openshift_autoscalin.Kube.{Kube}
use oci_openshift_autoscalin.Labels.{managed_by_label}
use oci_openshift_autoscalin.Namespaces.{NamespaceConfig}
use oci_openshift_autoscalin.Objects.{Object, Subcomponent, Component}
use oci_openshift_autoscalin.Providers.{capi_components, capoci_components, rbac_components}
use oci_openshift_autoscalin.Providers.Wired.{operator_parts, operator_components}
use oci_openshift_autoscalin.Scaling.Parts.{scaling_components}
use oci_openshift_autoscalin.Scaling.Secrets.{SecretSource}

module _ (k : Kube) (source : SecretSource) (parse_bool : String → Option Bool)
    (credentials : Credentials) (namespaces : NamespaceConfig) where
  instance_names :
      (v : DeploymentValues) (cluster_name : String) (a : Autoscaler) (config : Config)
      → All
          (λ c. c.instance_name ≡ a.metadata.name)
          (operator_components k source parse_bool credentials namespaces v cluster_name a config)
  unfolding operator_parts capi_components capoci_components rbac_components scaling_components
  instance_names v cluster_name a config = (refl, (refl, (refl, (refl, tt))))

  -- When the mutation of a subcomponent of one of the components that the operator builds for a
  -- custom resource makes an object, the object's managed-by label names that custom resource.
  pub operator_components-managed_by_label :
      (v : DeploymentValues) (cluster_name : String) (a : Autoscaler) (config : Config)
      (c : Component) (s : Subcomponent)
      → In c
          (operator_components k source parse_bool credentials namespaces v cluster_name a config)
      → In s c.subcomponents
      → (o made : Object) → mutation c s o ≡ ok made
      → lookup managed_by_label made.labels ≡ some a.metadata.name
  operator_components-managed_by_label v cluster_name a config c s i j o made h =
      mutation-managed_by_label c s o made h
      ∙ ap (λ n. some n)
          (All-In (λ c. c.instance_name ≡ a.metadata.name) c
            (operator_components k source parse_bool credentials namespaces v cluster_name a config)
            (instance_names v cluster_name a config) i)
