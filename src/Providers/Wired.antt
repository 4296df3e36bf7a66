-- ===== src/Providers/Wired.antt =====
-- The components of the reconciler: what fills the interface `Parts`, with the arguments that the
-- controller passes (internal/controllers/ociclusterautoscaler_controller.go).
use oci_openshift_autoscalin.Base.{String, Bool, Option, some}
use oci_openshift_autoscalin.Credentials.{Credentials, uses_instance_principal}
use oci_openshift_autoscalin.Handler.{Parts}
use oci_openshift_autoscalin.Kube.{Kube}
use oci_openshift_autoscalin.Namespaces.{NamespaceConfig, with_defaults}
use oci_openshift_autoscalin.Providers.{capi_components, capoci_components, rbac_components}
use oci_openshift_autoscalin.Scaling.Parts.{scaling_components}
use oci_openshift_autoscalin.Base.{List, [], ◌∷◌, All, In, All-In, zip, All-zip, ◌≡◌, refl, ok}
use oci_openshift_autoscalin.Api.{Autoscaler}
use oci_openshift_autoscalin.Config.{Config}
use oci_openshift_autoscalin.Helm.{DeploymentValues}
use oci_openshift_autoscalin.Objects.{Object, Subcomponent, Component}
use oci_openshift_autoscalin.Components.{mutation}
use oci_openshift_autoscalin.Components.Stable.{IsStable, IsSettled, Renews, Settles, stable-Renews}
use oci_openshift_autoscalin.Providers.Settled.{
  capi_components-IsSettled, capoci_components-IsSettled, rbac_components-IsSettled,
}
use oci_openshift_autoscalin.Scaling.Stable.{scaling_components-IsSettled}
use oci_openshift_autoscalin.Scaling.Renewed.{reads_cluster, scaling_components-Renews}
use oci_openshift_autoscalin.Scaling.Secrets.{SecretSource}

abbrev pub capi_service_account_name : String
capi_service_account_name = "capi-manager"

abbrev pub capoci_service_account_name : String
capoci_service_account_name = "capoci-controller-manager"

module _ (k : Kube) (source : SecretSource) (parse_bool : String → Option Bool)
    (credentials : Credentials) (namespaces : NamespaceConfig) where
  unfoldable pub operator_parts : Parts
  operator_parts =
      let ns = with_defaults namespaces in
      let principal = uses_instance_principal parse_bool k.quote (some credentials) in
      record {
        capi_components = λ a.
            capi_components ns.capi_provider ns.capoci_provider capi_service_account_name
              capoci_service_account_name a principal;
        capoci_components =
            λ a. capoci_components parse_bool k.quote ns.capoci_provider a (some credentials);
        rbac_components = λ v a. rbac_components v a;
        scaling_components = λ cluster_name a config.
            scaling_components k source (with_defaults ns).managed_resource ns.capi_provider
              cluster_name capi_service_account_name a config principal;
      }

  -- the components of a reconcile
  abbrev pub operator_components : DeploymentValues → String → Autoscaler → Config → List Component
  operator_components v cluster_name a config =
      operator_parts.capi_components a
      ∷ operator_parts.capoci_components a
      ∷ operator_parts.rbac_components v a
      ∷ operator_parts.scaling_components cluster_name a config
      ∷ []

  each-IsSettled :
      (v : DeploymentValues) (cluster_name : String) (a : Autoscaler) (config : Config)
      → All IsSettled (operator_components v cluster_name a config)
  unfolding operator_parts
  each-IsSettled v cluster_name a config = (
    capi_components-IsSettled _ _ _ _ a _,
    (
      capoci_components-IsSettled parse_bool k.quote _ a _,
      (
        rbac_components-IsSettled v a,
        (scaling_components-IsSettled k source _ _ cluster_name _ a config _, tt),
      ),
    ),
  )

module _ (k : Kube) (source later : SecretSource) (parse_bool : String → Option Bool)
    (credentials : Credentials) (namespaces : NamespaceConfig) where
  -- every object of every component, as the same reconciler makes it at two times
  abbrev pub renewed_components :
      DeploymentValues → String → Autoscaler → Config → List (Component × Component)
  renewed_components v cluster_name a config =
      zip (operator_components k source parse_bool credentials namespaces v cluster_name a config)
        (operator_components k later parse_bool credentials namespaces v cluster_name a config)

  abbrev AllRenew : Component × Component → Type 0
  AllRenew (c, d) = All (Renews reads_cluster c d) (zip c.subcomponents d.subcomponents)

  settled-AllRenew : (c : Component) → IsSettled c → AllRenew (c, c)
  settled-AllRenew c =
      All-zip (IsStable c) (Renews reads_cluster c c) c.subcomponents
        (λ s. stable-Renews reads_cluster c c s refl refl)

  each-AllRenew :
      (v : DeploymentValues) (cluster_name : String) (a : Autoscaler) (config : Config)
      → All AllRenew (renewed_components v cluster_name a config)
  unfolding operator_parts
  each-AllRenew v cluster_name a config =
      let (capi, (capoci, (rbac, _))) =
        each-IsSettled k source parse_bool credentials namespaces v cluster_name a config in
      (
        settled-AllRenew _ capi,
        (
          settled-AllRenew _ capoci,
          (
            settled-AllRenew _ rbac,
            (scaling_components-Renews k source later _ _ cluster_name _ a config _, tt),
          ),
        ),
      )

  -- The components of two reconciles of the same resource with the same configuration, the first of
  -- which gets the answers `source` to what the mutations of the secrets read and the second one
  -- the answers `later`, a new token among them: c and d are the same component, and s and t the
  -- same subcomponent of it. When the first reconcile's mutation made an object, then the second
  -- one's mutation of that object succeeds and makes the same object, with the same payload and
  -- each label and annotation the same, unless it is one of the two secrets of the node group. For
  -- these the second mutation may stop with an error, and what it makes differs in its payload at
  -- most.
  pub operator_components-mutation :
      (v : DeploymentValues) (cluster_name : String) (a : Autoscaler) (config : Config)
      (c d : Component) (s t : Subcomponent)
      → In (c, d) (renewed_components v cluster_name a config)
      → In (s, t) (zip c.subcomponents d.subcomponents)
      → (o made : Object) → mutation c s o ≡ ok made
      → Settles (reads_cluster s) made (mutation d t made)
  operator_components-mutation v cluster_name a config c d s t i j =
      All-In (Renews reads_cluster c d) (s, t) (zip c.subcomponents d.subcomponents)
        (All-In AllRenew (c, d) (renewed_components v cluster_name a config)
          (each-AllRenew v cluster_name a config) i)
        j
