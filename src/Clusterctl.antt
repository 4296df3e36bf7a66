-- ===== src/Clusterctl.antt =====
-- The objects that the clusterctl library generates for a provider
-- (internal/utils/clusterctl.go). The library, and the regular expression of a version, are
-- parameters.
pub mod Required
use oci_openshift_autoscalin.Base.{
  String, ◌<>◌, Bool, true, false, Option, none, some, List, [], ◌∷◌, ◌++◌, ◌==◌, ◌&&◌, ◌||◌, not,
  if◌then◌else◌, Result, ok, err, Check, errorf, wrap_err, reject_if,
}
use oci_openshift_autoscalin.Base.Bind.{◌>>=◌, ◌>>◌}
use oci_openshift_autoscalin.Base.Text.{is_nil, is_blank, trim_space}
use oci_openshift_autoscalin.Base.Dict.{Dict}

abbrev pub core_provider_name : String
core_provider_name = "cluster-api"

abbrev pub infrastructure_oci_provider_name : String
infrastructure_oci_provider_name = "oci"

abbrev pub core_provider_type : String
core_provider_type = "CoreProvider"

abbrev pub infrastructure_provider_type : String
infrastructure_provider_type = "InfrastructureProvider"

-- `spec.conversion` of a definition: the service of its webhook, and the rest of it
pub record Conversion : Type 0 where
  pub service_name : Option String
  pub service_namespace : Option String
  pub rest : String

-- The fields of `spec` that the code names, for a custom resource definition; the other fields
-- are kept aside.
pub record CrdSpec : Type 0 where
  pub versions : Option String
  pub conversion : Option Conversion
  pub preserve_unknown_fields : Option String
  pub others : String

-- a generated object
pub record Manifest : Type 0 where
  pub kind : String
  pub namespace : String
  pub name : String
  pub labels : Dict String
  pub annotations : Dict String
  pub spec : CrdSpec

abbrev pub is_core : String → String → Bool
is_core provider type = provider == core_provider_name && type == core_provider_type

abbrev pub is_infrastructure : String → String → Bool
is_infrastructure provider type =
    provider == infrastructure_oci_provider_name && type == infrastructure_provider_type

unfoldable pub namespaced_kind_key : String → String → String
namespaced_kind_key kind namespace = kind <> "/" <> namespace

-- what must be among the generated objects: a key and its description
abbrev pub Requirement : Type 0
Requirement = String × String

unfoldable pub namespaced_requirements : String → String → String → List Requirement
unfolding trim_space
namespaced_requirements deployment service namespace =
    if is_blank namespace
    then []
    else (namespaced_kind_key "Deployment" namespace, deployment)
      ∷ (namespaced_kind_key "Service" namespace, service)
      ∷ []

unfoldable pub required_kinds : String → String → String → List Requirement
required_kinds provider type namespace =
    if is_core provider type
    then namespaced_requirements "core provider deployment" "core provider service" namespace
      ++ ("ValidatingWebhookConfiguration", "core provider validating webhook")
        ∷ ("MutatingWebhookConfiguration", "core provider mutating webhook")
        ∷ []
    else if is_infrastructure provider type
    then namespaced_requirements "CAPOCI deployment" "CAPOCI service" namespace
      ++ ("ValidatingWebhookConfiguration", "CAPOCI validating webhook")
        ∷ ("MutatingWebhookConfiguration", "CAPOCI mutating webhook")
        ∷ []
    else []

unfoldable pub required_crds : String → String → List Requirement
required_crds provider type =
    if is_core provider type
    then ("clusters.cluster.x-k8s.io", "Cluster API Cluster CRD")
      ∷ ("machinedeployments.cluster.x-k8s.io", "Cluster API MachineDeployment CRD")
      ∷ []
    else if is_infrastructure provider type
    then ("ociclusters.infrastructure.cluster.x-k8s.io", "CAPOCI OCICluster CRD")
      ∷ ("ocimachinetemplates.infrastructure.cluster.x-k8s.io", "CAPOCI OCIMachineTemplate CRD")
      ∷ []
    else []

unfoldable pub has : String → List String → Bool
has key [] = false
has key (k ∷ ks) = let rest = has key ks in k == key || rest

abbrev pub is_crd : Manifest → Bool
is_crd o = o.kind == "CustomResourceDefinition"

unfoldable pub seen_kinds : String → List Manifest → List String
seen_kinds namespace [] = []
seen_kinds namespace (o ∷ objs) =
    let rest = seen_kinds namespace objs in
    if o.namespace == namespace
    then o.kind ∷ namespaced_kind_key o.kind namespace ∷ rest
    else o.kind ∷ rest

unfoldable pub seen_crds : List Manifest → List String
seen_crds [] = []
seen_crds (o ∷ objs) = let rest = seen_crds objs in if is_crd o then o.name ∷ rest else rest

-- The loop over the requirements. Go's order over the map is not fixed, so which of several missing
-- objects the error names is not.
unfoldable pub require_seen : String → List String → List Requirement → Check
require_seen subject seen [] = ok tt
require_seen subject seen ((key, description) ∷ rest) = do
  reject_if (not (has key seen)) (
      errorf (
        "generated " <> subject <> " components are missing " <> description <> " (" <> key
        <> "); review provider version compatibility before deploying"))
  require_seen subject seen rest

unfoldable pub validate_generated_provider_components :
    String → String → String → List Manifest → Check
validate_generated_provider_components provider type namespace objs = do
  let subject = provider <> " " <> type
  require_seen subject (seen_kinds namespace objs) (required_kinds provider type namespace)
  require_seen subject (seen_crds objs) (required_crds provider type)

-- the library: `matches` is `^v\d+\.\d+\.\d+(-[0-9A-Za-z.-]+)?$`
pub record Library : Type 0 where
  pub matches : String → Bool
  pub quote : String → String
  pub new_client : Check
  -- `GetProviderComponents` for a reference, a type and a namespace
  pub get_provider_components : String → String → String → Result (List Manifest)

module _ (l : Library) where
  unfoldable pub validate_provider_version : String → Check
  unfolding trim_space
  validate_provider_version version = do
    let trimmed = trim_space version
    reject_if (is_nil trimmed) (errorf "provider version must not be empty")
    reject_if (not (l.matches trimmed)) (
        errorf (
          "provider version "
          <> l.quote trimmed
          <> " must match vMAJOR.MINOR.PATCH (optionally with prerelease)"))

  abbrev pub versioned : String → String → Result String
  versioned provider version = do validate_provider_version version; ok (provider <> ":" <> version)

  unfoldable pub requires_explicit_provider_version : String → String → Bool
  requires_explicit_provider_version provider type =
      is_core provider type || is_infrastructure provider type

  unfoldable pub provider_ref : String → String → String → Result String
  unfolding trim_space requires_explicit_provider_version
  provider_ref provider type override =
      let version = trim_space override in
      if requires_explicit_provider_version provider type
      then if is_nil version
        then err (
            errorf (
              "provider version is required for " <> provider <> " " <> type
              <> "; set CAPI_VERSION or CAPOCI_VERSION"))
        else versioned provider version
      else if is_nil version
      then ok provider
      else versioned provider version

  unfoldable pub generate_capi_components :
      String → String → String → String → Result (List Manifest)
  unfolding provider_ref
  generate_capi_components provider type namespace override = do
    ref ← provider_ref provider type override
    wrap_err "error creating clusterctl client" l.new_client
    objs ←
        wrap_err "error getting provider components" (l.get_provider_components ref type namespace)
    validate_generated_provider_components provider type namespace objs
    ok objs
