-- ===== src/Crds.antt =====
-- The command `init`, which applies the custom resource definitions of the providers
-- (cmd/init.go, internal/components/crds/crds.go). What it does to the cluster is its log; the
-- answers of the cluster may depend on the log.
pub mod Created
pub mod Applied
use oci_openshift_autoscalin.Base.{
  String, Bool, true, false, Option, none, some, List, [], ◌∷◌, ◌++◌, if◌then◌else◌, Result, ok,
  err, Check, Error, wrap_err, is_already_exists,
}
use oci_openshift_autoscalin.Base.Text.{is_nil}
use oci_openshift_autoscalin.Base.Dict.{Dict, copy_onto}
use oci_openshift_autoscalin.Base.Bind.{◌>>=◌ as ◌>>=ᵣ◌}
use oci_openshift_autoscalin.Clusterctl.{
  Library, Manifest, Conversion, CrdSpec, is_crd, generate_capi_components,
  validate_provider_version, core_provider_name, core_provider_type,
  infrastructure_oci_provider_name, infrastructure_provider_type,
}
use oci_openshift_autoscalin.Exec.{Exec, return, fail, lift, catch, ◌>>=◌, ◌>>◌}
use oci_openshift_autoscalin.Kube.{Kube}
use oci_openshift_autoscalin.Labels.{set_openshift_ca_bundle_annotation}
use oci_openshift_autoscalin.Namespaces.{NamespaceConfig, with_defaults, validate_namespaces}

-- `ProviderConfig`
pub record ProviderConfig : Type 0 where
  pub capi_version : String
  pub capoci_version : String
  pub version : String

-- the definitions among the objects, annotated
unfoldable pub crds_of : List Manifest → List Manifest
crds_of [] = []
crds_of (o ∷ objs) =
    let rest = crds_of objs in
    if is_crd o
    then record o { annotations = set_openshift_ca_bundle_annotation o.annotations } ∷ rest
    else rest

abbrev pub map_result : {A B : Type 0} → (A → B) → Result A → Result B
map_result f (ok a) = ok (f a)
map_result f (err e) = err e

-- `crds.GetClusterctlComponents`
unfoldable pub get_clusterctl_crds : Library → String → String → String → Result (List Manifest)
unfolding crds_of
get_clusterctl_crds l provider type version = map_result crds_of (
    wrap_err "error generating CAPI components"
      (generate_capi_components l provider type "" version))

abbrev pub in_namespace : String → Option Conversion → Option Conversion
in_namespace namespace none = none
in_namespace namespace (some c) = elim c.service_name [
  | none ↦ some c
  | some name ↦
      if is_nil name then some c else some (record c { service_namespace = some namespace })
]

-- `setProviderCRDWebhookNamespace`
unfoldable pub set_provider_crd_webhook_namespace : String → List Manifest → List Manifest
set_provider_crd_webhook_namespace namespace [] = []
set_provider_crd_webhook_namespace namespace (crd ∷ crds) =
    record crd {
      spec = record (crd.spec) { conversion = in_namespace namespace crd.spec.conversion };
    }
    ∷ set_provider_crd_webhook_namespace namespace crds

pub data Call : Type 0 where
  create : Manifest → Call
  get : String → Call
  -- from what is there to what it becomes
  patch : Manifest → Manifest → Call

abbrev pub Log : Type 0
Log = List Call

pub record Cluster : Type 0 where
  pub create : Log → Manifest → Check
  pub get : Log → String → Result Manifest
  pub patch : Log → Manifest → Manifest → Check

unfoldable pub ask : {A : Type 0} → Call → (Log → Result A) → Exec Log A
ask call answer log = (answer log, log ++ call ∷ [])

-- `mergeStringMaps` and `copyMutableCRDSpecFields`, from the desired definition onto the existing one
unfoldable pub updated : Manifest → Manifest → Manifest
updated existing desired = record existing {
  labels = copy_onto existing.labels desired.labels;
  annotations = copy_onto existing.annotations desired.annotations;
  spec = record (existing.spec) {
    versions = desired.spec.versions;
    conversion = desired.spec.conversion;
    preserve_unknown_fields = desired.spec.preserve_unknown_fields;
  };
}

module _ (c : Cluster) where
  unfoldable pub patch_existing : Manifest → Exec Log String
  patch_existing desired = do
    existing ← ask (Call.get desired.name) (λ log. c.get log desired.name)
    let next = updated existing desired
    ask (Call.patch existing next) (λ log. c.patch log existing next)
    return "updated"

  abbrev pub after_create : Manifest → Check → Exec Log String
  after_create desired (ok _) = return "created"
  after_create desired (err e) = if is_already_exists e then patch_existing desired else fail e

  unfoldable pub apply_provider_crd : Manifest → Exec Log String
  unfolding patch_existing
  apply_provider_crd desired = do
    r ← catch (ask (Call.create desired) (λ log. c.create log desired))
    after_create desired r

  -- the loop of `runInit`
  unfoldable pub apply_each : List Manifest → Exec Log (Unit {0})
  apply_each [] = return tt
  apply_each (crd ∷ crds) = do _ ← apply_provider_crd crd; apply_each crds

  -- `runInit`, with the configurations it reads from the environment
  unfoldable pub run_init : Kube → Library → ProviderConfig → NamespaceConfig → Exec Log (Unit {0})
  run_init k l providers namespaces = do
    let ns = with_defaults namespaces
    lift (validate_namespaces k ns)
    lift (validate_provider_version l providers.capi_version)
    core ← lift (get_clusterctl_crds l core_provider_name core_provider_type providers.capi_version)
    lift (validate_provider_version l providers.capoci_version)
    infrastructure ← lift (
        get_clusterctl_crds l infrastructure_oci_provider_name infrastructure_provider_type
          providers.capoci_version)
    apply_each (
        set_provider_crd_webhook_namespace ns.capi_provider core
        ++ set_provider_crd_webhook_namespace ns.capoci_provider infrastructure)
