-- ===== src/Scaling/References.antt =====
-- References between the generated objects, and the checks of the objects before they are written
-- (internal/components/enable_autoscaler/capi.go).
use oci_openshift_autoscalin.Base.{
  ℕ, suc, String, ◌<>◌, Option, none, some, List, [], ◌∷◌, Result, ok, err, Check, errorf, wrap_err,
  reject_if, is_empty,
}
use oci_openshift_autoscalin.Base.Bind.{◌>>=◌, ◌>>◌}
use oci_openshift_autoscalin.Base.Int.{decimal}
use oci_openshift_autoscalin.Base.Text.{is_nil, is_blank, trim_space}
use oci_openshift_autoscalin.Kube.{Kube}
use oci_openshift_autoscalin.Objects.{InfrastructureRef, CapiClusterSpec, MachineDeploymentSpec}

abbrev check_namespace : Option String → Check
check_namespace none = ok tt
check_namespace (some namespace) =
    reject_if (is_blank namespace) (errorf "infrastructureRef.namespace must not be empty when set")

-- `validateCAPIInfrastructureRef`; `none`: the object has no such map
unfoldable pub validate_capi_infrastructure_ref : Option InfrastructureRef → Check
validate_capi_infrastructure_ref none = err (errorf "infrastructureRef is required")
validate_capi_infrastructure_ref (some ref) = do
  reject_if (is_blank ref.api_group) (errorf "infrastructureRef.apiGroup must not be empty")
  reject_if (is_blank ref.kind) (errorf "infrastructureRef.kind must not be empty")
  reject_if (is_blank ref.name) (errorf "infrastructureRef.name must not be empty")
  check_namespace ref.namespace

unfoldable pub validate_machine_deployment_object : MachineDeploymentSpec → Check
validate_machine_deployment_object spec = do
  validate_capi_infrastructure_ref spec.infrastructure_ref
  reject_if (is_blank spec.cluster_name) (errorf "spec.clusterName must not be empty")
  reject_if (is_blank spec.data_secret_name)
      (errorf "spec.template.spec.bootstrap.dataSecretName must not be empty")

module _ (k : Kube) where
  unfoldable pub infrastructure_ref : String → String → String → Result InfrastructureRef
  infrastructure_ref api_version kind name = do
    group ←
        wrap_err ("invalid infrastructure apiVersion " <> k.quote api_version)
          (k.parse_group (trim_space api_version))
    reject_if (is_nil group) (
        errorf
          ("infrastructure apiVersion " <> k.quote api_version <> " must include an API group"))
    reject_if (is_blank kind) (errorf "infrastructureRef kind must not be empty")
    reject_if (is_blank name) (errorf "infrastructureRef name must not be empty")
    ok (record { api_group = group; kind = kind; name = name; namespace = none })

  -- the loop, from the index `i`
  unfoldable pub validate_cidr_blocks : String → ℕ → List String → Check
  validate_cidr_blocks path i [] = ok tt
  validate_cidr_blocks path i (block ∷ blocks) = do
    let place = path <> "[" <> decimal i <> "]"
    let trimmed = trim_space block
    reject_if (is_nil trimmed) (errorf (place <> " must not be empty"))
    wrap_err (place <> " must be a valid CIDR") (k.parse_cidr trimmed)
    validate_cidr_blocks path (suc i) blocks

  abbrev pub validate_blocks : String → List String → Check
  validate_blocks path blocks = do
    reject_if (is_empty blocks) (errorf (path <> " must contain at least one entry"))
    validate_cidr_blocks path 0 blocks

  unfoldable pub validate_capi_cluster_object : CapiClusterSpec → Check
  validate_capi_cluster_object spec = do
    validate_capi_infrastructure_ref spec.infrastructure_ref
    validate_blocks "clusterNetwork.pods.cidrBlocks" spec.pod_cidr_blocks
    validate_blocks "clusterNetwork.services.cidrBlocks" spec.service_cidr_blocks
