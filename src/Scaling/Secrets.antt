-- ===== src/Scaling/Secrets.antt =====
-- The secrets of a node group (`BootstrapConfigSecret` and `KubeConfigSecret` of
-- internal/components/enable_autoscaler/secrets.go). What their mutations read from the cluster and
-- base64 are parameters.
use oci_openshift_autoscalin.Base.{String, ◌<>◌, [], ◌∷◌, Result, ok, errorf, wrap_err, reject_if}
use oci_openshift_autoscalin.Base.Bind.{◌>>=◌, ◌>>◌}
use oci_openshift_autoscalin.Base.Text.{is_nil}
use oci_openshift_autoscalin.Base.Dict.{Dict, insert}
use oci_openshift_autoscalin.Api.{Autoscaler}
use oci_openshift_autoscalin.Labels.{set_default_labels}
use oci_openshift_autoscalin.Objects.{Object, Payload}
use oci_openshift_autoscalin.Scaling.Rendered.{rendered, as_they_are}
use oci_openshift_autoscalin.Scaling.Deployment.{capi_cluster_name_label}

-- What the cluster answers while the mutations of one reconcile run, each of them once:
-- `utils.GenerateIgnitionConfig`, the token that is made for a service account (its name and
-- namespace), and `utils.GetKubeconfigCA`. Each reconcile has a source of its own, since a request
-- for a token makes a new one.
pub record SecretSource : Type 0 where
  pub generate_ignition_config : Result String
  pub create_token : String → String → Result String
  pub get_kubeconfig_ca : Result String
  pub base64 : String → String

abbrev pub move_label : String
move_label = "clusterctl.cluster.x-k8s.io/move"

unfoldable pub kubeconfig_labels : String → String → Dict String → Dict String
kubeconfig_labels instance_name cluster_name labels =
    insert move_label ""
      (insert capi_cluster_name_label cluster_name (set_default_labels instance_name labels))

-- `kubeconfigFmt`
unfoldable pub kubeconfig : String → String → String → String → String → String
kubeconfig cluster_name ca account namespace token =
    "apiVersion: v1\nkind: Config\nclusters:\n- name: " <> cluster_name
    <> "\n  cluster:\n    server: https://kubernetes.default.svc\n    certificate-authority-data: "
    <> ca <> "\ncontexts:\n- name: " <> cluster_name <> "\n  context:\n    cluster: "
    <> cluster_name <> "\n    user: " <> account <> "\n    namespace: " <> namespace
    <> "\ncurrent-context: " <> cluster_name <> "\nusers:\n- name: " <> account
    <> "\n  user:\n    token: " <> token <> "\n"

module _ (source : SecretSource) where
  unfoldable pub bootstrap_config_payload : Result Payload
  bootstrap_config_payload = do
    ignition ← wrap_err "failed to generate ignition config" source.generate_ignition_config
    ok (Payload.secret (("value", ignition) ∷ ("format", "ignition") ∷ []))

  -- the mutation of `BootstrapConfigSecret`
  unfoldable pub bootstrap_config_secret : Autoscaler → Object → Result Object
  bootstrap_config_secret a o =
      rendered (set_default_labels a.metadata.name) as_they_are bootstrap_config_payload o

  -- with the namespace of the context, the namespace of the service account, the name of the cluster
  -- and that of the service account
  unfoldable pub kubeconfig_payload : String → String → String → String → Result Payload
  kubeconfig_payload context_namespace token_namespace cluster_name account = do
    token ←
        wrap_err "failed to create service account token request"
          (source.create_token account token_namespace)
    reject_if (is_nil token) (errorf "service account token request returned an empty token")
    ca ← wrap_err "failed to get kubeconfig CA" source.get_kubeconfig_ca
    ok (
        Payload.secret (
          ("value", kubeconfig cluster_name (source.base64 ca) account context_namespace token)
          ∷ []))

  -- the mutation of `KubeConfigSecret`
  unfoldable pub kubeconfig_secret :
      String → String → String → String → Autoscaler → Object → Result Object
  kubeconfig_secret context_namespace token_namespace cluster_name account a o =
      rendered (kubeconfig_labels a.metadata.name cluster_name) as_they_are
        (kubeconfig_payload context_namespace token_namespace cluster_name account) o
