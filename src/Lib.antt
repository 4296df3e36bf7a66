-- ===== src/Lib.antt =====
-- The OCI OpenShift autoscaling operator: the control logic of its two controllers.
--
-- The operator watches one custom resource, OCIClusterAutoscaler, and brings up the Cluster API
-- providers, the cluster autoscaler and the machine objects on a running OpenShift cluster. A second
-- controller approves the certificate requests of the machines that come up.
--
-- The parts, and the files that model them (paths from the repository's root):
--   Api, Namespaces: the resource (api/v1alpha1/ociclusterautoscaler_types.go) and the namespaces of
--     the operator (internal/controllers/namespaces.go).
--   Status: conditions, phase and events (internal/controllers/status.go).
--   Singleton: which resource owns the shared objects, `selectSingletonOwner` and its callers.
--   Csr: `CertificateApprovalReconciler` (internal/controllers/cert_approval.go). Csr.Handler has the
--     handler; Csr the checks that it makes.
--   Config, Discovery: `SetAutoScalingConfig` and its validations
--     (internal/components/enable_autoscaler/config.go), and what it reads from the cluster
--     (internal/utils/kubeapi.go).
--   NodePool: generated names (internal/components/enable_autoscaler/capi.go) and `validate`.
--   Labels: labels and annotations (internal/utils/kubeapi.go).
--   Credentials: credentials of the provider (internal/components/capoci/capoci.go).
--   Objects, Components: objects and components (internal/components/component.go),
--     `reconcileComponents` and `removeComponent`.
--   Scaling: the objects of a node group (internal/components/enable_autoscaler/capi.go, secrets.go
--     and enable_autoscaler.go). Scaling.Tags, Machines, Deployment, Cluster and Secrets have the
--     mutations, Scaling.Parts the component; a mutation (Scaling.Rendered) takes the object that the
--     cluster has to the one that is written.
--   Providers: the components of the providers and of the cluster autoscaler
--     (internal/components/capi/capi.go, capoci/capoci.go, autoscaler/rbac.go); Providers.Wired fills
--     the reconciler's interface with all components.
--   Helm: the release of the cluster autoscaler (internal/components/autoscaler/autoscaler.go and
--     values.go, internal/utils/helm.go).
--   Rollout, Handler, Stack, Reconcile: `checkDeploymentAvailable`, the steps that the stages share,
--     `reconcileOCICapiStack`, and `Reconcile` with `cleanup`, all of
--     internal/controllers/ociclusterautoscaler_controller.go.
--   ControlPlane: `markExistingClusterControlPlaneInitializedForVersion`, of the same file.
--   Clusterctl, Crds: the objects that the clusterctl library generates
--     (internal/utils/clusterctl.go), and the command `init`, which applies the custom resource
--     definitions among them (internal/components/crds/crds.go, cmd/init.go).
--   Generated: how those objects are written over what the cluster has, and removed
--     (`reconcileClusterctlComponents`, `removeClusterctlComponents`); Preserved: what such an update
--     preserves.
--   Startup: how the command `run` completes and checks its options (cmd/main.go).
--   Base, Exec, Run, Kube: text, numbers, maps and errors of Go; handlers with errors; the log of
--     calls; the Kubernetes libraries. Tests: example inputs.
--
-- State. A handler is a computation (Exec) over a state that may stop with an error; what it did
-- before the error stays. The state of the reconciler (Run) is the `instance` in memory and the log
-- of the calls to the cluster and to Helm. The answer to a call is a parameter that may depend on the
-- whole log (Env, CsrEnv), so what is stated for every environment holds whatever other writers do
-- between two calls. A successful write of the resource replaces the instance by the answer, as the
-- client library does. Errors carry their text and what `apierrors.IsNotFound` and
-- `meta.IsNoMatchError` see through wrapping.
--
-- Numbers and loops. Go's int32 values are only compared and printed, so they are integers
-- without bounds. All loops of the code run over lists and are structural recursions; the model needs
-- no fuel, except in the printing of decimals, where the number itself is enough.
--
-- Parameters. The Kubernetes libraries (Kube, with their documented laws in IsLawful), `reflect`,
-- `strconv.ParseBool`, `net.ParseCIDR`, base64, regular expressions, PEM and X.509 decoding, and
-- Go's `%q`. The reconciler takes the components through the interface Handler.Parts; marking the
-- control plane in one API version is one call there, and ControlPlane models what that call does.
-- The clusterctl library is the parameter Library. What the mutations of the secrets read
-- (SecretSource) is given, for each reconcile anew. Objects that the code handles as unstructured maps are records of the
-- fields it names, with the rest of a machine deployment's specification kept aside. Of Helm's
-- library the answers to its calls are part of Env.
--
-- Not modelled: which generated objects a provider keeps (`GetClusterctlComponents` of capi and
-- capoci), ignition (internal/utils/ignition.go), redaction of logs (internal/logging), the wiring
-- of the manager (cmd/main.go), log lines, times of conditions, and generated and vendored code.
pub mod Base
pub mod Api
pub mod Kube
pub mod Namespaces
pub mod Exec
pub mod Objects
pub mod Run
pub mod Startup
pub mod Status
pub mod Singleton
pub mod Csr
pub mod Config
pub mod Discovery
pub mod Labels
pub mod ControlPlane
pub mod Crds
pub mod Credentials
pub mod NodePool
pub mod Clusterctl
pub mod Components
pub mod Preserved
pub mod Providers
pub mod Rollout
pub mod Scaling
pub mod Helm
pub mod Generated
pub mod Handler
pub mod Stack
pub mod Reconcile
pub mod Tests
