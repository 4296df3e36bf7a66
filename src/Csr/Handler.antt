-- ===== src/Csr/Handler.antt =====
-- `CertificateApprovalReconciler` of cert_approval.go: the handler over the calls that it makes.
-- The answer to a call is a parameter that may depend on all calls before it.
use oci_openshift_autoscalin.Base.{
  String, ◌<>◌, Bool, true, false, Option, none, some, List, [], ◌∷◌, ◌++◌, ◌||◌, ◌&&◌, not, ◌==◌,
  if◌then◌else◌, Result, ok, err, Check, wrap, is_not_found,
}
use oci_openshift_autoscalin.Base.Text.{is_nil, trim_space}
use oci_openshift_autoscalin.Api.{Autoscaler}
use oci_openshift_autoscalin.Namespaces.{default_operator_namespace}
use oci_openshift_autoscalin.Singleton.{select_singleton_owner}
use oci_openshift_autoscalin.Exec.{Exec, return, fail, lift, catch, ◌>>=◌}
use oci_openshift_autoscalin.Csr.{
  Csr, CsrCondition, Node, Decoder, contains_string, kubelet_serving_signer, is_csr_approved,
  is_csr_denied, is_supported_kubelet_csr, get_csr_hostname, parse_csr_request, check_serving_names,
}

pub data CsrCall : Type 0 where
  get_csr : String → CsrCall
  list_autoscalers : CsrCall
  list_machines : String → String → CsrCall
  get_node : String → CsrCall
  update_approval : Csr → CsrCall

abbrev pub CsrLog : Type 0
CsrLog = List CsrCall

pub record CsrEnv : Type 0 where
  pub get_csr : CsrLog → String → Result Csr
  pub list_autoscalers : CsrLog → Result (List Autoscaler)
  -- the names of the OCIMachines in a namespace with the label of a cluster
  pub list_machines : CsrLog → String → String → Result (List String)
  pub get_node : CsrLog → String → Result Node
  pub update_approval : CsrLog → Csr → Check

abbrev pub CsrAction : Type 0 → Type 0
CsrAction A = Exec CsrLog A

unfoldable pub request : {A : Type 0} → CsrCall → (CsrLog → Result A) → CsrAction A
request call answer log = (answer log, log ++ call ∷ [])

-- certificateApprovalScope
pub record Scope : Type 0 where
  pub namespace : String
  pub cluster_name : String

abbrev pub has_scope : Scope → List Scope → Bool
has_scope s [] = false
has_scope s (t ∷ scopes) =
    let rest = has_scope s scopes in
    if t.namespace == s.namespace && t.cluster_name == s.cluster_name then true else rest

unfoldable pub add_scope : String → String → List Scope → List Scope
add_scope namespace cluster_name scopes =
    let s : Scope = record {
      namespace = trim_space namespace;
      cluster_name = trim_space cluster_name;
    } in
    if is_nil s.namespace || is_nil s.cluster_name
    then scopes
    else if has_scope s scopes
    then scopes
    else scopes ++ s ∷ []

-- the fields MachineNamespace and ClusterName of the reconciler
pub record CsrConfig : Type 0 where
  pub machine_namespace : String
  pub cluster_name : String

unfoldable pub base_namespace : CsrConfig → String
base_namespace c =
    let trimmed = trim_space c.machine_namespace in
    if is_nil trimmed then default_operator_namespace else trimmed

abbrev scope_cluster_name : CsrConfig → Option Autoscaler → String
scope_cluster_name c none = trim_space c.cluster_name
scope_cluster_name c (some owner) =
    let override = trim_space owner.spec.capi.cluster_name in
    if is_nil override then trim_space c.cluster_name else override

unfoldable pub scopes_for : CsrConfig → Option Autoscaler → List Scope
unfolding add_scope base_namespace
scopes_for c owner = add_scope (base_namespace c) (scope_cluster_name c owner) []

-- `Approved` with the operator's reason; its times are not modelled
unfoldable pub approved : Csr → Csr
approved csr =
    let c : CsrCondition = record {
      type = "Approved";
      reason = "AutoApproval";
      message = "Automatically approved by OCI CAPI operator for matching OCIMachine";
    } in
    record csr { conditions = csr.conditions ++ c ∷ [] }

module _ (env : CsrEnv) (config : CsrConfig) where
  unfoldable pub certificate_approval_scopes : CsrAction (List Scope)
  certificate_approval_scopes = do
    items ← request list_autoscalers env.list_autoscalers
    return (scopes_for config (select_singleton_owner items false))

  unfoldable pub match_in_scopes : String → List Scope → CsrAction Bool
  match_in_scopes hostname [] = return false
  match_in_scopes hostname (s ∷ scopes) =
      let rest = match_in_scopes hostname scopes in
      do
        machines ←
            request (list_machines s.namespace s.cluster_name)
              (λ log. env.list_machines log s.namespace s.cluster_name)
        if contains_string machines hostname then return true else rest

  unfoldable pub has_matching_oci_machine : String → CsrAction Bool
  has_matching_oci_machine hostname = do
    scopes ← certificate_approval_scopes
    match_in_scopes hostname scopes

  module _ (quote : String → String) (d : Decoder) where
    abbrev pub on_node : Csr → Result Node → String → Check
    on_node csr (err e) hostname = err (wrap ("failed to get node " <> quote hostname) e)
    on_node csr (ok node) hostname = elim (parse_csr_request quote d csr) [
      | err e ↦ err e
      | ok req ↦ check_serving_names quote d node req
    ]

    unfoldable pub validate_serving_csr : Csr → String → CsrAction (Unit {0})
    validate_serving_csr csr hostname = do
      node ← catch (request (get_node hostname) (λ log. env.get_node log hostname))
      lift (on_node csr node hostname)

    unfoldable pub approve : Csr → CsrAction (Unit {0})
    approve csr =
        request (update_approval (approved csr)) (λ log. env.update_approval log (approved csr))

    unfoldable pub on_validated : Csr → Check → CsrAction (Unit {0})
    on_validated csr (err e) = return tt
    on_validated csr (ok _) = approve csr

    unfoldable pub on_match : Csr → String → Bool → CsrAction (Unit {0})
    on_match csr hostname false = return tt
    on_match csr hostname true =
        if csr.signer_name == kubelet_serving_signer
        then (do valid ← catch (validate_serving_csr csr hostname); on_validated csr valid)
        else approve csr

    unfoldable pub on_hostname : Csr → Result String → CsrAction (Unit {0})
    on_hostname csr (err e) = return tt
    on_hostname csr (ok hostname) =
        if is_nil hostname
        then return tt
        else (do found ← has_matching_oci_machine hostname; on_match csr hostname found)

    unfoldable pub on_csr : Result Csr → CsrAction (Unit {0})
    on_csr (err e) = if is_not_found e then return tt else fail e
    on_csr (ok csr) =
        if is_csr_approved csr || is_csr_denied csr
        then return tt
        else if not (is_supported_kubelet_csr csr)
        then return tt
        else on_hostname csr (get_csr_hostname quote d csr)

    unfoldable pub reconcile_csr : String → CsrAction (Unit {0})
    reconcile_csr name = do
      csr ← catch (request (get_csr name) (λ log. env.get_csr log name))
      on_csr csr
