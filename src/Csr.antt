-- ===== src/Csr.antt =====
-- Approval of certificate signing requests for OCI machines
-- (internal/controllers/cert_approval.go). Decoding PEM and X.509 is Go's `crypto`, a parameter.
pub mod Identity
pub mod Handler
pub mod Machines
pub mod Serving
pub mod Approval
use oci_openshift_autoscalin.Base.{
  ℕ, String, ◌<>◌, Bool, true, false, Option, none, some, List, [], ◌∷◌, ◌++◌, ◌||◌, ◌&&◌, not,
  ◌==◌, if◌then◌else◌, Result, ok, err, Check, Error, errorf, wrap, wrap_err, reject_if, is_empty,
}
use oci_openshift_autoscalin.Base.Bind.{◌>>=◌, ◌>>◌}
use oci_openshift_autoscalin.Base.Text.{is_nil, has_prefix, trim_prefix, before}
use oci_openshift_autoscalin.Api.{Autoscaler}
use oci_openshift_autoscalin.Exec.{Exec}

abbrev pub node_bootstrapper_username : String
node_bootstrapper_username =
    "system:serviceaccount:openshift-machine-config-operator:node-bootstrapper"

abbrev pub system_nodes_group : String
system_nodes_group = "system:nodes"

abbrev pub node_prefix : String
node_prefix = "system:node:"

-- `KubeAPIServerClientKubeletSignerName` and `KubeletServingSignerName` of k8s.io/api
abbrev pub client_kubelet_signer : String
client_kubelet_signer = "kubernetes.io/kube-apiserver-client-kubelet"

abbrev pub kubelet_serving_signer : String
kubelet_serving_signer = "kubernetes.io/kubelet-serving"

pub record CsrCondition : Type 0 where
  pub type : String
  pub reason : String
  pub message : String

-- CertificateSigningRequest
pub record Csr : Type 0 where
  pub name : String
  pub signer_name : String
  pub username : String
  pub groups : List String
  pub request : String
  pub conditions : List CsrCondition

-- x509.CertificateRequest; an IP address is its text, as `net.IP.String` gives it
pub record CertRequest : Type 0 where
  pub common_name : String
  pub organization : List String
  pub dns_names : List String
  pub ip_addresses : List String
  pub email_addresses : List String
  pub uris : List String

pub record NodeAddress : Type 0 where
  pub type : String
  pub address : String

pub record Node : Type 0 where
  pub name : String
  pub addresses : List NodeAddress

pub record Decoder : Type 0 where
  -- `pem.Decode`: the type of the first block, and its bytes
  pub pem_decode : String → Option (String × String)
  pub parse_certificate_request : String → Result CertRequest
  -- `net.ParseIP`, and the text of what it returns
  pub parse_ip : String → Option String

unfoldable pub contains_string : List String → String → Bool
contains_string [] needle = false
contains_string (value ∷ values) needle =
    let rest = contains_string values needle in if value == needle then true else rest

abbrev has_condition : String → List CsrCondition → Bool
has_condition type [] = false
has_condition type (c ∷ cs) =
    let rest = has_condition type cs in if c.type == type then true else rest

unfoldable pub is_csr_approved : Csr → Bool
is_csr_approved csr = has_condition "Approved" csr.conditions

unfoldable pub is_csr_denied : Csr → Bool
is_csr_denied csr = has_condition "Denied" csr.conditions

unfoldable pub is_kubelet_bootstrap_client_csr : Csr → Bool
is_kubelet_bootstrap_client_csr csr =
    csr.signer_name == client_kubelet_signer && csr.username == node_bootstrapper_username

unfoldable pub is_kubelet_serving_csr : Csr → Bool
is_kubelet_serving_csr csr =
    csr.signer_name == kubelet_serving_signer
    && has_prefix csr.username node_prefix
    && contains_string csr.groups system_nodes_group

unfoldable pub is_supported_kubelet_csr : Csr → Bool
unfolding is_kubelet_bootstrap_client_csr is_kubelet_serving_csr
is_supported_kubelet_csr csr = is_kubelet_bootstrap_client_csr csr || is_kubelet_serving_csr csr

-- `hostname[:dotIndex]` if `dotIndex > 0`
abbrev cut_domain : String → String
cut_domain hostname = let label = before b'.' hostname in if is_nil label then hostname else label

abbrev named : String → Result String
named hostname = if is_nil hostname then err (errorf "extracted hostname is empty") else ok hostname

-- `quote` is `%q`
module _ (quote : String → String) where
  unfoldable pub extract_node_name : String → Result String
  unfolding has_prefix trim_prefix before
  extract_node_name identity =
      if is_nil identity
      then err (errorf "node identity is empty")
      else if not (has_prefix identity node_prefix)
      then err (
          errorf
            ("node identity " <> quote identity <> " does not have expected system:node: prefix"))
      else named (cut_domain (trim_prefix identity node_prefix))

  module _ (d : Decoder) where
    abbrev with_common_name : CertRequest → Result CertRequest
    with_common_name req =
        if is_nil req.common_name
        then err (errorf "certificate request has empty CommonName")
        else ok req

    abbrev parse_block : Option (String × String) → Result CertRequest
    parse_block none = err (errorf "failed to decode PEM block or invalid block type")
    parse_block (some (type, bytes)) =
        if type == "CERTIFICATE REQUEST"
        then (do
          req ← wrap_err "failed to parse certificate request" (d.parse_certificate_request bytes)
          with_common_name req)
        else err (errorf "failed to decode PEM block or invalid block type")

    unfoldable pub parse_csr_request : Csr → Result CertRequest
    parse_csr_request csr =
        if is_nil csr.request
        then err (errorf "CSR request is empty")
        else parse_block (d.pem_decode csr.request)

    abbrev no_system_nodes : Error
    no_system_nodes =
        errorf
          ("certificate request subject organizations do not include " <> quote system_nodes_group)

    abbrev requests_names : CertRequest → Bool
    requests_names req =
        not (is_empty req.dns_names)
        || not (is_empty req.ip_addresses)
        || not (is_empty req.email_addresses)
        || not (is_empty req.uris)

    abbrev common_name_host : CertRequest → Result String
    common_name_host req =
        wrap_err ("invalid CommonName " <> quote req.common_name)
          (extract_node_name req.common_name)

    unfoldable pub get_hostname_from_client_kubelet_csr : Csr → Result String
    get_hostname_from_client_kubelet_csr csr = do
      reject_if (not (csr.username == node_bootstrapper_username))
          (errorf ("unexpected kubelet client CSR username " <> quote csr.username))
      req ← parse_csr_request csr
      reject_if (not (contains_string req.organization system_nodes_group)) no_system_nodes
      reject_if (requests_names req)
          (errorf "kubelet client CSR must not request subject alternative names")
      common_name_host req

    unfoldable pub get_hostname_from_serving_csr : Csr → Result String
    get_hostname_from_serving_csr csr = do
      from_username ← wrap_err "invalid username" (extract_node_name csr.username)
      req ← parse_csr_request csr
      reject_if (not (contains_string req.organization system_nodes_group)) no_system_nodes
      from_subject ← common_name_host req
      reject_if (not (from_subject == from_username))
          (errorf "subject and username node identities do not match")
      ok from_username

    unfoldable pub get_csr_hostname : Csr → Result String
    get_csr_hostname csr =
        if csr.signer_name == client_kubelet_signer
        then get_hostname_from_client_kubelet_csr csr
        else if csr.signer_name == kubelet_serving_signer
        then get_hostname_from_serving_csr csr
        else ok ""

-- `allowed[name]` of the map that `allowedNodeDNSNames` builds
abbrev names_host : NodeAddress → Bool
names_host a = a.type == "Hostname" || a.type == "InternalDNS" || a.type == "ExternalDNS"

abbrev in_dns_addresses : List NodeAddress → String → Bool
in_dns_addresses [] name = false
in_dns_addresses (a ∷ l) name =
    let rest = in_dns_addresses l name in if names_host a && a.address == name then true else rest

unfoldable pub allowed_node_dns_name : Node → String → Bool
allowed_node_dns_name node name = node.name == name || in_dns_addresses node.addresses name

abbrev holds_ip : NodeAddress → Bool
holds_ip a = a.type == "InternalIP" || a.type == "ExternalIP"

module _ (d : Decoder) where
  abbrev parsed_as : String → String → Bool
  parsed_as address ip = elim (d.parse_ip address) [ none ↦ false | some text ↦ text == ip ]

  abbrev in_ip_addresses : List NodeAddress → String → Bool
  in_ip_addresses [] ip = false
  in_ip_addresses (a ∷ l) ip =
      let rest = in_ip_addresses l ip in if holds_ip a && parsed_as a.address ip then true else rest

  -- `allowed[ip]` of the map that `allowedNodeIPs` builds
  unfoldable pub allowed_node_ip : Node → String → Bool
  allowed_node_ip node ip = in_ip_addresses node.addresses ip

-- a loop that stops at the first text that is not allowed
unfoldable pub check_each : (String → Bool) → (String → Error) → List String → Check
check_each allowed complaint [] = ok tt
check_each allowed complaint (x ∷ xs) = do
  reject_if (not (allowed x)) (complaint x)
  check_each allowed complaint xs

module _ (quote : String → String) (d : Decoder) where
  -- `validateServingCSR` once the node is there
  unfoldable pub check_serving_names : Node → CertRequest → Check
  check_serving_names node req = do
    reject_if (is_empty req.dns_names && is_empty req.ip_addresses)
        (errorf "serving CSR must request at least one DNS or IP subject alternative name")
    check_each (allowed_node_dns_name node)
        (λ name. errorf (
          "serving CSR requested DNS SAN " <> quote name <> " that is not a node DNS/name address"))
        req.dns_names
    check_each (allowed_node_ip d node)
        (λ ip.
          errorf ("serving CSR requested IP SAN " <> quote ip <> " that is not a node IP address"))
        req.ip_addresses
