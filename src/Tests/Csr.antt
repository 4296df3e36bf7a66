-- ===== src/Tests/Csr.antt =====
-- Example requests for certificates.
use oci_openshift_autoscalin.Base.{◌<>◌, some, [], ◌∷◌, ◌≡◌, ◌↔◌, ◌⊎◌, refl, ok}
use oci_openshift_autoscalin.Base.Text.{has_prefix, trim_prefix, drop, before}
use oci_openshift_autoscalin.Csr.{
  Csr, CertRequest, Node, Decoder, node_bootstrapper_username, system_nodes_group, node_prefix,
  client_kubelet_signer, kubelet_serving_signer, check_serving_names, get_csr_hostname,
  get_hostname_from_client_kubelet_csr, parse_csr_request, contains_string, extract_node_name,
}
use oci_openshift_autoscalin.Csr.Approval.{Justified, approvals-Justified}
use oci_openshift_autoscalin.Csr.Handler.{CsrEnv, CsrConfig, approved, reconcile_csr}
use oci_openshift_autoscalin.Csr.Identity.{
  Identified, get_csr_hostname-Identified, extract_node_name_of_host,
}
use oci_openshift_autoscalin.Csr.Machines.{approvals}
use oci_openshift_autoscalin.Csr.Serving.{Covers, check_serving_names-ok}
use oci_openshift_autoscalin.Tests.Fixtures.{older_resource}

abbrev subject : CertRequest
subject = record {
  common_name = "system:node:worker-1";
  organization = system_nodes_group ∷ [];
  dns_names = [];
  ip_addresses = [];
  email_addresses = [];
  uris = [];
}

abbrev decoder : Decoder
decoder = record {
  pem_decode = λ text. some ("CERTIFICATE REQUEST", text);
  parse_certificate_request = λ bytes. ok subject;
  parse_ip = λ text. some text;
}

abbrev client_csr : Csr
client_csr = record {
  name = "csr-1";
  signer_name = client_kubelet_signer;
  username = node_bootstrapper_username;
  groups = [];
  request = "pem";
  conditions = [];
}

abbrev worker : Node
worker = record { name = "worker-1"; addresses = [] }

abbrev cluster : CsrEnv
cluster = record {
  get_csr = λ log name. ok client_csr;
  list_autoscalers = λ log. ok (older_resource ∷ []);
  list_machines = λ log namespace name. ok ("worker-1" ∷ []);
  get_node = λ log name. ok worker;
  update_approval = λ log csr. ok tt;
}

abbrev settings : CsrConfig
settings = record { machine_namespace = "machines"; cluster_name = "ocp" }

abbrev serving_csr : Csr
serving_csr = record client_csr {
  signer_name = kubelet_serving_signer;
  username = "system:node:worker-1";
  groups = system_nodes_group ∷ [];
}

abbrev serving_cluster : CsrEnv
serving_cluster = record cluster { get_csr = λ log name. ok serving_csr }

abbrev names_decoder : Decoder
names_decoder = record decoder {
  parse_certificate_request = λ bytes. ok (record subject { dns_names = "worker-1" ∷ [] });
}

approved_example :
    let log = (reconcile_csr serving_cluster settings (λ s. s) names_decoder "csr-1" []).1 in
    (approvals log ≡ [])
    ⊎ ((csr : Csr) × (serving_cluster.get_csr [] "csr-1" ≡ ok csr)
        × (approvals log ≡ approved csr ∷ [])
        × Justified serving_cluster settings (λ s. s) names_decoder csr log)
approved_example = approvals-Justified serving_cluster settings (λ s. s) names_decoder "csr-1"

identified_example : Identified (λ s. s) decoder client_csr "worker-1"
unfolding get_csr_hostname get_hostname_from_client_kubelet_csr parse_csr_request contains_string
    extract_node_name has_prefix trim_prefix drop before
identified_example = get_csr_hostname-Identified (λ s. s) decoder client_csr "worker-1" refl refl

host_example :
    (extract_node_name (λ s. s) (node_prefix <> "worker-1") ≡ ok "worker-1")
    × (extract_node_name (λ s. s) (node_prefix <> ("worker-1" <> ("." <> "example.com")))
        ≡ ok "worker-1")
host_example = extract_node_name_of_host (λ s. s) "worker-1" "example.com" refl refl

abbrev names : CertRequest
names = record subject { dns_names = "worker-1" ∷ [] }

serving_example :
    (check_serving_names (λ s. s) decoder worker names ≡ ok tt) ↔ Covers decoder worker names
serving_example = check_serving_names-ok (λ s. s) decoder worker names
