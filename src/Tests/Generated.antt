-- ===== src/Tests/Generated.antt =====
-- A concrete Service and Deployment of a provider, brought to the cluster twice.
use oci_openshift_autoscalin.Base.{
  ℕ, String, true, Option, none, some, List, [], ◌∷◌, ◌++◌, ◌≡◌, refl, ok,
}
use oci_openshift_autoscalin.Generated.{
  Cluster, Held, Log, Unstructured, reconcile_clusterctl_components,
  set_deployment_rollout_defaults,
}
use oci_openshift_autoscalin.Preserved.{Content, ServicePort, ServiceSpec}
use oci_openshift_autoscalin.Generated.Settled.{
  reads, reconcile_clusterctl_components-reads, stored,
}

abbrev port : Option ℕ → ServicePort
port node_port = record {
  name = some "https";
  port = some 443;
  protocol = none;
  node_port = node_port;
  others = "";
}

abbrev service_spec : Option String → Option ℕ → ServiceSpec
service_spec cluster_ip node_port = record {
  cluster_ip = cluster_ip;
  cluster_ips = none;
  ip_families = none;
  ip_family_policy = none;
  internal_traffic_policy = none;
  health_check_node_port = none;
  ports = some (port node_port ∷ []);
  others = "";
}

abbrev held : ℕ → Held
held generation = record {
  resource_version = "";
  uid = "";
  creation_timestamp = "";
  generation = generation;
  managed_fields = "";
  finalizers = [];
  status = none;
}

abbrev component : String → Content → Unstructured
component kind content = record {
  api_version = "v1";
  kind = kind;
  namespace = "capi-system";
  name = "capi";
  labels = [];
  annotations = [];
  held = held 0;
  content = content;
}

abbrev generated : List Unstructured
generated =
    component "Service" (Content.service (service_spec none none))
    ∷ component "Deployment" (Content.deployment none "")
    ∷ []

-- before the first pass the Service has an address and a node port
abbrev before : Unstructured → Unstructured
before o = record o { content = Content.service (service_spec (some "10.0.0.7") (some 31000)) }

abbrev later : Log → Unstructured → Held
later log o = held 3

abbrev holding : Cluster
holding = record {
  get = λ log o. ok (stored before later log o);
  create = λ log o. ok tt;
  update = λ log o. ok tt;
  deep_equal = λ a b. true;
}

reads_example :
    reconcile_clusterctl_components holding generated [] ≡ (ok tt, [] ++ reads generated)
unfolding set_deployment_rollout_defaults
reads_example =
    reconcile_clusterctl_components-reads holding before later generated [] (λ x. refl)
      (((tt, tt), λ log. refl), ((tt, λ log. refl), tt))
