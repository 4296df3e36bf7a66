-- ===== src/Tests/Fixtures.antt =====
-- Example data: a Kubernetes library, resources and a cluster that answers.
use oci_openshift_autoscalin.Base.{
  ℕ, String, Bool, true, false, Option, none, some, List, [], ◌∷◌, ◌≡◌, refl, arith, ◌==◌, eq_iff,
  eq_refl, if◌then◌else◌, ok, err, errorf,
}
use oci_openshift_autoscalin.Base.Text.{before, contains}
use oci_openshift_autoscalin.Base.Int.{pos}
use oci_openshift_autoscalin.Api.{Autoscaler, Condition}
use oci_openshift_autoscalin.Config.{Config}
use oci_openshift_autoscalin.Kube.{Kube, IsLawful}
use oci_openshift_autoscalin.Labels.{managed_by_label}
use oci_openshift_autoscalin.Objects.{Object, Payload, Subcomponent, Component}
use oci_openshift_autoscalin.Run.{Env, Run}

abbrev pub put_condition : List Condition → Condition → List Condition
put_condition [] c = c ∷ []
put_condition (d ∷ ds) c = if d.type == c.type then c ∷ ds else d ∷ put_condition ds c

abbrev pub find_in : List Condition → String → Option Condition
find_in [] t = none
find_in (d ∷ ds) t = if d.type == t then some d else find_in ds t

abbrev pub holds : List String → String → Bool
holds [] f = false
holds (g ∷ gs) f = if g == f then true else holds gs f

abbrev pub without : List String → String → List String
without [] f = []
without (g ∷ gs) f = if g == f then without gs f else g ∷ without gs f

abbrev pub with_last : List String → String → List String
with_last [] f = f ∷ []
with_last (g ∷ gs) f = g ∷ with_last gs f

-- every text with a character is a label, and no two statuses are equal
abbrev pub kube : Kube
kube = record {
  is_dns1123_label = λ s. if s == "" then "must not be empty" ∷ [] else [];
  set_status_condition = put_condition;
  find_status_condition = find_in;
  contains_finalizer = holds;
  add_finalizer = with_last;
  remove_finalizer = without;
  deep_equal = λ s t. false;
  quote = λ s. s;
  parse_group = λ s. ok (before 47 s);
  parse_cidr = λ s. if contains s "/" then ok tt else err (errorf "invalid CIDR address");
}

find_in-put_condition :
    (cs : List Condition) (c : Condition) (t : String)
    → find_in (put_condition cs c) t ≡ (if c.type == t then some c else find_in cs t)
find_in-put_condition [] c t = refl
find_in-put_condition (d ∷ ds) c t =
    ground
      (arith, eq_iff d.type c.type, eq_iff d.type t, eq_iff c.type t, find_in-put_condition ds c t)

find_in_type :
    (cs : List Condition) (t : String) (c : Condition) → find_in cs t ≡ some c → c.type ≡ t
find_in_type [] t c h = cc h
find_in_type (d ∷ ds) t c h = ground (arith, h, eq_iff d.type t, find_in_type ds t c)

holds-with_last : (fs : List String) (f : String) → holds (with_last fs f) f ≡ true
holds-with_last [] f = rw (eq_refl f) refl
holds-with_last (g ∷ gs) f = ground (arith, holds-with_last gs f)

holds-without : (fs : List String) (f : String) → holds (without fs f) f ≡ false
holds-without [] f = refl
holds-without (g ∷ gs) f = ground (arith, holds-without gs f)

pub kube-IsLawful : IsLawful kube
kube-IsLawful = record {
  find-set = find_in-put_condition;
  find_type = find_in_type;
  contains-add = holds-with_last;
  contains-remove = holds-without;
}

abbrev pub finalizer : String
finalizer = "ociclusterautoscaler.capi.openshift.io/finalizer"

-- a resource with its name, its age and its deletion
abbrev pub resource : String → ℕ → Option ℕ → Autoscaler
resource name created deleted = record {
  metadata = record {
    namespace = "autoscaling";
    name = name;
    generation = 4;
    creation_timestamp = created;
    deletion_timestamp = deleted;
    finalizers = finalizer ∷ [];
  };
  spec = record {
    autoscaling = record {
      min_nodes = some (pos 1);
      max_nodes = some (pos 3);
      shape = "VM.Standard.E5.Flex";
      shape_config = none;
      image_id = "image";
      pool_identifier = "gpu";
      enable_rdma = false;
      rdma_compute_cluster_id = "";
      rdma_failure_domain = "";
    };
    capi = record { cluster_name = "ocp" };
    cluster_autoscaler = record {
      repository_url = "";
      name = "";
      service_account_name = "";
      cloud_provider = "";
      create_rbac = none;
      create_service_account = none;
      version = "";
    };
  };
  status = record {
    conditions = [];
    phase = "Ready";
    capi_installed = true;
    cluster_autoscaler_deployed = true;
    observed_generation = 3;
  };
}

abbrev pub older_resource : Autoscaler
older_resource = resource "first" 10 none

abbrev pub younger_resource : Autoscaler
younger_resource = resource "second" 20 none

-- a cluster where every call succeeds and one resource is listed
abbrev pub env_listing : List Autoscaler → Env
env_listing items = record {
  get_instance = λ log request. ok older_resource;
  list_autoscalers = λ log. ok items;
  update_status = λ log a. ok a;
  update = λ log a. ok a;
  create_or_patch = λ log o mutate. ok "updated";
  delete = λ log o. ok tt;
  get_deployment = λ log namespace name. ok [];
  list_infrastructures = λ log. ok ("ocp" ∷ []);
  get_network = λ log. ok (record {
    spec_cluster = "10.128.0.0/14" ∷ [];
    spec_service = "172.30.0.0/16" ∷ [];
    status_cluster = [];
    status_service = [];
  });
  helm_client = λ log namespace. ok tt;
  helm_get_chart = λ log name. ok true;
  helm_add_repo = λ log name url. ok tt;
  helm_get_release = λ log name. ok none;
  helm_get_values = λ log name. ok "";
  same_values = λ a b. ok true;
  helm_upgrade = λ log spec. ok tt;
  helm_install = λ log spec. ok tt;
  helm_uninstall = λ log spec. ok tt;
  mark_control_plane = λ log namespace name version. ok tt;
}

abbrev pub object : String → String → Object
object kind name = record {
  kind = kind;
  namespace = "machines";
  name = name;
  labels = ("team", "blue") ∷ (managed_by_label, "someone") ∷ [];
  annotations = [];
  payload = Payload.empty;
}

abbrev pub part : String → String → Subcomponent
part kind name = record { name = name; object = object kind name; mutate_fn = none }

abbrev pub component : Component
component = record {
  instance_name = "first";
  name = "EnableAutoscaler";
  subcomponents = part "Namespace" "machines" ∷ part "Cluster" "ocp" ∷ part "OCICluster" "ocp" ∷ [];
}

abbrev pub config : Config
config = record {
  compartment_id = "compartment";
  network = record {
    vcn_id = "vcn";
    ocp_subnet_id = "subnet";
    ocp_subnet_name = "private";
    compute_nsg_name = "compute";
    network_security_group_id = "nsg";
    control_plane_endpoint = "10.0.0.1";
    api_server_load_balancer_id = "lb";
    cluster_network_cidr_block = "";
    service_network_cidr_block = "";
    bare_metal_subnet_id = "";
    bare_metal_subnet_name = "";
  };
  autoscaling = record {
    cpus = pos 2;
    memory = pos 16;
    min_nodes = pos 0;
    max_nodes = pos 5;
    shape = "VM.Standard.E4.Flex";
    image_id = "image";
    defined_tags_namespace = "";
    enable_rdma = false;
    rdma_compute_cluster_id = "";
    rdma_failure_domain = "";
  };
}

abbrev pub run_of : Autoscaler → Run
run_of a = record { instance = a; log = [] }
