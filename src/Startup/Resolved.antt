-- ===== src/Startup/Resolved.antt =====
-- What the controllers get from a startup that succeeded.
use oci_openshift_autoscalin.Base.{
  Error, String, Bool, true, false, Option, some, Result, ok, err, ◌≡◌, refl, arith, reject_if,
  if◌then◌else◌, Bool-cases, inl, inr,
}
use mathlib.Core.Path.{subst}
use oci_openshift_autoscalin.Base.Bind.{◌>>=◌, bind-ok}
use oci_openshift_autoscalin.Base.Text.{is_nil, trim_space}
use oci_openshift_autoscalin.Base.Text.Trim.{trim_space-trim_space}
use oci_openshift_autoscalin.Clusterctl.{Library, validate_provider_version}
use oci_openshift_autoscalin.Credentials.{validate_credentials}
use oci_openshift_autoscalin.Kube.{Kube}
use oci_openshift_autoscalin.Namespaces.{with_defaults, validate_namespaces}
use oci_openshift_autoscalin.Startup.{
  CsrApprovalConfig, Options, Surroundings, machine_namespace_of, cluster_name_of,
  resolve_csr_approval_config, validate_options, resolve_options,
}

-- a name without space around it, and not empty
abbrev pub IsName : String → Type 0
IsName s = (trim_space s ≡ s) × (is_nil s ≡ false)

machine_namespace_of-IsName :
    (namespace default : String) → IsName (machine_namespace_of namespace default)
unfolding machine_namespace_of trim_space
machine_namespace_of-IsName namespace default = elim (Bool-cases (is_nil (trim_space namespace))) [
  | inr own ↦ rw (own, own) (trim_space-trim_space namespace, refl)
  | inl empty ↦ elim (Bool-cases (is_nil (trim_space default))) [
    | inr fallback ↦ rw (empty, fallback, fallback) (trim_space-trim_space default, refl)
    | inl nothing ↦ rw (empty, nothing) (refl, refl)
  ]
]

trimmed : (s name : String) → Result.ok (trim_space s) ≡ ok name → trim_space name ≡ name
trimmed s name h =
    let same : trim_space s ≡ name = cc h in
    subst (λ x. trim_space x ≡ x) same (trim_space-trim_space s)

accepted : (b : Bool) (e : Error) → reject_if b e ≡ ok tt → b ≡ false
accepted b e h = ground (arith, h)

trimmed_answer :
    (r : Result String) (name : String)
    → (do n ← r; ok (trim_space n)) ≡ ok name
    → trim_space name ≡ name
trimmed_answer (ok n) name h =
    let same : trim_space n ≡ name = cc h in
    subst (λ x. trim_space x ≡ x) same (trim_space-trim_space n)
trimmed_answer (err e) name h = cc h

-- of the two names that are given and the one that is discovered
trimmed_choice :
    (a b : Bool) (own fallback name : String) (r : Result String)
    → (if a
        then if b then (do n ← r; ok (trim_space n)) else ok (trim_space fallback)
        else ok (trim_space own))
      ≡ ok name
    → trim_space name ≡ name
trimmed_choice false b own fallback name r h = trimmed own name h
trimmed_choice true false own fallback name r h = trimmed fallback name h
trimmed_choice true true own fallback name r h = trimmed_answer r name h

cluster_name_of_trimmed :
    (s : Surroundings) (configured name : String)
    → cluster_name_of s configured ≡ ok name
    → trim_space name ≡ name
unfolding cluster_name_of
cluster_name_of_trimmed s configured name h =
    trimmed_choice (is_nil (trim_space configured)) (is_nil (trim_space s.cluster_name)) configured
      s.cluster_name name _ h

resolve_csr_approval_config-IsName :
    (s : Surroundings) (config resolved : CsrApprovalConfig) (default : String)
    → resolve_csr_approval_config s config default ≡ ok resolved
    → IsName resolved.machine_namespace × IsName resolved.cluster_name
unfolding resolve_csr_approval_config
resolve_csr_approval_config-IsName s config resolved default h =
    let (name, named, rest) = bind-ok (cluster_name_of s config.cluster_name) _ resolved h in
    let (_, given, done) = bind-ok (reject_if (is_nil name) _) _ resolved rest in
    let same : record {
      machine_namespace = machine_namespace_of config.machine_namespace default;
      cluster_name = name;
    }
        ≡ resolved =
      cc done in
    subst (λ (c : CsrApprovalConfig). IsName c.machine_namespace × IsName c.cluster_name) same
      (
        machine_namespace_of-IsName config.machine_namespace default,
        (cluster_name_of_trimmed s config.cluster_name name named, accepted (is_nil name) _ given),
      )

validate_options-ok :
    (k : Kube) (l : Library) (parse_bool : String → Option Bool) (options : Options)
    → validate_options k l parse_bool options ≡ ok tt
    → (validate_credentials parse_bool k.quote (some options.credentials) ≡ ok tt)
      × (validate_namespaces k options.namespaces ≡ ok tt)
unfolding validate_options
validate_options-ok k l parse_bool options h =
    let (_, credentials, rest) =
      bind-ok (validate_credentials parse_bool k.quote (some options.credentials)) _ tt h in
    let (_, namespaces, _) = bind-ok (validate_namespaces k options.namespaces) _ tt rest in
    (credentials, namespaces)

-- A startup that succeeds gives the certificate controller a namespace and a name of the cluster
-- that are not empty and have no space around them, and the controllers credentials and namespaces
-- that pass their checks. The provider versions that it was given pass theirs.
pub resolve_options-IsName :
    (k : Kube) (l : Library) (parse_bool : String → Option Bool) (s : Surroundings)
    (options resolved : Options)
    → resolve_options k l parse_bool s options ≡ ok resolved
    → IsName resolved.csr_approval.machine_namespace
      × IsName resolved.csr_approval.cluster_name
      × (validate_credentials parse_bool k.quote (some resolved.credentials) ≡ ok tt)
      × (validate_namespaces k resolved.namespaces ≡ ok tt)
      × (validate_provider_version l options.provider.capi_version ≡ ok tt)
      × (validate_provider_version l options.capoci_provider.version ≡ ok tt)
unfolding resolve_options
resolve_options-IsName k l parse_bool s options resolved h =
    let namespaces = with_defaults options.namespaces in
    let (csr, named, rest) =
      bind-ok (resolve_csr_approval_config s options.csr_approval namespaces.managed_resource) _
        resolved h in
    let made : Options = record options { namespaces = namespaces; csr_approval = csr } in
    let (_, valid, versions) = bind-ok (validate_options k l parse_bool made) _ resolved rest in
    let (_, capi, later) =
      bind-ok (validate_provider_version l options.provider.capi_version) _ resolved versions in
    let (_, capoci, done) =
      bind-ok (validate_provider_version l options.capoci_provider.version) _ resolved later in
    let same : made ≡ resolved = cc done in
    let (machine, cluster) =
      resolve_csr_approval_config-IsName s options.csr_approval csr namespaces.managed_resource
        named in
    let (credentials, names) = validate_options-ok k l parse_bool made valid in
    subst
      (λ (o : Options).
        IsName o.csr_approval.machine_namespace
        × IsName o.csr_approval.cluster_name
        × (validate_credentials parse_bool k.quote (some o.credentials) ≡ ok tt)
        × (validate_namespaces k o.namespaces ≡ ok tt)
        × (validate_provider_version l options.provider.capi_version ≡ ok tt)
        × (validate_provider_version l options.capoci_provider.version ≡ ok tt))
      same (machine, cluster, credentials, names, capi, capoci)
