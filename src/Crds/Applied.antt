-- ===== src/Crds/Applied.antt =====
-- Which definitions an `init` that succeeded has applied.
use oci_openshift_autoscalin.Base.{
  String, true, List, [], ◌∷◌, ◌++◌, ◌||◌, ◌==◌, ◌≡◌, refl, sym, ap, ◌∙◌, arith, eq_iff, eq_refl,
  Result, ok, err, All, All-map, wrap_err, Bool-cases, inl, inr,
}
use mathlib.Core.Path.{subst}
use oci_openshift_autoscalin.Clusterctl.{
  Library, Manifest, has, required_crds, generate_capi_components, core_provider_name,
  core_provider_type, infrastructure_oci_provider_name, infrastructure_provider_type,
  validate_provider_version,
}
use oci_openshift_autoscalin.Clusterctl.Required.{AllSeen, generate_capi_components-AllSeen}
use oci_openshift_autoscalin.Crds.{
  Call, Log, Cluster, ProviderConfig, ask, after_create, apply_provider_crd, apply_each, run_init,
  crds_of, map_result, get_clusterctl_crds, set_provider_crd_webhook_namespace,
}
use oci_openshift_autoscalin.Exec.{catch}
use oci_openshift_autoscalin.Exec.Preserves.{bind-after}
use oci_openshift_autoscalin.Exec.Stops.{bind-ok, bind-runs, lift-runs}
use oci_openshift_autoscalin.Kube.{Kube}
use oci_openshift_autoscalin.Namespaces.{NamespaceConfig, with_defaults, validate_namespaces}
use oci_openshift_autoscalin.Crds.Created.{
  names, created, has-append, created-append, names-append, names-crds_of,
  names-set_provider_crd_webhook_namespace, IsCreated, after_create-Preserves, apply_each-Preserves,
}

apply_provider_crd-IsCreated :
    (c : Cluster) (d : Manifest) (log : Log) → IsCreated d.name (apply_provider_crd c d log).1
unfolding apply_provider_crd ask catch has created
apply_provider_crd-IsCreated c d log =
    bind-after (catch (ask (Call.create d) (λ l. c.create l d))) (after_create c d) log
      (rw
        (
          created-append log (Call.create d ∷ []),
          has-append d.name (created log) (d.name ∷ []),
          eq_refl d.name,
        )
        (ground arith))
      (after_create-Preserves d.name c d)

apply_each-IsCreated :
    (c : Cluster) (ds : List Manifest) (log : Log) (key : String)
    → (apply_each c ds log).0 ≡ ok tt
    → has key (names ds) ≡ true
    → IsCreated key (apply_each c ds log).1
unfolding apply_each has names
apply_each-IsCreated c [] log key h i = cc i
apply_each-IsCreated c (d ∷ ds) log key h i =
    let (a, e, rest) = bind-ok (apply_provider_crd c d) (λ _. apply_each c ds) log tt h in
    let runs = bind-runs (apply_provider_crd c d) (λ _. apply_each c ds) log a e in
    elim (Bool-cases (d.name == key)) [
      | inl same ↦
          bind-after (apply_provider_crd c d) (λ _. apply_each c ds) log
            (subst (λ k. IsCreated k (apply_provider_crd c d log).1) ((eq_iff d.name key).0 same)
              (apply_provider_crd-IsCreated c d log))
            (λ _. apply_each-Preserves key c ds)
      | inr other ↦
          subst (λ x. IsCreated key x.1) (sym runs)
            (apply_each-IsCreated c ds (apply_provider_crd c d log).1 key rest
              (ground (arith, i, other)))
    ]

get_clusterctl_crds-AllSeen :
    (l : Library) (provider type version : String) (r : Result (List Manifest))
    (crds : List Manifest)
    → generate_capi_components l provider type "" version ≡ r
    → map_result crds_of (wrap_err "error generating CAPI components" r) ≡ ok crds
    → AllSeen (names crds) (required_crds provider type)
get_clusterctl_crds-AllSeen l provider type version (err e) crds g h = cc h
get_clusterctl_crds-AllSeen l provider type version (ok objs) crds g h =
    let seen = generate_capi_components-AllSeen l provider type "" version objs g in
    let same : crds_of objs ≡ crds = cc h in
    subst (λ ks. AllSeen ks (required_crds provider type))
      (sym (names-crds_of objs) ∙ ap (λ x. names x) same) seen

has-either :
    (key : String) (xs ys : List String)
    → (has key xs || has key ys) ≡ true
    → has key (xs ++ ys) ≡ true
has-either key xs ys h = has-append key xs ys ∙ h

module _ (k : Kube) (l : Library) (providers : ProviderConfig) (namespaces : NamespaceConfig) where
  abbrev definitions : List Manifest → List Manifest → List Manifest
  definitions core infrastructure =
      set_provider_crd_webhook_namespace (with_defaults namespaces).capi_provider core
      ++ set_provider_crd_webhook_namespace (with_defaults namespaces).capoci_provider
          infrastructure

  names-definitions :
      (core infrastructure : List Manifest)
      → names (definitions core infrastructure) ≡ names core ++ names infrastructure
  names-definitions core infrastructure =
      let ns = with_defaults namespaces in
      names-append (set_provider_crd_webhook_namespace ns.capi_provider core) _
      ∙ rw
          (
            names-set_provider_crd_webhook_namespace ns.capi_provider core,
            names-set_provider_crd_webhook_namespace ns.capoci_provider infrastructure,
          )
          refl

  run_init-steps :
      (c : Cluster) (log : Log)
      → (run_init c k l providers namespaces log).0 ≡ ok tt
      → (core : List Manifest) × (infrastructure : List Manifest) × (get_clusterctl_crds l
            core_provider_name core_provider_type providers.capi_version
          ≡ ok core)
        × (get_clusterctl_crds l infrastructure_oci_provider_name infrastructure_provider_type
              providers.capoci_version
            ≡ ok infrastructure)
        × ((apply_each c (definitions core infrastructure) log).0 ≡ ok tt)
        × (run_init c k l providers namespaces log
            ≡ apply_each c (definitions core infrastructure) log)
  unfolding run_init
  run_init-steps c log h =
      let (_, _, h1, e1) =
        lift-runs (validate_namespaces k (with_defaults namespaces)) _ log tt h in
      let (_, _, h2, e2) =
        lift-runs (validate_provider_version l providers.capi_version) _ log tt h1 in
      let (core, p, h3, e3) =
        lift-runs
          (get_clusterctl_crds l core_provider_name core_provider_type providers.capi_version) _ log
          tt h2 in
      let (_, _, h4, e4) =
        lift-runs (validate_provider_version l providers.capoci_version) _ log tt h3 in
      let (infrastructure, q, h5, e5) =
        lift-runs
          (get_clusterctl_crds l infrastructure_oci_provider_name infrastructure_provider_type
            providers.capoci_version)
          _ log tt h4 in
      (core, infrastructure, p, q, h5, e1 ∙ e2 ∙ e3 ∙ e4 ∙ e5)

-- An `init` that succeeded has asked for the creation of every definition that the two providers
-- require: the Cluster and the MachineDeployment of the Cluster API, the OCICluster and the
-- OCIMachineTemplate of the OCI provider.
pub run_init-IsCreated :
    (c : Cluster) (k : Kube) (l : Library) (providers : ProviderConfig)
    (namespaces : NamespaceConfig) (log : Log)
    → (run_init c k l providers namespaces log).0 ≡ ok tt
    → All
        (λ r. IsCreated r.0 (run_init c k l providers namespaces log).1)
        (required_crds core_provider_name core_provider_type)
      × All
          (λ r. IsCreated r.0 (run_init c k l providers namespaces log).1)
          (required_crds infrastructure_oci_provider_name infrastructure_provider_type)
unfolding get_clusterctl_crds
run_init-IsCreated c k l providers namespaces log h =
    let (core, infrastructure, p, q, done, same) =
      run_init-steps k l providers namespaces c log h in
    let all = definitions k l providers namespaces core infrastructure in
    let made =
      λ (key : String) (i : (has key (names core) || has key (names infrastructure)) ≡ true).
        subst (λ x. IsCreated key x.1) (sym same)
          (apply_each-IsCreated c all log key done (
            subst (λ ns. has key ns ≡ true)
              (sym (names-definitions k l providers namespaces core infrastructure))
              (has-either key (names core) (names infrastructure) i))) in
    (
      All-map _ _ (required_crds core_provider_name core_provider_type)
          (λ r s. made r.0 (ground (arith, s)))
          (get_clusterctl_crds-AllSeen l core_provider_name core_provider_type
            providers.capi_version _ core refl p),
      All-map _ _ (required_crds infrastructure_oci_provider_name infrastructure_provider_type)
          (λ r s. made r.0 (ground (arith, s)))
          (get_clusterctl_crds-AllSeen l infrastructure_oci_provider_name
            infrastructure_provider_type providers.capoci_version _ infrastructure refl q),
    )
