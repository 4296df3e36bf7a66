-- ===== src/Crds/Created.antt =====
-- The definitions that a log has asked to create, and that nothing of an `init` takes one away.
use oci_openshift_autoscalin.Base.{
  String, true, List, [], ◌∷◌, ◌++◌, ◌||◌, ◌≡◌, refl, ap, arith, Result, ok, err, Check, Bool-cases,
  inl, inr,
}
use oci_openshift_autoscalin.Clusterctl.{Manifest, has, is_crd, seen_crds}
use oci_openshift_autoscalin.Crds.{
  Call, Log, Cluster, ask, after_create, patch_existing, apply_provider_crd, apply_each, crds_of,
  set_provider_crd_webhook_namespace,
}
use oci_openshift_autoscalin.Exec.Preserves.{Preserves, bind-Preserves, preserves_rules}

unfoldable pub names : List Manifest → List String
names [] = []
names (m ∷ ms) = m.name ∷ names ms

-- the names of the definitions that a log has asked to create
unfoldable pub created : Log → List String
created [] = []
created (Call.create m ∷ log) = m.name ∷ created log
created (_ ∷ log) = created log

pub has-append :
    (key : String) (xs ys : List String) → has key (xs ++ ys) ≡ (has key xs || has key ys)
unfolding has
has-append key [] ys = refl
has-append key (x ∷ xs) ys = ground (arith, has-append key xs ys)

pub created-append : (log more : Log) → created (log ++ more) ≡ created log ++ created more
unfolding created
created-append [] more = refl
created-append (Call.create m ∷ log) more = ap (λ r. m.name ∷ r) (created-append log more)
created-append (Call.get name ∷ log) more = created-append log more
created-append (Call.patch a b ∷ log) more = created-append log more

pub names-append : (xs ys : List Manifest) → names (xs ++ ys) ≡ names xs ++ names ys
unfolding names
names-append [] ys = refl
names-append (x ∷ xs) ys = ap (λ r. x.name ∷ r) (names-append xs ys)

pub names-crds_of : (objs : List Manifest) → names (crds_of objs) ≡ seen_crds objs
unfolding names crds_of seen_crds
names-crds_of [] = refl
names-crds_of (o ∷ objs) = elim (Bool-cases (is_crd o)) [
  | inl e ↦ rw e (ap (λ r. o.name ∷ r) (names-crds_of objs))
  | inr e ↦ rw e (names-crds_of objs)
]

pub names-set_provider_crd_webhook_namespace :
    (namespace : String) (crds : List Manifest)
    → names (set_provider_crd_webhook_namespace namespace crds) ≡ names crds
unfolding names set_provider_crd_webhook_namespace
names-set_provider_crd_webhook_namespace namespace [] = refl
names-set_provider_crd_webhook_namespace namespace (crd ∷ crds) =
    ap (λ r. crd.name ∷ r) (names-set_provider_crd_webhook_namespace namespace crds)

abbrev pub IsCreated : String → Log → Type 0
IsCreated key log = has key (created log) ≡ true

module _ (key : String) where
  ask-Preserves :
      {A : Type 0} (call : Call) (answer : Log → Result A)
      → Preserves (IsCreated key) (ask call answer)
  unfolding ask
  ask-Preserves call answer = record {
    run = λ log h.
        rw (created-append log (call ∷ []), has-append key (created log) (created (call ∷ [])), h)
          refl;
  }

  patch_existing-Preserves :
      (c : Cluster) (d : Manifest) → Preserves (IsCreated key) (patch_existing c d)
  unfolding patch_existing
  patch_existing-Preserves c d = search (preserves_rules, ask-Preserves) depth 20

  pub after_create-Preserves :
      (c : Cluster) (d : Manifest) (r : Check) → Preserves (IsCreated key) (after_create c d r)
  after_create-Preserves c d (ok _) = search preserves_rules depth 20
  after_create-Preserves c d (err e) = search (preserves_rules, patch_existing-Preserves) depth 20

  pub apply_provider_crd-Preserves :
      (c : Cluster) (d : Manifest) → Preserves (IsCreated key) (apply_provider_crd c d)
  unfolding apply_provider_crd
  apply_provider_crd-Preserves c d =
      search (preserves_rules, ask-Preserves, after_create-Preserves) depth 20

  pub apply_each-Preserves :
      (c : Cluster) (ds : List Manifest) → Preserves (IsCreated key) (apply_each c ds)
  unfolding apply_each
  apply_each-Preserves c [] = search preserves_rules depth 20
  apply_each-Preserves c (d ∷ ds) =
      bind-Preserves (apply_provider_crd c d) (λ _. apply_each c ds)
        (apply_provider_crd-Preserves c d) (λ _. apply_each-Preserves c ds)
