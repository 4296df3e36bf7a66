-- ===== src/Generated/Settled.antt =====
-- A second pass over the objects that clusterctl generates.
use oci_openshift_autoscalin.Base.{true, List, [], ◌∷◌, ◌++◌, ◌≡◌, refl, sym, ap, All, ok}
use mathlib.Core.List.{append-nil, append_assoc}
use oci_openshift_autoscalin.Exec.{return, catch, ◌>>=◌}
use oci_openshift_autoscalin.Generated.{
  Unstructured, Held, Cluster, Call, Log, prepare_clusterctl_object_for_update,
  set_deployment_rollout_defaults, ask, on_current, reconcile_clusterctl_components,
}
use oci_openshift_autoscalin.Preserved.Contents.{HasKeys, content_again}

-- an object as a pass writes it over `before`, with the fields that belong to the cluster as the
-- cluster has them since
abbrev pub kept : Unstructured → Unstructured → Held → Unstructured
kept desired before held = record (prepare_clusterctl_object_for_update desired before) {
  held = held;
}

prepare_kept :
    (desired before : Unstructured) (held : Held)
    → HasKeys desired.content
    → prepare_clusterctl_object_for_update desired (kept desired before held)
      ≡ kept desired before held
unfolding prepare_clusterctl_object_for_update
prepare_kept desired before held h =
    ap (λ x. record desired { held = held; content = x })
      (content_again desired.content before.content h)

unfoldable pub reads : List Unstructured → Log
reads [] = []
reads (o ∷ objs) = Call.get (set_deployment_rollout_defaults o) ∷ reads objs

module _ (before : Unstructured → Unstructured) (held : Log → Unstructured → Held) where
  abbrev pub stored : Log → Unstructured → Unstructured
  stored log desired = kept desired (before desired) (held log desired)

  -- The cluster answers with what a pass wrote.
  abbrev pub Holds : Cluster → Unstructured → Type 0
  Holds c o =
      HasKeys (set_deployment_rollout_defaults o).content
      × ((log : Log)
          → c.get log (set_deployment_rollout_defaults o)
            ≡ ok (stored log (set_deployment_rollout_defaults o)))

  on_current-stored :
      (c : Cluster) (desired : Unstructured) (answered log : Log)
      → ((x : Unstructured) → c.deep_equal x x ≡ true)
      → HasKeys desired.content
      → on_current c desired (ok (stored answered desired)) log ≡ (ok tt, log)
  unfolding on_current return
  on_current-stored c desired answered log same h =
      rw
        (
          prepare_kept desired (before desired) (held answered desired) h,
          same (stored answered desired),
        )
        refl

-- A pass over objects that the cluster holds as a pass has written them over any objects before
-- ends without an error and asks for nothing but to read them, whatever the cluster has since put
-- in the fields that an update takes over from it: the resource version, the UID, the creation
-- time, the generation, the managed fields, the finalizers and the status. The labels, the
-- annotations and the rest are as the pass wrote them. The ports of each desired Service and the
-- webhooks of each desired configuration have different keys, and `DeepEqual` holds of an object
-- and itself.
pub reconcile_clusterctl_components-reads :
    (c : Cluster) (before : Unstructured → Unstructured) (held : Log → Unstructured → Held)
    (objs : List Unstructured) (log : Log)
    → ((x : Unstructured) → c.deep_equal x x ≡ true)
    → All (Holds before held c) objs
    → reconcile_clusterctl_components c objs log ≡ (ok tt, log ++ reads objs)
unfolding reconcile_clusterctl_components reads return catch ask ◌>>=◌
reconcile_clusterctl_components-reads c before held [] log same h =
    ap (λ l. (ok tt, l)) (sym (append-nil log))
reconcile_clusterctl_components-reads c before held (o ∷ objs) log same ((keys, holds), h) =
    let d = set_deployment_rollout_defaults o in
    let read = log ++ Call.get d ∷ [] in
    rw
      (
        holds log,
        on_current-stored before held c d log read same keys,
        reconcile_clusterctl_components-reads c before held objs read same h,
        append_assoc log (Call.get d ∷ []) (reads objs),
      )
      refl
