-- ===== src/Clusterctl/Required.antt =====
-- What generated objects that were accepted contain.
use oci_openshift_autoscalin.Base.{
  String, ◌<>◌, true, List, [], ◌∷◌, ◌≡◌, arith, Result, ok, All, wrap_err,
}
use mathlib.Core.Path.{subst}
use oci_openshift_autoscalin.Base.Bind.{bind-ok}
use oci_openshift_autoscalin.Clusterctl.{
  Library, Manifest, Requirement, has, require_seen, seen_crds, seen_kinds, required_crds,
  required_kinds, provider_ref, validate_generated_provider_components, generate_capi_components,
}

-- each required key is among those that were seen
abbrev pub AllSeen : List String → List Requirement → Type 0
AllSeen seen required = All (λ r. has r.0 seen ≡ true) required

pub require_seen-AllSeen :
    (subject : String) (seen : List String) (required : List Requirement)
    → require_seen subject seen required ≡ ok tt
    → AllSeen seen required
unfolding require_seen
require_seen-AllSeen subject seen [] h = tt
require_seen-AllSeen subject seen ((key, description) ∷ rest) h =
    (ground (arith, h), require_seen-AllSeen subject seen rest (ground (arith, h)))

ok-list : (x y : List Manifest) → Result.ok x ≡ Result.ok y → x ≡ y
ok-list x y e = cc e

pub generate_capi_components-AllSeen :
    (l : Library) (provider type namespace version : String) (objs : List Manifest)
    → generate_capi_components l provider type namespace version ≡ ok objs
    → AllSeen (seen_crds objs) (required_crds provider type)
unfolding generate_capi_components validate_generated_provider_components
generate_capi_components-AllSeen l provider type namespace version objs h =
    let (ref, _, h1) = bind-ok (provider_ref l provider type version) _ objs h in
    let (_, _, h2) = bind-ok (wrap_err "error creating clusterctl client" l.new_client) _ objs h1 in
    let (found, _, h3) =
      bind-ok
        (wrap_err "error getting provider components"
          (l.get_provider_components ref type namespace))
        _ objs h2 in
    let (_, v, h4) =
      bind-ok (validate_generated_provider_components provider type namespace found) _ objs h3 in
    let subject = provider <> " " <> type in
    let (_, _, v1) =
      bind-ok
        (require_seen subject (seen_kinds namespace found) (required_kinds provider type namespace))
        _ tt v in
    subst (λ os. AllSeen (seen_crds os) (required_crds provider type)) (ok-list _ _ h4)
      (require_seen-AllSeen subject (seen_crds found) (required_crds provider type) v1)
