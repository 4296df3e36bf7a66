-- ===== src/Components.antt =====
-- Reconciling and removing the subcomponents of a component (`reconcileComponents` and
-- `removeComponent` of internal/controllers/ociclusterautoscaler_controller.go).
pub mod Mutation
pub mod Stable
pub mod Removal
use oci_openshift_autoscalin.Base.{
  String, ◌<>◌, Bool, true, false, Option, none, some, List, [], ◌∷◌, map, ◌==◌, if◌then◌else◌,
  Result, ok, err, Check, Error, errorf, is_not_found, is_empty,
}
use oci_openshift_autoscalin.Base.Text.{is_nil, joined}
use oci_openshift_autoscalin.Exec.{return, fail, lift, catch, ◌>>=◌}
use oci_openshift_autoscalin.Labels.{set_component_labels}
use oci_openshift_autoscalin.Objects.{Object, Subcomponent, Component}
use oci_openshift_autoscalin.Run.{Env, Call, Action, ask}

abbrev pub apply : Option (Object → Result Object) → Object → Result Object
apply none o = ok o
apply (some f) o = f o

abbrev pub label : Component → Subcomponent → Result Object → Result Object
label c s (err e) = err e
label c s (ok o) =
    if is_nil c.instance_name
    then err (errorf ("component " <> c.name <> "/" <> s.name <> " has no instance metadata"))
    else ok (record o { labels = set_component_labels c.instance_name c.name s.name o.labels })

-- the `mutateFn` of `reconcileComponents`
unfoldable pub mutation : Component → Subcomponent → Object → Result Object
mutation c s o = label c s (apply s.mutate_fn o)

abbrev pub is_namespace : Object → Bool
is_namespace o = o.kind == "Namespace"

abbrev add_error : Result String → List Error → List Error
add_error (ok op) errors = errors
add_error (err e) errors = e ∷ errors

abbrev pub failures : List Error → Check
failures errors =
    if is_empty errors
    then ok tt
    else err (
        errorf
          ("failed to reconcile components: [" <> joined " " (map (λ e. e.message) errors) <> "]"))

abbrev pub go_on : Check → Action (Unit {0}) → Action (Unit {0})
go_on (ok _) rest = rest
go_on (err e) rest = if is_not_found e then rest else fail e

module _ (env : Env) where
  -- the loop; it goes on after an error and collects them
  unfoldable pub reconcile_each : Component → List Subcomponent → Action (List Error)
  unfolding mutation
  reconcile_each c [] = return []
  reconcile_each c (s ∷ rest) = do
    r ← catch (
        ask (Call.create_or_patch c.name s)
          (λ log. env.create_or_patch log s.object (mutation c s)))
    errors ← reconcile_each c rest
    return (add_error r errors)

  unfoldable pub reconcile_components : Component → Action (Unit {0})
  reconcile_components c = do errors ← reconcile_each c c.subcomponents; lift (failures errors)

  -- the loop; it stops at the first error but NotFound
  unfoldable pub remove_each : List Subcomponent → Action (Unit {0})
  remove_each [] = return tt
  remove_each (s ∷ more) =
      let rest = remove_each more in
      if is_namespace s.object then rest else (do
        r ← catch (ask (Call.delete s.object) (λ log. env.delete log s.object))
        go_on r rest)

  unfoldable pub remove_component : Component → Action (Unit {0})
  remove_component c = remove_each c.subcomponents
