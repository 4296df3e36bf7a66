-- ===== src/Components/Removal.antt =====
-- What removing and reconciling a component asks of the cluster.
use oci_openshift_autoscalin.Base.{
  Bool, true, false, List, [], ◌∷◌, ◌++◌, map, ◌≡◌, refl, ap, ◌∙◌, sym, arith, inl, inr,
  if◌then◌else◌, ok, err, Result, Check, Bool-cases, is_not_found,
}
use mathlib.Core.List.{append-nil, append_assoc}
use oci_openshift_autoscalin.Exec.{return, proceed, fail, lift, catch, ◌>>=◌}
use oci_openshift_autoscalin.Objects.{Object, Subcomponent, Component}
use oci_openshift_autoscalin.Run.{Run, Env, Call, Log, Action, ask}
use oci_openshift_autoscalin.Components.{
  is_namespace, go_on, failures, reconcile_each, reconcile_components, remove_each,
  remove_component,
}

abbrev pub attempts : Component → List Subcomponent → Log
attempts c subcomponents = map (λ s. Call.create_or_patch c.name s) subcomponents

-- the deletions of all subcomponents but namespaces, in order
unfoldable pub removals : List Subcomponent → Log
removals [] = []
removals (s ∷ rest) =
    let calls = removals rest in
    if is_namespace s.object then calls else Call.delete s.object ∷ calls

log-proceed :
    {A B : Type 0} (a : Result A) (f : A → Action B) (s : Run)
    → ((a : A) (s : Run) → (f a s).1.log ≡ s.log)
    → (proceed a f s).1.log ≡ s.log
log-proceed (ok a) f s h = h a s
log-proceed (err e) f s h = refl

log-bind :
    {A B : Type 0} (m : Action A) (f : A → Action B) (r : Run)
    → ((a : A) (s : Run) → (f a s).1.log ≡ s.log)
    → ((m >>= f) r).1.log ≡ (m r).1.log
unfolding ◌>>=◌
log-bind m f r h = log-proceed (m r).0 f (m r).1 h

log-lift : {A : Type 0} (a : Result A) (s : Run) → (lift a s).1.log ≡ s.log
unfolding lift
log-lift a s = refl

go_on-ok :
    (answer : Check) (rest : Action (Unit {0})) (r : Run)
    → (go_on answer rest r).0 ≡ ok tt
    → go_on answer rest r ≡ rest r
unfolding fail
go_on-ok (ok _) rest r h = refl
go_on-ok (err e) rest r h = elim (Bool-cases (is_not_found e)) [
  | inl n ↦ rw n
  | inr n ↦ ground (arith, n, h)
]

module _ (env : Env) where
  log-reconcile_each :
      (c : Component) (subcomponents : List Subcomponent) (r : Run)
      → (reconcile_each env c subcomponents r).1.log ≡ r.log ++ attempts c subcomponents
  unfolding reconcile_each ask return catch ◌>>=◌
  log-reconcile_each c [] r = sym (append-nil r.log)
  log-reconcile_each c (s ∷ rest) r =
      let asked : Run = record r { log = r.log ++ Call.create_or_patch c.name s ∷ [] } in
      log-bind (reconcile_each env c rest) _ asked (λ errors t. refl)
      ∙ log-reconcile_each c rest asked
      ∙ append_assoc r.log (Call.create_or_patch c.name s ∷ []) (attempts c rest)

  -- Reconciling a component asks for every subcomponent once, in order, whichever of the answers
  -- before are errors, and makes no other call.
  pub log-reconcile_components :
      (c : Component) (r : Run)
      → (reconcile_components env c r).1.log ≡ r.log ++ attempts c c.subcomponents
  unfolding reconcile_components ◌>>=◌
  log-reconcile_components c r =
      log-bind (reconcile_each env c c.subcomponents) (λ errors. lift (failures errors)) r
        (λ errors s. log-lift (failures errors) s)
      ∙ log-reconcile_each c c.subcomponents r

  remove_one :
      (skip : Bool) (o : Object) (rest : Action (Unit {0})) (more : Log) (r : Run)
      → ((s : Run) → (rest s).0 ≡ ok tt → (rest s).1.log ≡ s.log ++ more)
      → let m =
          if skip
          then rest
          else (catch (ask (Call.delete o) (λ log. env.delete log o)) >>= λ a. go_on a rest) in
        (m r).0 ≡ ok tt → (m r).1.log ≡ r.log ++ (if skip then more else Call.delete o ∷ more)
  unfolding ask catch ◌>>=◌
  remove_one true o rest more r ih h = ih r h
  remove_one false o rest more r ih h =
      let asked : Run = record r { log = r.log ++ Call.delete o ∷ [] } in
      let e = go_on-ok (env.delete r.log o) rest asked h in
      ap (λ x. x.1.log) e
      ∙ ih asked (sym (ap (λ x. x.0) e) ∙ h)
      ∙ append_assoc r.log (Call.delete o ∷ []) more

  remove_each-ok :
      (subcomponents : List Subcomponent) (r : Run)
      → (remove_each env subcomponents r).0 ≡ ok tt
      → (remove_each env subcomponents r).1.log ≡ r.log ++ removals subcomponents
  unfolding remove_each removals return
  remove_each-ok [] r h = sym (append-nil r.log)
  remove_each-ok (s ∷ rest) r h =
      remove_one (is_namespace s.object) s.object (remove_each env rest) (removals rest) r
        (remove_each-ok rest) h

  -- When removing a component ends without an error, it asked for the deletion of every
  -- subcomponent but the namespaces, each once and in order, and made no other call.
  pub log-remove_component :
      (c : Component) (r : Run)
      → (remove_component env c r).0 ≡ ok tt
      → (remove_component env c r).1.log ≡ r.log ++ removals c.subcomponents
  unfolding remove_component
  log-remove_component c r h = remove_each-ok c.subcomponents r h
