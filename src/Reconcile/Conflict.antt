-- ===== src/Reconcile/Conflict.antt =====
-- What a resource removes while it is live, and where it does not own the shared objects.
use oci_openshift_autoscalin.Base.{
  ℕ, Bool, true, false, Option, none, some, Result, ok, err, Error, ◌≡◌, refl,
}
use oci_openshift_autoscalin.Api.{Autoscaler, NamespacedName}
use oci_openshift_autoscalin.Exec.{return, modify, proceed, ◌>>=◌}
use oci_openshift_autoscalin.Exec.Preserves.{
  return-Preserves, catch-Preserves, bind-Preserves, if-Preserves, preserves_rules,
}
use oci_openshift_autoscalin.Handler.{Reconciler, current, update}
use oci_openshift_autoscalin.Handler.Quiet.{
  change-Only, current-Only, set_condition-Only, ready_from_failed_stage-Only, update_status-Only,
}
use oci_openshift_autoscalin.Handler.Removes.{removes, removes-SparesStatus, RemovesNothing}
use oci_openshift_autoscalin.Reconcile.{
  skip_cleanup, remove_finalizer, give_up, when_held, finalize, block, add_finalizer, report_unless,
  after_stack, reconcile_owned, live_or_blocked, reconcile_live,
}
use oci_openshift_autoscalin.Run.{Run, Env, Call, Log}
use oci_openshift_autoscalin.Run.Calls.{
  calls, Only, ask-Only, modify-Only, calls-set_aggregate_ready_condition,
}
use oci_openshift_autoscalin.Singleton.{
  resolve_singleton_owner, singleton_owner, singleton_conflict, is_singleton_owner,
}
use oci_openshift_autoscalin.Stack.Live.{reconcile_stack-Only}
use oci_openshift_autoscalin.Status.{set_aggregate_ready_condition}

ruleset steps = (
  preserves_rules, change-Only, current-Only, set_condition-Only, ready_from_failed_stage-Only,
  update_status-Only, removes-SparesStatus,
)

module _ (before : Log) where
  singleton_owner-Only :
      (env : Env) (deleting : Bool) → RemovesNothing before (singleton_owner env deleting)
  unfolding singleton_owner resolve_singleton_owner
  singleton_owner-Only env deleting =
      bind-Preserves _ _
        (bind-Preserves _ _ (ask-Only removes before _ _ refl) (λ items. return-Preserves _))
        (λ owner. return-Preserves _)

  singleton_conflict-Only :
      (env : Env) (a : Autoscaler) → RemovesNothing before (singleton_conflict env a)
  unfolding singleton_conflict
  singleton_conflict-Only env a =
      bind-Preserves _ _ (singleton_owner-Only env false) (λ owner. return-Preserves _)

  is_singleton_owner-Only :
      (env : Env) (a : Autoscaler) → RemovesNothing before (is_singleton_owner env a)
  unfolding is_singleton_owner
  is_singleton_owner-Only env a =
      bind-Preserves _ _ (singleton_owner-Only env true) (λ owner. return-Preserves _)

  module _ (c : Reconciler) where
    update-Only : RemovesNothing before (update c)
    unfolding update
    update-Only = bind-Preserves _ _ (current-Only removes before) (λ a.
        bind-Preserves _ _ (ask-Only removes before (Call.update a) _ refl)
          (λ b. modify-Only removes before _ (λ r. refl)))

    block-Only : (owner : NamespacedName) → RemovesNothing before (block c owner)
    unfolding block
    block-Only owner = search steps depth 20

    add_finalizer-Only : RemovesNothing before (add_finalizer c)
    unfolding add_finalizer
    add_finalizer-Only = search (steps, update-Only) depth 20

    skip_cleanup-Only : RemovesNothing before (skip_cleanup c)
    unfolding skip_cleanup
    skip_cleanup-Only = search steps depth 20

    remove_finalizer-Only : RemovesNothing before (remove_finalizer c)
    unfolding remove_finalizer
    remove_finalizer-Only = search (steps, update-Only) depth 20

    give_up_denied-Only : RemovesNothing before (give_up c false)
    unfolding give_up
    give_up_denied-Only = search (steps, skip_cleanup-Only, remove_finalizer-Only) depth 20

    report_unless-Only : (e : Error) (b : Bool) → RemovesNothing before (report_unless c e b)
    report_unless-Only e true = search steps
    report_unless-Only e false = search steps

    aggregate-Only :
        RemovesNothing before (modify (set_aggregate_ready_condition c.kube c.recorder))
    aggregate-Only =
        modify-Only removes before _
          (calls-set_aggregate_ready_condition removes (λ t reason message. refl) c.kube c.recorder)

    after_stack-Only :
        (original : Autoscaler) (r : Result ℕ) → RemovesNothing before (after_stack c original r)
    after_stack-Only original (ok seconds) = search (steps, aggregate-Only) depth 20
    after_stack-Only original (err e) = search (steps, report_unless-Only) depth 20

    reconcile_owned-Only : RemovesNothing before (reconcile_owned c)
    unfolding reconcile_owned
    reconcile_owned-Only = bind-Preserves _ _ (current-Only removes before) (λ original.
        bind-Preserves _ _ (catch-Preserves _ (reconcile_stack-Only c before))
          (after_stack-Only original))

    live_or_blocked-Only :
        (a : Autoscaler) (conflict : Option NamespacedName)
        → RemovesNothing before (live_or_blocked c a conflict)
    live_or_blocked-Only a (some owner) = block-Only owner
    live_or_blocked-Only a none = search (if-Preserves, add_finalizer-Only, reconcile_owned-Only)

    reconcile_live-Only : RemovesNothing before (reconcile_live c)
    unfolding reconcile_live
    reconcile_live-Only = search (steps, singleton_conflict-Only, live_or_blocked-Only) depth 20

module _ (c : Reconciler) where
  -- A reconcile of a resource that is not being deleted deletes no object and uninstalls no Helm
  -- release, whatever the cluster and Helm answer and whether it ends with an error or not.
  pub removes-reconcile_live :
      (r : Run) → calls removes (reconcile_live c r).1.log ≡ calls removes r.log
  removes-reconcile_live r = (reconcile_live-Only (calls removes r.log) c).run r refl

  proceed-denied :
      (before : Log) (a : Result Bool) (s : Run)
      → a ≡ ok false
      → Only removes before s
      → Only removes before (proceed a (give_up c) s).1
  proceed-denied before (ok false) s e h = (give_up_denied-Only before c).run s h
  proceed-denied before (ok true) s e h = cc e
  proceed-denied before (err x) s e h = h

  when_held-denied :
      (held : Bool) (r : Run)
      → (is_singleton_owner c.env r.instance r).0 ≡ ok false
      → calls removes (when_held c held r.instance r).1.log ≡ calls removes r.log
  unfolding return ◌>>=◌
  when_held-denied false r e = refl
  when_held-denied true r e =
      proceed-denied (calls removes r.log) _ _ e
        ((is_singleton_owner-Only (calls removes r.log) c.env r.instance).run r refl)

  -- When a resource that does not own the shared objects is deleted, nothing of them is removed.
  pub removes-finalize_denied :
      (r : Run)
      → (is_singleton_owner c.env r.instance r).0 ≡ ok false
      → calls removes (finalize c r).1.log ≡ calls removes r.log
  unfolding finalize current ◌>>=◌
  removes-finalize_denied r e = when_held-denied _ r e
