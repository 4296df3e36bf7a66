-- ===== src/Tests/Status.antt =====
-- The status and the owner of example resources.
use oci_openshift_autoscalin.Base.{
  some, String, true, false, List, [], ◌∷◌, ◌≡◌, refl, inl, inr, ◌↔◌, All, In, ok,
}
use oci_openshift_autoscalin.Api.{
  Autoscaler, Condition, condition_true, condition_policy_accepted, condition_providers_ready,
  condition_autoscaler_ready, condition_scaling_resources_ready,
}
use oci_openshift_autoscalin.Run.{Run}
use oci_openshift_autoscalin.Namespaces.{NamespaceConfig, with_defaults, validate_namespaces}
use oci_openshift_autoscalin.Namespaces.Defaults.{IsClean, namespaces, with_defaults-IsClean}
use oci_openshift_autoscalin.Namespaces.Validation.{IsLabel, validate_namespaces-ok}
use oci_openshift_autoscalin.Singleton.{
  select_singleton_owner, candidates, sort_candidates, insert_sorted, older, key,
}
use oci_openshift_autoscalin.Base.Text.Order.{text_ltb}
use oci_openshift_autoscalin.Singleton.Owner.{
  IsOwner, select_singleton_owner-IsOwner, select_singleton_owner-agrees,
}
use oci_openshift_autoscalin.Status.{
  set_ready_condition_from_failed_stage, find_condition, condition_is_true,
  set_autoscaler_condition, condition_changed, event_type_for_status, record_event, stages,
  first_false_condition, autoscaler_stack_ready, set_condition_and_record,
  set_aggregate_ready_condition,
}
use oci_openshift_autoscalin.Status.Ready.{
  Verdict, StagesHold, aggregate_ready, ready_phase-StagesHold,
}
use oci_openshift_autoscalin.Tests.Fixtures.{kube, kube-IsLawful, older_resource, younger_resource}

abbrev met : String → Condition
met type = record {
  type = type;
  status = condition_true;
  reason = "Done";
  message = "";
  observed_generation = 3;
}

abbrev met_all : List Condition
met_all =
    met condition_policy_accepted
    ∷ met condition_providers_ready
    ∷ met condition_autoscaler_ready
    ∷ met condition_scaling_resources_ready
    ∷ []

-- all four stages are true
abbrev pub finished : Run
finished = record {
  instance = record older_resource {
    status = record (older_resource.status) { conditions = met_all };
  };
  log = [];
}

aggregate_ready_example :
    Verdict kube kube-IsLawful true
      (set_aggregate_ready_condition kube true finished)
      (first_false_condition kube finished.instance stages)
      (autoscaler_stack_ready kube finished.instance)
aggregate_ready_example = aggregate_ready kube kube-IsLawful true finished

ready_phase_example : StagesHold kube kube-IsLawful true finished.instance
unfolding set_aggregate_ready_condition set_ready_condition_from_failed_stage first_false_condition
    autoscaler_stack_ready find_condition condition_is_true set_condition_and_record
    set_autoscaler_condition condition_changed event_type_for_status record_event
ready_phase_example = ready_phase-StagesHold kube kube-IsLawful true finished refl

abbrev listed : List Autoscaler
listed = younger_resource ∷ older_resource ∷ []

abbrev listed_again : List Autoscaler
listed_again = older_resource ∷ younger_resource ∷ []

selected_example : IsOwner listed false older_resource
unfolding select_singleton_owner candidates sort_candidates insert_sorted older text_ltb
selected_example = select_singleton_owner-IsOwner listed false older_resource refl

swap : (a b c : Autoscaler) → In c (a ∷ b ∷ []) → In c (b ∷ a ∷ [])
swap a b c (inl e) = inr (inl e)
swap a b c (inr (inl e)) = inl e
swap a b c (inr (inr i)) = elim i [ ]

same_listed : (c : Autoscaler) → In c listed ↔ In c listed_again
same_listed c = (swap younger_resource older_resource c, swap older_resource younger_resource c)

agrees_example :
    (a' : Autoscaler) × (select_singleton_owner listed_again false ≡ some a')
    × (key older_resource ≡ key a')
unfolding select_singleton_owner candidates sort_candidates insert_sorted older text_ltb
agrees_example =
    select_singleton_owner-agrees listed listed_again false older_resource same_listed refl

abbrev given : NamespaceConfig
given = record {
  operator = " ops ";
  capi_provider = "";
  capoci_provider = "";
  managed_resource = "machines";
  autoscaler = "";
  autoscaler_discovery = "";
}

trimmed_example : All IsClean (namespaces (with_defaults given))
trimmed_example = with_defaults-IsClean given

validated_example :
    (validate_namespaces kube given ≡ ok tt) ↔ All (IsLabel kube) (namespaces (with_defaults given))
validated_example = validate_namespaces-ok kube given
