-- ===== src/Preserved.antt =====
-- What an update of a generated object preserves of the object that the cluster has:
-- `preserveServiceAllocatedFields` and `preserveWebhookInjectedCABundles` of
-- internal/controllers/ociclusterautoscaler_controller.go.
pub mod Ports
pub mod Webhooks
pub mod Contents
use oci_openshift_autoscalin.Base.{
  ℕ, zero, suc, eqb, String, Bool, true, false, Option, none, some, List, [], ◌∷◌, ◌++◌, ◌==◌, ◌&&◌,
  if◌then◌else◌, Result, ok, err, Check, is_not_found, is_empty,
}
use oci_openshift_autoscalin.Base.Dict.{Dict}
use oci_openshift_autoscalin.Base.Text.{is_nil}
use oci_openshift_autoscalin.Exec.{Exec, return, fail, catch, ◌>>=◌, ◌>>◌}

-- an entry of `spec.ports`
pub record ServicePort : Type 0 where
  pub name : Option String
  pub port : Option ℕ
  pub protocol : Option String
  pub node_port : Option ℕ
  pub others : String

pub record ServiceSpec : Type 0 where
  pub cluster_ip : Option String
  pub cluster_ips : Option (List String)
  pub ip_families : Option (List String)
  pub ip_family_policy : Option String
  pub internal_traffic_policy : Option String
  pub health_check_node_port : Option ℕ
  pub ports : Option (List ServicePort)
  pub others : String

pub record Webhook : Type 0 where
  pub name : Option String
  pub ca_bundle : Option String
  pub others : String

-- What the code reads of an object, by its group and kind: `v1` Services, the two webhook
-- configurations, Deployments of `apps` with `spec.strategy`, and all others.
pub data Content : Type 0 where
  service : ServiceSpec → Content
  webhooks : Option (List Webhook) → String → Content
  deployment : Option String → String → Content
  other : String → Content

-- `preserveNestedFieldIfDesiredEmpty`, with the test for an empty value of the field's type
unfoldable pub preserve_if_desired_empty :
    {A : Type 0} → (A → Bool) → Option A → Option A → Option A
preserve_if_desired_empty is_empty desired none = desired
preserve_if_desired_empty is_empty none (some c) = if is_empty c then none else some c
preserve_if_desired_empty is_empty (some d) (some c) =
    if is_empty c then some d else if is_empty d then some c else some d

abbrev pub is_zero : ℕ → Bool
is_zero zero = true
is_zero (suc n) = false

-- found and not empty
abbrev pub is_set : {A : Type 0} → (A → Bool) → Option A → Bool
is_set is_empty none = false
is_set is_empty (some x) = if is_empty x then false else true

abbrev pub same_option : {A : Type 0} → (A → A → Bool) → Option A → Option A → Bool
same_option same none none = true
same_option same (some a) (some b) = same a b
same_option same _ _ = false

abbrev pub protocol_or_tcp : Option String → String
protocol_or_tcp none = "TCP"
protocol_or_tcp (some s) = s

-- the comparisons of `servicePortIdentity`
unfoldable pub same_port : ServicePort → ServicePort → Bool
same_port d c =
    same_option (λ a b. a == b) d.name c.name
    && same_option eqb d.port c.port
    && protocol_or_tcp d.protocol == protocol_or_tcp c.protocol

unfoldable pub matching_service_port : ServicePort → List ServicePort → Option ServicePort
matching_service_port d [] = none
matching_service_port d (c ∷ cs) =
    let rest = matching_service_port d cs in if same_port d c then some c else rest

-- the node port of a port, from the one that matches it
unfoldable pub take_node_port : ServicePort → Option ServicePort → ServicePort
take_node_port d none = d
take_node_port d (some c) =
    if is_set is_zero d.node_port
    then d
    else if is_set is_zero c.node_port
    then record d { node_port = c.node_port }
    else d

-- the loop of `preserveServiceNodePorts`
unfoldable pub with_node_ports : List ServicePort → List ServicePort → List ServicePort
unfolding matching_service_port
with_node_ports current [] = []
with_node_ports current (d ∷ ds) =
    take_node_port d (matching_service_port d current) ∷ with_node_ports current ds

unfoldable pub preserve_service_node_ports :
    Option (List ServicePort) → Option (List ServicePort) → Option (List ServicePort)
preserve_service_node_ports (some ds) (some cs) = some (with_node_ports cs ds)
preserve_service_node_ports desired _ = desired

unfoldable pub preserve_service_allocated_fields : ServiceSpec → ServiceSpec → ServiceSpec
unfolding preserve_if_desired_empty preserve_service_node_ports
preserve_service_allocated_fields d c = record {
  cluster_ip = preserve_if_desired_empty is_nil d.cluster_ip c.cluster_ip;
  cluster_ips = preserve_if_desired_empty is_empty d.cluster_ips c.cluster_ips;
  ip_families = preserve_if_desired_empty is_empty d.ip_families c.ip_families;
  ip_family_policy = preserve_if_desired_empty is_nil d.ip_family_policy c.ip_family_policy;
  internal_traffic_policy =
      preserve_if_desired_empty is_nil d.internal_traffic_policy c.internal_traffic_policy;
  health_check_node_port =
      preserve_if_desired_empty is_zero d.health_check_node_port c.health_check_node_port;
  ports = preserve_service_node_ports d.ports c.ports;
  others = d.others;
}

-- whether `name` is that of the webhook, and not empty
unfoldable pub is_named : String → Webhook → Bool
is_named name w = elim w.name [ none ↦ false | some n ↦ if is_nil n then false else n == name ]

-- what `currentCABundles` has for a name: a later webhook overwrites an earlier one
unfoldable pub current_ca_bundle : String → List Webhook → Option String
unfolding is_named
current_ca_bundle name [] = none
current_ca_bundle name (w ∷ ws) =
    let rest = current_ca_bundle name ws in
    elim rest [
      | some b ↦ some b
      | none ↦ if is_named name w && is_set is_nil w.ca_bundle then w.ca_bundle else none
    ]

unfoldable pub take_ca_bundle : Webhook → Option String → Webhook
take_ca_bundle w none = w
take_ca_bundle w (some b) = if is_set is_nil w.ca_bundle then w else record w { ca_bundle = some b }

-- what it has for the name of a webhook; one without a name is passed over
unfoldable pub ca_bundle_for : Option String → List Webhook → Option String
unfolding current_ca_bundle
ca_bundle_for none current = none
ca_bundle_for (some n) current = if is_nil n then none else current_ca_bundle n current

-- the second loop of `preserveWebhookInjectedCABundles`
unfoldable pub with_ca_bundles : List Webhook → List Webhook → List Webhook
unfolding ca_bundle_for
with_ca_bundles current [] = []
with_ca_bundles current (w ∷ ws) =
    take_ca_bundle w (ca_bundle_for w.name current) ∷ with_ca_bundles current ws

unfoldable pub preserve_webhook_ca_bundles :
    Option (List Webhook) → Option (List Webhook) → Option (List Webhook)
preserve_webhook_ca_bundles (some ds) (some cs) = some (with_ca_bundles cs ds)
preserve_webhook_ca_bundles desired _ = desired

-- Both objects have the group and the kind of the desired one.
unfoldable pub preserve_content : Content → Content → Content
unfolding preserve_webhook_ca_bundles
preserve_content (service d) (service c) = Content.service (preserve_service_allocated_fields d c)
preserve_content (webhooks d others) (webhooks c _) =
    Content.webhooks (preserve_webhook_ca_bundles d c) others
preserve_content desired _ = desired
