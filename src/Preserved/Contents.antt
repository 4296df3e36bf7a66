-- ===== src/Preserved/Contents.antt =====
-- What preserving the content of an object does the second time.
use oci_openshift_autoscalin.Base.{
  Bool, Option, none, some, List, [], ◌≡◌, refl, ap, arith, is_empty,
}
use mathlib.Core.Path.{subst}
use oci_openshift_autoscalin.Base.Text.{is_nil}
use oci_openshift_autoscalin.Preserved.{
  is_zero, service, webhooks, deployment, other, ServiceSpec, ServicePort, Webhook, Content,
  preserve_if_desired_empty, preserve_service_node_ports, preserve_service_allocated_fields,
  preserve_webhook_ca_bundles, preserve_content, with_node_ports, with_ca_bundles,
}
use oci_openshift_autoscalin.Preserved.Ports
use oci_openshift_autoscalin.Preserved.Webhooks

abbrev HasKeysIn : {A : Type 0} → (List A → Type 0) → Option (List A) → Type 0
HasKeysIn P none = Unit
HasKeysIn P (some xs) = P xs

-- The ports of a Service, or the webhooks of a configuration, are told apart by their keys.
abbrev pub HasKeys : Content → Type 0
HasKeys (service s) = HasKeysIn Ports.IsDistinct s.ports
HasKeys (webhooks ws others) = HasKeysIn Webhooks.IsDistinct ws
HasKeys _ = Unit

preserve_again :
    {A : Type 0} (is_empty : A → Bool) (d c : Option A)
    → preserve_if_desired_empty is_empty d (preserve_if_desired_empty is_empty d c)
      ≡ preserve_if_desired_empty is_empty d c
unfolding preserve_if_desired_empty
preserve_again is_empty none none = refl
preserve_again is_empty (some d) none = ground arith
preserve_again is_empty none (some c) = ground arith
preserve_again is_empty (some d) (some c) = ground arith

node_ports_again :
    (d c : Option (List ServicePort))
    → HasKeysIn Ports.IsDistinct d
    → preserve_service_node_ports d (preserve_service_node_ports d c)
      ≡ preserve_service_node_ports d c
unfolding preserve_service_node_ports
node_ports_again none c h = refl
node_ports_again (some ds) none h =
    let again = Ports.with_node_ports-IsDistinct [] ds h in
    ap (λ ps. some ps)
      (subst (λ ps. with_node_ports ps ds ≡ ps) (Ports.with_node_ports_nil ds) again)
node_ports_again (some ds) (some cs) h =
    ap (λ ps. some ps) (Ports.with_node_ports-IsDistinct cs ds h)

ca_bundles_again :
    (d c : Option (List Webhook))
    → HasKeysIn Webhooks.IsDistinct d
    → preserve_webhook_ca_bundles d (preserve_webhook_ca_bundles d c)
      ≡ preserve_webhook_ca_bundles d c
unfolding preserve_webhook_ca_bundles
ca_bundles_again none c h = refl
ca_bundles_again (some ds) none h =
    let again = Webhooks.with_ca_bundles-IsDistinct [] ds h in
    ap (λ ps. some ps)
      (subst (λ ps. with_ca_bundles ps ds ≡ ps) (Webhooks.with_ca_bundles_nil ds) again)
ca_bundles_again (some ds) (some cs) h =
    ap (λ ps. some ps) (Webhooks.with_ca_bundles-IsDistinct cs ds h)

service_again :
    (d c : ServiceSpec)
    → HasKeysIn Ports.IsDistinct d.ports
    → preserve_service_allocated_fields d (preserve_service_allocated_fields d c)
      ≡ preserve_service_allocated_fields d c
unfolding preserve_service_allocated_fields
service_again d c h =
    rw
      (
        preserve_again is_nil d.cluster_ip c.cluster_ip,
        preserve_again is_empty d.cluster_ips c.cluster_ips,
        preserve_again is_empty d.ip_families c.ip_families,
        preserve_again is_nil d.ip_family_policy c.ip_family_policy,
        preserve_again is_nil d.internal_traffic_policy c.internal_traffic_policy,
        preserve_again is_zero d.health_check_node_port c.health_check_node_port,
        node_ports_again d.ports c.ports h,
      )
      refl

node_ports_none : (d : Option (List ServicePort)) → preserve_service_node_ports d none ≡ d
unfolding preserve_service_node_ports
node_ports_none none = refl
node_ports_none (some ds) = refl

ca_bundles_none : (d : Option (List Webhook)) → preserve_webhook_ca_bundles d none ≡ d
unfolding preserve_webhook_ca_bundles
ca_bundles_none none = refl
ca_bundles_none (some ds) = refl

abbrev nothing : ServiceSpec
nothing = record {
  cluster_ip = none;
  cluster_ips = none;
  ip_families = none;
  ip_family_policy = none;
  internal_traffic_policy = none;
  health_check_node_port = none;
  ports = none;
  others = "";
}

service_nothing : (d : ServiceSpec) → preserve_service_allocated_fields d nothing ≡ d
unfolding preserve_service_allocated_fields preserve_if_desired_empty
service_nothing d = rw (node_ports_none d.ports) refl

service_itself :
    (d : ServiceSpec)
    → HasKeysIn Ports.IsDistinct d.ports
    → preserve_service_allocated_fields d d ≡ d
service_itself d h =
    subst (λ x. preserve_service_allocated_fields d x ≡ x) (service_nothing d)
      (service_again d nothing h)

ca_bundles_itself :
    (d : Option (List Webhook))
    → HasKeysIn Webhooks.IsDistinct d
    → preserve_webhook_ca_bundles d d ≡ d
ca_bundles_itself d h =
    subst (λ x. preserve_webhook_ca_bundles d x ≡ x) (ca_bundles_none d) (ca_bundles_again d none h)

pub content_again :
    (d c : Content) → HasKeys d → preserve_content d (preserve_content d c) ≡ preserve_content d c
unfolding preserve_content
content_again (service d) (service c) h = ap (λ s. Content.service s) (service_again d c h)
content_again (service d) (webhooks ws others) h = ap (λ s. Content.service s) (service_itself d h)
content_again (service d) (deployment s others) h = ap (λ s. Content.service s) (service_itself d h)
content_again (service d) (other others) h = ap (λ s. Content.service s) (service_itself d h)
content_again (webhooks d rest) (webhooks c others) h =
    ap (λ ws. Content.webhooks ws rest) (ca_bundles_again d c h)
content_again (webhooks d rest) (service c) h =
    ap (λ ws. Content.webhooks ws rest) (ca_bundles_itself d h)
content_again (webhooks d rest) (deployment s others) h =
    ap (λ ws. Content.webhooks ws rest) (ca_bundles_itself d h)
content_again (webhooks d rest) (other others) h =
    ap (λ ws. Content.webhooks ws rest) (ca_bundles_itself d h)
content_again (deployment s rest) c h = refl
content_again (other rest) c h = refl
