-- ===== src/Providers/Settled.antt =====
-- The objects of the provider components settle after one mutation.
use oci_openshift_autoscalin.Base.{String, Bool, Option, ok, refl, ◌≡◌}
use oci_openshift_autoscalin.Api.{Autoscaler}
use oci_openshift_autoscalin.Credentials.{Credentials}
use oci_openshift_autoscalin.Helm.{DeploymentValues}
use oci_openshift_autoscalin.Labels.{set_default_labels}
use oci_openshift_autoscalin.Objects.{Payload, Component, Subcomponent}
use oci_openshift_autoscalin.Components.Stable.{IsStable, IsSettled}
use oci_openshift_autoscalin.Scaling.Parts.{labelled}
use oci_openshift_autoscalin.Scaling.Rendered.{rendered, as_they_are}
use oci_openshift_autoscalin.Scaling.Repeated.{
  rendered-IsStable, set_default_labels-IsNeutral, as_they_are-IsIdempotent,
}
use oci_openshift_autoscalin.Providers.{
  capi_components, capoci_components, rbac_components, security_context_constraints,
  auth_config_secret, cluster_role, cluster_role_binding,
}

-- a subcomponent of the operator with a payload that does not depend on the object
fixed-IsStable :
    (c : Component) (s : Subcomponent) (p : Payload)
    → s.mutate_fn ≡ Option.some (rendered (set_default_labels c.instance_name) as_they_are (ok p))
    → IsStable c s
fixed-IsStable c s p e =
    rendered-IsStable c s (set_default_labels c.instance_name) as_they_are (λ q. ok p) e
      (set_default_labels-IsNeutral c.instance_name c.name s.name) as_they_are-IsIdempotent
      (λ q r h. h)

labelled-IsStable :
    (c : Component) (s : Subcomponent)
    → s.mutate_fn
      ≡ Option.some
          (λ o. rendered (set_default_labels c.instance_name) as_they_are (ok o.payload) o)
    → IsStable c s
labelled-IsStable c s e =
    rendered-IsStable c s (set_default_labels c.instance_name) as_they_are (λ q. ok q) e
      (set_default_labels-IsNeutral c.instance_name c.name s.name) as_they_are-IsIdempotent
      (λ q r h. refl)

pub capi_components-IsSettled :
    (n m s t : String) (a : Autoscaler) (b : Bool) → IsSettled (capi_components n m s t a b)
unfolding capi_components security_context_constraints labelled
capi_components-IsSettled n m s t a b = (
  fixed-IsStable (capi_components n m s t a b) _ _ refl,
  (
    fixed-IsStable (capi_components n m s t a b) _ _ refl,
    (labelled-IsStable (capi_components n m s t a b) _ refl, tt),
  ),
)

pub capoci_components-IsSettled :
    (parse_bool : String → Option Bool) (quote : String → String) (n : String) (a : Autoscaler)
    (auth : Option Credentials)
    → IsSettled (capoci_components parse_bool quote n a auth)
unfolding capoci_components auth_config_secret labelled
capoci_components-IsSettled parse_bool quote n a auth = (
  labelled-IsStable (capoci_components parse_bool quote n a auth) _ refl,
  (fixed-IsStable (capoci_components parse_bool quote n a auth) _ _ refl, tt),
)

pub rbac_components-IsSettled :
    (v : DeploymentValues) (a : Autoscaler) → IsSettled (rbac_components v a)
unfolding rbac_components cluster_role cluster_role_binding labelled
rbac_components-IsSettled v a = (
  labelled-IsStable (rbac_components v a) _ refl,
  (
    fixed-IsStable (rbac_components v a) _ _ refl,
    (fixed-IsStable (rbac_components v a) _ _ refl, tt),
  ),
)
