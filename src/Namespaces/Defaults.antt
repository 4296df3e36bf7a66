-- ===== src/Namespaces/Defaults.antt =====
-- Defaults of the namespaces.
use oci_openshift_autoscalin.Base.{
  String, false, ◌≡◌, refl, All, List, [], ◌∷◌, Bool-cases, inl, inr,
}
use oci_openshift_autoscalin.Base.Text.{trim_space, is_nil}
use oci_openshift_autoscalin.Base.Text.Trim.{trim_space-trim_space}
use oci_openshift_autoscalin.Namespaces.{
  NamespaceConfig, default_namespace, with_defaults, default_operator_namespace,
}

-- A namespace that is set: trimmed, and not empty.
abbrev pub IsClean : String → Type 0
IsClean s = (trim_space s ≡ s) × (is_nil s ≡ false)

default_namespace-IsClean :
    (value fallback : String) → IsClean fallback → IsClean (default_namespace value fallback)
unfolding default_namespace
default_namespace-IsClean value fallback h = elim (Bool-cases (is_nil (trim_space value))) [
  | inl blank ↦ rw blank (rw h.0 h)
  | inr given ↦ rw given (trim_space-trim_space value, given)
]

default_namespace_of_set :
    (value fallback : String) → IsClean value → default_namespace value fallback ≡ value
unfolding default_namespace
default_namespace_of_set value fallback h = rw (h.0, h.1)

abbrev pub namespaces : NamespaceConfig → List String
namespaces c =
    c.operator ∷ c.capi_provider ∷ c.capoci_provider ∷ c.managed_resource ∷ c.autoscaler
    ∷ c.autoscaler_discovery ∷ []

operator-IsClean : IsClean default_operator_namespace
unfolding trim_space
operator-IsClean = (refl, refl)

-- With the defaults every namespace is trimmed and none is empty, whatever the environment gave.
pub with_defaults-IsClean : (c : NamespaceConfig) → All IsClean (namespaces (with_defaults c))
unfolding with_defaults
with_defaults-IsClean c =
    let o = default_namespace-IsClean c.operator _ operator-IsClean in
    let m = default_namespace-IsClean c.managed_resource _ o in
    let p = default_namespace-IsClean c.capi_provider _ o in
    let q = default_namespace-IsClean c.capoci_provider _ o in
    let a = default_namespace-IsClean c.autoscaler _ o in
    let d = default_namespace-IsClean c.autoscaler_discovery _ m in (o, (p, (q, (m, (a, (d, tt))))))

with_defaults_of_set : (c : NamespaceConfig) → All IsClean (namespaces c) → with_defaults c ≡ c
unfolding with_defaults
with_defaults_of_set c (o, (p, (q, (m, (a, (d, _)))))) = cc (
  default_namespace_of_set c.operator default_operator_namespace o,
  default_namespace_of_set c.capi_provider c.operator p,
  default_namespace_of_set c.capoci_provider c.operator q,
  default_namespace_of_set c.managed_resource c.operator m,
  default_namespace_of_set c.autoscaler c.operator a,
  default_namespace_of_set c.autoscaler_discovery c.managed_resource d,
)

-- Applying the defaults twice is applying them once.
pub with_defaults-with_defaults :
    (c : NamespaceConfig) → with_defaults (with_defaults c) ≡ with_defaults c
with_defaults-with_defaults c = with_defaults_of_set (with_defaults c) (with_defaults-IsClean c)
