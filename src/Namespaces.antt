-- ===== src/Namespaces.antt =====
-- The namespaces that the operator works in (internal/controllers/namespaces.go).
pub mod Defaults
pub mod Validation
use oci_openshift_autoscalin.Base.{
  String, ◌<>◌, Bool, true, false, Option, none, some, List, [], ◌∷◌, ◌≡◌, refl, if◌then◌else◌,
  is_empty, Result, ok, err, Check, errorf,
}
use oci_openshift_autoscalin.Base.Bind.{◌>>=◌, ◌>>◌}
use oci_openshift_autoscalin.Base.Text.{trim_space, is_nil, joined}
use oci_openshift_autoscalin.Kube.{Kube}

abbrev pub default_operator_namespace : String
default_operator_namespace = "oci-openshift-autoscaling-operator"

pub record NamespaceConfig : Type 0 where
  pub operator : String
  pub capi_provider : String
  pub capoci_provider : String
  pub managed_resource : String
  pub autoscaler : String
  pub autoscaler_discovery : String

unfoldable pub default_namespace : String → String → String
default_namespace value fallback =
    let trimmed = trim_space value in if is_nil trimmed then trim_space fallback else trimmed

unfoldable pub with_defaults : NamespaceConfig → NamespaceConfig
with_defaults c =
    let operator = default_namespace c.operator default_operator_namespace in
    let managed = default_namespace c.managed_resource operator in
    record {
      operator = operator;
      capi_provider = default_namespace c.capi_provider operator;
      capoci_provider = default_namespace c.capoci_provider operator;
      managed_resource = managed;
      autoscaler = default_namespace c.autoscaler operator;
      autoscaler_discovery = default_namespace c.autoscaler_discovery managed;
    }

-- the fields that `Validate` goes over
abbrev pub named_namespaces : NamespaceConfig → List (String × String)
named_namespaces c =
    ("operator namespace", c.operator)
    ∷ ("CAPI provider namespace", c.capi_provider)
    ∷ ("CAPOCI provider namespace", c.capoci_provider)
    ∷ ("managed resource namespace", c.managed_resource)
    ∷ ("autoscaler namespace", c.autoscaler)
    ∷ ("autoscaler discovery namespace", c.autoscaler_discovery)
    ∷ []

module _ (k : Kube) where
  unfoldable pub validate_required_namespace : String → String → Check
  validate_required_namespace name value =
      let errs = k.is_dns1123_label value in
      if is_empty errs
      then ok tt
      else err (
          errorf (
            name
            <> " "
            <> k.quote value
            <> " must be a valid Kubernetes namespace: "
            <> joined "; " errs))

  unfoldable pub validate_optional_object_name : String → String → Check
  validate_optional_object_name name value =
      let trimmed = trim_space value in
      let errs = k.is_dns1123_label trimmed in
      if is_nil trimmed
      then ok tt
      else if is_empty errs
      then ok tt
      else err (
          errorf (
            name
            <> " "
            <> k.quote trimmed
            <> " must be a valid Kubernetes object name: "
            <> joined "; " errs))

  -- the loop over the fields, which stops at the first error
  validate_fields : List (String × String) → Check
  validate_fields [] = ok tt
  validate_fields ((name, value) ∷ fields) = do
    validate_required_namespace name value
    validate_fields fields

  unfoldable pub validate_namespaces : NamespaceConfig → Check
  unfolding validate_required_namespace validate_fields with_defaults default_namespace
  validate_namespaces config = validate_fields (named_namespaces (with_defaults config))
