-- ===== src/Namespaces/Validation.antt =====
-- Which configurations `Validate` of namespaces.go accepts.
use oci_openshift_autoscalin.Base.{
  String, true, ◌≡◌, refl, arith, is_empty, ok, ◌↔◌, All, List, [], ◌∷◌,
}
use oci_openshift_autoscalin.Kube.{Kube}
use oci_openshift_autoscalin.Namespaces.{
  NamespaceConfig, with_defaults, named_namespaces, validate_required_namespace, validate_fields,
  validate_namespaces,
}
use oci_openshift_autoscalin.Namespaces.Defaults.{namespaces}

module _ (k : Kube) where
  abbrev pub IsLabel : String → Type 0
  IsLabel s = is_empty (k.is_dns1123_label s) ≡ true

  validate_required_namespace-ok :
      (name value : String) → (validate_required_namespace k name value ≡ ok tt) ↔ IsLabel value
  unfolding validate_required_namespace
  validate_required_namespace-ok name value = (λ h. ground arith, λ h. ground arith)

  validate_fields-ok :
      (fields : List (String × String))
      → (validate_fields k fields ≡ ok tt) ↔ All (λ (_, value). IsLabel value) fields
  unfolding validate_fields
  validate_fields-ok [] = (λ h. tt, λ h. refl)
  validate_fields-ok ((name, value) ∷ fields) = (
    λ h. ground (arith, validate_fields-ok fields, validate_required_namespace-ok name value),
    λ h. ground (arith, validate_fields-ok fields, validate_required_namespace-ok name value, h),
  )

  -- The configuration is accepted exactly when each of the six namespaces that the operator will
  -- use, defaults applied, is a label for the Kubernetes validation.
  pub validate_namespaces-ok :
      (c : NamespaceConfig)
      → (validate_namespaces k c ≡ ok tt) ↔ All IsLabel (namespaces (with_defaults c))
  unfolding validate_namespaces
  validate_namespaces-ok c = validate_fields-ok (named_namespaces (with_defaults c))
