-- ===== src/Labels.antt =====
-- The labels and annotations that the operator puts on its objects
-- (internal/utils/kubeapi.go).
pub mod Owned
pub mod Settled
use oci_openshift_autoscalin.Base.{
  String, ◌<>◌, Bool, true, false, Option, none, some, List, [], ◌∷◌, ◌||◌, not, ◌==◌,
  if◌then◌else◌,
}
use oci_openshift_autoscalin.Base.Text.{is_nil}
use oci_openshift_autoscalin.Base.Dict.{Dict, lookup, insert, delete, copy_onto}

abbrev pub cert_manager_ca_inject_annotation : String
cert_manager_ca_inject_annotation = "cert-manager.io/inject-ca-from"

abbrev pub openshift_ca_bundle_annotation : String
openshift_ca_bundle_annotation = "service.beta.openshift.io/inject-cabundle"

abbrev pub openshift_service_cert_annotation : String
openshift_service_cert_annotation = "service.beta.openshift.io/serving-cert-secret-name"

abbrev pub managed_by_label : String
managed_by_label = "capi.openshift.io/managed-by"

abbrev pub component_label : String
component_label = "capi.openshift.io/component"

abbrev pub subcomponent_label : String
subcomponent_label = "capi.openshift.io/subcomponent"

abbrev pub app_name_label : String
app_name_label = "app.kubernetes.io/name"

abbrev pub app_instance_label : String
app_instance_label = "app.kubernetes.io/instance"

abbrev pub app_component_label : String
app_component_label = "app.kubernetes.io/component"

abbrev pub app_part_of_label : String
app_part_of_label = "app.kubernetes.io/part-of"

abbrev pub app_managed_by_label : String
app_managed_by_label = "app.kubernetes.io/managed-by"

abbrev pub app_name : String
app_name = "oci-capi-autoscaling-operator"

unfoldable pub get_default_labels : String → Dict String
get_default_labels instance_name =
    ("cluster.x-k8s.io/provider", "cluster-api")
    ∷ (managed_by_label, instance_name)
    ∷ (app_name_label, app_name)
    ∷ (app_instance_label, instance_name)
    ∷ (app_part_of_label, app_name)
    ∷ (app_managed_by_label, app_name)
    ∷ []

unfoldable pub get_component_labels : String → String → String → Dict String
unfolding get_default_labels
get_component_labels instance_name component_name subcomponent_name =
    let labels = get_default_labels instance_name in
    let labels =
      if is_nil component_name
      then labels
      else insert app_component_label component_name
          (insert component_label component_name labels) in
    if is_nil subcomponent_name then labels else insert subcomponent_label subcomponent_name labels

unfoldable pub is_operator_owned_label : String → Bool
is_operator_owned_label key =
    managed_by_label == key
    || component_label == key
    || subcomponent_label == key
    || app_name_label == key
    || app_instance_label == key
    || app_component_label == key
    || app_part_of_label == key
    || app_managed_by_label == key

-- `labels[key] == ""`: a missing key reads as the empty text
abbrev pub is_unset : Option String → Bool
is_unset none = true
is_unset (some v) = is_nil v

-- The loop of `mergeManagedLabels` over `managed`, onto a copy of `existing`.
unfoldable pub merge_managed_labels : Dict String → Dict String → Dict String
merge_managed_labels existing [] = existing
merge_managed_labels existing ((key, value) ∷ managed) =
    let labels = merge_managed_labels existing managed in
    if is_operator_owned_label key || is_unset (lookup key labels)
    then insert key value labels
    else labels

-- `SetDefaultLabels` and `SetComponentLabels`, on the labels of an object
unfoldable pub set_default_labels : String → Dict String → Dict String
set_default_labels instance_name labels =
    merge_managed_labels labels (get_default_labels instance_name)

unfoldable pub set_component_labels : String → String → String → Dict String → Dict String
set_component_labels instance_name component_name subcomponent_name labels =
    merge_managed_labels labels
      (get_component_labels instance_name component_name subcomponent_name)

-- The tail of both annotation functions: what the object has goes over the new annotation, and the
-- annotation of cert-manager goes away.
abbrev annotated : String → String → Dict String → Dict String
annotated key value annotations =
    delete cert_manager_ca_inject_annotation (copy_onto ((key, value) ∷ []) annotations)

-- `SetOpenshiftServiceCertAnnotation`, on the name and the annotations of an object
unfoldable pub set_openshift_service_cert_annotation : String → String → Dict String → Dict String
set_openshift_service_cert_annotation object_name name annotations =
    if not (object_name == name)
    then annotations
    else annotated openshift_service_cert_annotation name annotations

unfoldable pub set_openshift_ca_bundle_annotation : Dict String → Dict String
set_openshift_ca_bundle_annotation annotations =
    annotated openshift_ca_bundle_annotation "true" annotations
