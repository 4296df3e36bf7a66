-- ===== src/Scaling/Tags.antt =====
-- Defined tags of OCI instances (internal/components/enable_autoscaler/capi.go): values by
-- namespace and key. Copies of maps are not distinguished from the maps.
pub mod Kept
use oci_openshift_autoscalin.Base.{
  String, ◌<>◌, Option, none, some, [], ◌∷◌, ◌==◌, not, if◌then◌else◌, ok, Check, errorf, reject_if,
}
use oci_openshift_autoscalin.Base.Bind.{◌>>=◌, ◌>>◌}
use oci_openshift_autoscalin.Base.Text.{is_nil, trim_space}
use oci_openshift_autoscalin.Base.Dict.{Dict, lookup, insert, copy_onto}
use oci_openshift_autoscalin.Config.{Config}

abbrev pub DefinedTags : Type 0
DefinedTags = Dict (Dict String)

abbrev pub openshift_tag_key : String
openshift_tag_key = "openshift-resource"

abbrev pub openshift_tag_value : String
openshift_tag_value = "openshift-resource-infra"

abbrev pub openshift_tag_ns : String
openshift_tag_ns = "openshift-tags"

abbrev pub boot_volume_type_tag : String
boot_volume_type_tag = "boot-volume-type"

abbrev pub boot_volume_type_iscsi : String
boot_volume_type_iscsi = "ISCSI"

abbrev pub tags_or_none : Option (Dict String) → Dict String
tags_or_none none = []
tags_or_none (some tags) = tags

unfoldable pub merge_defined_tags : DefinedTags → String → Dict String → DefinedTags
merge_defined_tags existing namespace tags =
    insert namespace (copy_onto (tags_or_none (lookup namespace existing)) tags) existing

module _ (quote : String → String) where
  abbrev pub override_error : String → String → String → String → Check
  override_error namespace key expected current = reject_if (not (current == expected)) (
      errorf (
        "defined tag "
        <> namespace
        <> "/"
        <> key
        <> " must be "
        <> quote expected
        <> ", found "
        <> quote current))

  abbrev pub found_override : String → String → String → Option String → Check
  found_override namespace key expected none = ok tt
  found_override namespace key expected (some current) =
      override_error namespace key expected current

  -- the loop over the required tags
  unfoldable pub check_overrides : String → Dict String → Dict String → Check
  check_overrides namespace tags [] = ok tt
  check_overrides namespace tags ((key, expected) ∷ required) = do
    found_override namespace key expected (lookup key tags)
    check_overrides namespace tags required

  unfoldable pub validate_defined_tag_overrides : DefinedTags → String → Dict String → Check
  unfolding check_overrides
  validate_defined_tag_overrides existing namespace required = elim (lookup namespace existing) [
    | none ↦ ok tt
    | some tags ↦ check_overrides namespace tags required
  ]

unfoldable pub boot_volume_defined_tag_namespace : Config → String
unfolding trim_space
boot_volume_defined_tag_namespace config =
    let namespace = trim_space config.autoscaling.defined_tags_namespace in
    if is_nil namespace then openshift_tag_ns else namespace
