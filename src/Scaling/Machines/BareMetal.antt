-- ===== src/Scaling/Machines/BareMetal.antt =====
-- The defined tags and the subnets of a bare-metal template.
use oci_openshift_autoscalin.Base.{
  String, Option, some, ◌≡◌, refl, ◌==◌, ◌&&◌, arith, eq_iff, eq_refl, if◌then◌else◌, ok, Result,
}
use oci_openshift_autoscalin.Base.Bind.{bind-ok}
use oci_openshift_autoscalin.Config.{Config}
use oci_openshift_autoscalin.Scaling.Tags.{
  DefinedTags, merge_defined_tags, validate_defined_tag_overrides,
  boot_volume_defined_tag_namespace, openshift_tag_ns, openshift_tag_key, openshift_tag_value,
  boot_volume_type_tag, boot_volume_type_iscsi,
}
use oci_openshift_autoscalin.Scaling.Tags.Kept.{
  tag, tag-merge_defined_tags, validate_defined_tag_overrides-ok, merge_defined_tags_present,
  validate_defined_tag_overrides_present,
}
use oci_openshift_autoscalin.Scaling.Machines.{bare_metal_tags, openshift_tags, boot_tags}

-- what a tag of a bare-metal template should be: `old` is what the template has
abbrev pub required_tag : Config → String → String → Option String → Option String
required_tag config namespace key old =
    if boot_volume_type_tag == key && boot_volume_defined_tag_namespace config == namespace
    then some boot_volume_type_iscsi
    else if openshift_tag_key == key && openshift_tag_ns == namespace
    then some openshift_tag_value
    else old

module _ (quote : String → String) (config : Config) (tags made : DefinedTags) where
  ok-tags : (x y : DefinedTags) → Result.ok x ≡ Result.ok y → x ≡ y
  ok-tags x y e = cc e

  -- the steps of a success
  bare_metal_tags-steps :
      bare_metal_tags quote config tags ≡ ok made
      → (validate_defined_tag_overrides quote tags openshift_tag_ns openshift_tags ≡ ok tt)
        × (validate_defined_tag_overrides quote tags
              (boot_volume_defined_tag_namespace config)
              boot_tags
            ≡ ok tt)
        × (merge_defined_tags
              (merge_defined_tags tags openshift_tag_ns openshift_tags)
              (boot_volume_defined_tag_namespace config)
              boot_tags
            ≡ made)
  unfolding bare_metal_tags
  bare_metal_tags-steps h =
      let (_, p, h1) =
        bind-ok (validate_defined_tag_overrides quote tags openshift_tag_ns openshift_tags) _ made
          h in
      let (_, q, h2) =
        bind-ok
          (validate_defined_tag_overrides quote tags (boot_volume_defined_tag_namespace config)
            boot_tags)
          _ made h1 in
      (p, q, ok-tags _ _ h2)

  -- each tag of the result
  pub tag-bare_metal_tags :
      bare_metal_tags quote config tags ≡ ok made
      → (namespace key : String)
      → tag namespace key made ≡ required_tag config namespace key (tag namespace key tags)
  tag-bare_metal_tags h namespace key =
      let (_, _, e) = bare_metal_tags-steps h in
      let boot = boot_volume_defined_tag_namespace config in
      let first = merge_defined_tags tags openshift_tag_ns openshift_tags in
      rw (← e) (
        ground (
          arith,
          tag-merge_defined_tags first boot boot_volume_type_tag boot_volume_type_iscsi namespace
              key,
          tag-merge_defined_tags tags openshift_tag_ns openshift_tag_key openshift_tag_value
              namespace key,
        ))

  pub bare_metal_tags_kept :
      bare_metal_tags quote config tags ≡ ok made
      → (namespace key value : String) → tag namespace key tags ≡ some value
      → tag namespace key made ≡ some value
  bare_metal_tags_kept h namespace key value e =
      let (p, q, _) = bare_metal_tags-steps h in
      let boot = boot_volume_defined_tag_namespace config in
      ground (
        arith,
        e,
        eq_iff boot namespace,
        eq_iff openshift_tag_ns namespace,
        eq_iff boot_volume_type_tag key,
        eq_iff openshift_tag_key key,
        tag-bare_metal_tags h namespace key,
        validate_defined_tag_overrides-ok quote tags openshift_tag_ns openshift_tag_key
            openshift_tag_value value p,
        validate_defined_tag_overrides-ok quote tags boot boot_volume_type_tag
            boot_volume_type_iscsi value q,
      )

  -- tagging again changes nothing
  pub bare_metal_tags-bare_metal_tags :
      bare_metal_tags quote config tags ≡ ok made → bare_metal_tags quote config made ≡ ok made
  unfolding bare_metal_tags
  bare_metal_tags-bare_metal_tags h =
      let boot = boot_volume_defined_tag_namespace config in
      let e = tag-bare_metal_tags h openshift_tag_ns openshift_tag_key in
      let f = tag-bare_metal_tags h boot boot_volume_type_tag in
      let g : tag boot boot_volume_type_tag made ≡ some boot_volume_type_iscsi =
        ground (arith, f, eq_refl boot) in
      rw
        (
          validate_defined_tag_overrides_present quote made openshift_tag_ns openshift_tag_key
              openshift_tag_value e,
          validate_defined_tag_overrides_present quote made boot boot_volume_type_tag
              boot_volume_type_iscsi g,
          merge_defined_tags_present made openshift_tag_ns openshift_tag_key openshift_tag_value e,
          merge_defined_tags_present made boot boot_volume_type_tag boot_volume_type_iscsi g,
        )
        refl
