-- ===== src/Scaling/Tags/Kept.antt =====
-- What merging the operator's defined tags into those of a template does to each tag.
use oci_openshift_autoscalin.Base.{
  String, Option, none, some, [], ◌∷◌, ◌≡◌, refl, ◌==◌, ◌&&◌, arith, eq_iff, eq_refl, if◌then◌else◌,
  ok,
}
use oci_openshift_autoscalin.Base.Dict.{
  Dict, lookup, insert, copy_onto, lookup-insert, insert-lookup,
}
use oci_openshift_autoscalin.Scaling.Tags.{
  DefinedTags, tags_or_none, merge_defined_tags, validate_defined_tag_overrides, check_overrides,
}

-- the value of a tag
abbrev pub tag : String → String → DefinedTags → Option String
tag namespace key tags = lookup key (tags_or_none (lookup namespace tags))

pub tag-merge_defined_tags :
    (tags : DefinedTags) (namespace key value j i : String)
    → tag j i (merge_defined_tags tags namespace ((key, value) ∷ []))
      ≡ (if key == i && namespace == j then some value else tag j i tags)
unfolding merge_defined_tags copy_onto
tag-merge_defined_tags tags namespace key value j i =
    let here = tags_or_none (lookup namespace tags) in
    ground (
      arith,
      eq_iff namespace j,
      lookup-insert j namespace (insert key value here) tags,
      lookup-insert i key value here,
    )

-- a tag that is there stops the mutation unless it has the value
pub validate_defined_tag_overrides-ok :
    (quote : String → String) (tags : DefinedTags) (namespace key value v : String)
    → validate_defined_tag_overrides quote tags namespace ((key, value) ∷ []) ≡ ok tt
    → tag namespace key tags ≡ some v
    → v ≡ value
unfolding validate_defined_tag_overrides check_overrides lookup
validate_defined_tag_overrides-ok quote tags namespace key value v h e =
    ground (arith, h, e, eq_iff v value)

present_in :
    (tags : DefinedTags) (namespace key value : String) (here : Option (Dict String))
    → lookup namespace tags ≡ here
    → lookup key (tags_or_none here) ≡ some value
    → insert namespace (insert key value (tags_or_none here)) tags ≡ tags
unfolding lookup
present_in tags namespace key value none h e = cc e
present_in tags namespace key value (some t) h e =
    rw (insert-lookup key value t e) (insert-lookup namespace t tags h)

-- merging a tag that is there changes nothing
pub merge_defined_tags_present :
    (tags : DefinedTags) (namespace key value : String)
    → tag namespace key tags ≡ some value
    → merge_defined_tags tags namespace ((key, value) ∷ []) ≡ tags
unfolding merge_defined_tags copy_onto lookup
merge_defined_tags_present tags namespace key value e =
    present_in tags namespace key value (lookup namespace tags) refl e

pub validate_defined_tag_overrides_present :
    (quote : String → String) (tags : DefinedTags) (namespace key value : String)
    → tag namespace key tags ≡ some value
    → validate_defined_tag_overrides quote tags namespace ((key, value) ∷ []) ≡ ok tt
unfolding validate_defined_tag_overrides check_overrides lookup
validate_defined_tag_overrides_present quote tags namespace key value e =
    ground (arith, e, eq_refl value)
