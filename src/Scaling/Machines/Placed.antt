-- ===== src/Scaling/Machines/Placed.antt =====
-- Where the machines of a template are placed, what they are, and what a second reconcile does to
-- the template.
use oci_openshift_autoscalin.Base.{
  String, true, false, some, ◌≡◌, refl, sym, ◌⊎◌, arith, ok, Result, Bool-cases, inl, inr, ap, ◌∙◌,
}
use mathlib.Core.Path.{subst}
use oci_openshift_autoscalin.Base.Bind.{bind-ok}
use oci_openshift_autoscalin.Base.Text.{trim_space}
use oci_openshift_autoscalin.Api.{Autoscaler}
use oci_openshift_autoscalin.Config.{Config, is_bare_metal_shape}
use oci_openshift_autoscalin.Kube.{Kube}
use oci_openshift_autoscalin.Objects.{MachineSpec}
use oci_openshift_autoscalin.Scaling.Tags.{DefinedTags}
use oci_openshift_autoscalin.Scaling.Machines.{
  resolve_subnet_names_for_shape, check_bare_metal_subnets, bare_metal_tags, common_spec, with_rdma,
  with_bare_metal, with_shape_config, bare_metal_spec, virtual_spec, machine_spec,
}
use oci_openshift_autoscalin.Scaling.Machines.BareMetal.{
  bare_metal_tags-bare_metal_tags, bare_metal_tags_kept,
}
use oci_openshift_autoscalin.Scaling.Tags.Kept.{tag}
use oci_openshift_autoscalin.Scaling.Machines.Kinds.{IsBareMetal, IsVirtual, subnets-differ}

module _ (k : Kube) (cluster_name : String) (a : Autoscaler) (config : Config) where
  ok-spec : (x y : MachineSpec) → Result.ok x ≡ Result.ok y → x ≡ y
  ok-spec x y e = cc e

  abbrev metal : String × String → DefinedTags → MachineSpec
  metal (primary, secondary) tags =
      with_rdma config
        (with_bare_metal secondary tags (common_spec cluster_name a config primary tags))

  abbrev checked : String → Result (Unit {0})
  checked secondary =
      check_bare_metal_subnets (trim_space config.network.ocp_subnet_id)
        (trim_space config.network.bare_metal_subnet_id) (trim_space config.network.ocp_subnet_name)
        (trim_space config.network.bare_metal_subnet_name) secondary

  -- the steps of a success
  bare_metal_spec-steps :
      (names : String × String) (existing : DefinedTags) (spec : MachineSpec)
      → bare_metal_spec k cluster_name a config names existing ≡ ok spec
      → (tags : DefinedTags) × (checked names.1 ≡ ok tt)
        × (bare_metal_tags k.quote config existing ≡ ok tags)
        × (metal names tags ≡ spec)
  unfolding bare_metal_spec with_bare_metal common_spec
  bare_metal_spec-steps (primary, secondary) existing spec h =
      let (_, p, h1) = bind-ok (checked secondary) _ spec h in
      let (tags, q, h2) = bind-ok (bare_metal_tags k.quote config existing) _ spec h1 in
      (tags, p, q, ok-spec _ _ h2)

  defined_tags-metal :
      (names : String × String) (tags : DefinedTags) → (metal names tags).defined_tags ≡ tags
  unfolding with_rdma with_bare_metal
  defined_tags-metal (primary, secondary) tags = ground arith

  bare_metal_spec-metal :
      (names : String × String) (existing tags : DefinedTags)
      → checked names.1 ≡ ok tt
      → bare_metal_tags k.quote config existing ≡ ok tags
      → bare_metal_spec k cluster_name a config names existing ≡ ok (metal names tags)
  unfolding bare_metal_spec with_bare_metal common_spec
  bare_metal_spec-metal (primary, secondary) existing tags p q = rw (p, q) refl

  bare_metal_spec-again :
      (names : String × String) (existing : DefinedTags) (spec : MachineSpec)
      → bare_metal_spec k cluster_name a config names existing ≡ ok spec
      → bare_metal_spec k cluster_name a config names spec.defined_tags ≡ ok spec
  bare_metal_spec-again names existing spec h =
      let (tags, p, q, e) = bare_metal_spec-steps names existing spec h in
      let again = bare_metal_tags-bare_metal_tags k.quote config existing tags q in
      let t : spec.defined_tags ≡ tags = rw (← e) (defined_tags-metal names tags) in
      ap (λ x. bare_metal_spec k cluster_name a config names x) t
      ∙ bare_metal_spec-metal names tags tags p again
      ∙ ap (λ s. Result.ok s) e

  metal-IsBareMetal :
      (tags : DefinedTags)
      → checked (trim_space config.network.ocp_subnet_name) ≡ ok tt
      → IsBareMetal config (
          metal
            (
              trim_space config.network.bare_metal_subnet_name,
              trim_space config.network.ocp_subnet_name,
            )
            tags)
  unfolding with_rdma with_bare_metal common_spec
  metal-IsBareMetal tags p =
      let (names, ids) = subnets-differ _ _ _ _ p in
      let named : (metal
            (
              trim_space config.network.bare_metal_subnet_name,
              trim_space config.network.ocp_subnet_name,
            )
            tags).subnet_name
          ≡ trim_space config.network.bare_metal_subnet_name =
        ground arith in
      record {
        primary = named;
        secondary = ground arith;
        names = λ e. names (sym named ∙ e);
        ids = ids;
        boot = ground arith;
        fixed = (ground arith, ground arith);
        compute_cluster = ground arith;
        plugins = ground arith;
      }

  abbrev metal_names : String × String
  metal_names =
      (trim_space config.network.bare_metal_subnet_name, trim_space config.network.ocp_subnet_name)

  abbrev virtual_names : String × String
  virtual_names = (trim_space config.network.ocp_subnet_name, "")

  machine_spec_bare_metal :
      (existing : DefinedTags)
      → is_bare_metal_shape config.autoscaling.shape ≡ true
      → machine_spec k cluster_name a config existing
        ≡ bare_metal_spec k cluster_name a config metal_names existing
  unfolding machine_spec resolve_subnet_names_for_shape
  machine_spec_bare_metal existing b = rw b refl

  machine_spec_virtual :
      (existing : DefinedTags)
      → is_bare_metal_shape config.autoscaling.shape ≡ false
      → machine_spec k cluster_name a config existing
        ≡ ok (virtual_spec k cluster_name a config virtual_names existing)
  unfolding machine_spec resolve_subnet_names_for_shape
  machine_spec_virtual existing b = rw b refl

  virtual_spec-again :
      (existing : DefinedTags)
      → (virtual_spec k cluster_name a config virtual_names existing).defined_tags ≡ existing
  unfolding virtual_spec with_shape_config common_spec
  virtual_spec-again existing = refl

  virtual_spec-IsVirtual :
      (existing : DefinedTags)
      → IsVirtual config (virtual_spec k cluster_name a config virtual_names existing)
  unfolding virtual_spec with_shape_config common_spec
  virtual_spec-IsVirtual existing = record {
    primary = refl;
    secondary = refl;
    boot = refl;
    cpus = refl;
    memory = refl;
  }

  -- A second reconcile makes the same specification of the machines.
  pub machine_spec-machine_spec :
      (existing : DefinedTags) (spec : MachineSpec)
      → machine_spec k cluster_name a config existing ≡ ok spec
      → machine_spec k cluster_name a config spec.defined_tags ≡ ok spec
  machine_spec-machine_spec existing spec h =
      elim (Bool-cases (is_bare_metal_shape config.autoscaling.shape)) [
        | inl b ↦
            machine_spec_bare_metal spec.defined_tags b
            ∙ bare_metal_spec-again metal_names existing spec
                (sym (machine_spec_bare_metal existing b) ∙ h)
        | inr b ↦
            let e = ok-spec _ _ (sym (machine_spec_virtual existing b) ∙ h) in
            ap (λ s. machine_spec k cluster_name a config s)
              (ap (λ s. s.defined_tags) (sym e) ∙ virtual_spec-again existing)
            ∙ h
      ]

  -- what the machines of each kind of shape are
  pub machine_spec-placed :
      (existing : DefinedTags) (spec : MachineSpec)
      → machine_spec k cluster_name a config existing ≡ ok spec
      → ((is_bare_metal_shape config.autoscaling.shape ≡ true) × IsBareMetal config spec)
        ⊎ ((is_bare_metal_shape config.autoscaling.shape ≡ false) × IsVirtual config spec)
  machine_spec-placed existing spec h =
      elim (Bool-cases (is_bare_metal_shape config.autoscaling.shape)) [
        | inl b ↦
            let (tags, p, q, e) =
              bare_metal_spec-steps metal_names existing spec
                (sym (machine_spec_bare_metal existing b) ∙ h) in
            inl (b, subst (λ s. IsBareMetal config s) e (metal-IsBareMetal tags p))
        | inr b ↦
            let e = ok-spec _ _ (sym (machine_spec_virtual existing b) ∙ h) in
            inr (b, subst (λ s. IsVirtual config s) e (virtual_spec-IsVirtual existing))
      ]

  -- the tags of the template that is there stay
  pub tag-machine_spec :
      (existing : DefinedTags) (spec : MachineSpec)
      → machine_spec k cluster_name a config existing ≡ ok spec
      → (namespace key value : String) → tag namespace key existing ≡ some value
      → tag namespace key spec.defined_tags ≡ some value
  tag-machine_spec existing spec h namespace key value t =
      elim (Bool-cases (is_bare_metal_shape config.autoscaling.shape)) [
        | inl b ↦
            let (tags, p, q, e) =
              bare_metal_spec-steps metal_names existing spec
                (sym (machine_spec_bare_metal existing b) ∙ h) in
            let same : tags ≡ spec.defined_tags =
              sym (defined_tags-metal metal_names tags) ∙ ap (λ s. s.defined_tags) e in
            subst (λ s. tag namespace key s ≡ some value) same
              (bare_metal_tags_kept k.quote config existing tags q namespace key value t)
        | inr b ↦
            let e = ok-spec _ _ (sym (machine_spec_virtual existing b) ∙ h) in
            subst (λ s. tag namespace key s ≡ some value)
              (sym (virtual_spec-again existing) ∙ ap (λ s. s.defined_tags) e) t
      ]
