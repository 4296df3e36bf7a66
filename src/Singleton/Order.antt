-- ===== src/Singleton/Order.antt =====
-- `older` is a strict order, total on objects with different keys.
use oci_openshift_autoscalin.Base.{true, false, eq_iff, eq_refl, ◌≡◌, arith}
use oci_openshift_autoscalin.Base.Text.Order.{
  text_ltb_irrefl, text_ltb_trans, text_ltb_total, text_ltb-false_trans,
}
use oci_openshift_autoscalin.Api.{Autoscaler}
use oci_openshift_autoscalin.Singleton.{older, key}

pub older_trans : (a b c : Autoscaler) → older a b ≡ true → older b c ≡ true → older a c ≡ true
unfolding older
older_trans a b c h k = ground (
  arith,
  eq_iff a.metadata.namespace b.metadata.namespace,
  eq_iff b.metadata.namespace c.metadata.namespace,
  eq_iff a.metadata.namespace c.metadata.namespace,
  text_ltb_trans a.metadata.namespace b.metadata.namespace c.metadata.namespace,
  text_ltb_trans a.metadata.name b.metadata.name c.metadata.name,
  text_ltb_irrefl a.metadata.namespace,
)

-- Of two objects neither of which is older, the keys are the same.
pub older_total : (a b : Autoscaler) → older a b ≡ false → older b a ≡ false → key a ≡ key b
unfolding older
older_total a b h k = ground (
  arith,
  eq_iff a.metadata.namespace b.metadata.namespace,
  eq_iff b.metadata.namespace a.metadata.namespace,
  text_ltb_total a.metadata.namespace b.metadata.namespace,
  text_ltb_total a.metadata.name b.metadata.name,
)

pub older_irrefl : (a : Autoscaler) → older a a ≡ false
unfolding older
older_irrefl a = ground (arith, eq_refl a.metadata.namespace, text_ltb_irrefl a.metadata.name)

-- What is not younger than something not younger than a third is not younger than that.
pub older-false_trans :
    (a b c : Autoscaler) → older a b ≡ false → older b c ≡ false → older a c ≡ false
unfolding older
older-false_trans a b c h k = ground (
  arith,
  eq_iff a.metadata.namespace b.metadata.namespace,
  eq_iff b.metadata.namespace c.metadata.namespace,
  eq_iff a.metadata.namespace c.metadata.namespace,
  text_ltb-false_trans a.metadata.namespace b.metadata.namespace c.metadata.namespace,
  text_ltb-false_trans a.metadata.name b.metadata.name c.metadata.name,
  text_ltb_total a.metadata.namespace b.metadata.namespace,
  text_ltb_total b.metadata.namespace c.metadata.namespace,
  text_ltb_irrefl a.metadata.namespace,
  text_ltb_trans b.metadata.namespace a.metadata.namespace b.metadata.namespace,
  text_ltb_total a.metadata.namespace c.metadata.namespace,
  text_ltb_trans a.metadata.namespace c.metadata.namespace b.metadata.namespace,
  text_ltb_trans c.metadata.namespace a.metadata.namespace b.metadata.namespace,
  text_ltb_trans c.metadata.namespace b.metadata.namespace c.metadata.namespace,
)
