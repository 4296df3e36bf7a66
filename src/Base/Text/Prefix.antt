-- ===== src/Base/Text/Prefix.antt =====
-- A text that begins with another one.
use Prim.Native.String.{String, [], ◌∷◌, ◌++◌ as ◌<>◌}
use mathlib.Core.Path.{◌≡◌, refl}
use mathlib.Core.Bool.{true}
use native.Mathlib.Omega.{arith}
use text.Mathlib.TextLemmas.{cons-append, nil-append}
use oci_openshift_autoscalin.Base.Text.{has_prefix, drop}

pub has_prefix-append : (p s : String) → has_prefix (p <> s) p ≡ true
unfolding has_prefix
has_prefix-append [] s = refl
has_prefix-append (c ∷ p) s = rw cons-append (ground (arith, has_prefix-append p s))

pub drop-append : (p s : String) → drop (p <> s) p ≡ s
unfolding drop
drop-append [] s = rw nil-append
drop-append (c ∷ p) s = rw cons-append (drop-append p s)
