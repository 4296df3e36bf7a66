-- ===== src/Base/Text/Trim.antt =====
-- What `strings.TrimSpace` leaves.
use Prim.Native.String.{String, [], ◌∷◌}
use mathlib.Core.Path.{◌≡◌, refl, ap, ◌∙◌}
use mathlib.Core.Logic.{inl, inr}
use mathlib.Core.Bool.{Bool, true, ◌&&◌, not}
use native.Mathlib.Omega.{arith}
use oci_openshift_autoscalin.Base.Tests.{Bool-cases}
use oci_openshift_autoscalin.Base.Text.{is_space, is_nil, trim_left, trim_right, trim_space}

trim_right-trim_right : (s : String) → trim_right (trim_right s) ≡ trim_right s
unfolding trim_right
trim_right-trim_right [] = refl
trim_right-trim_right (c ∷ s) = elim (Bool-cases (is_nil (trim_right s) && is_space c)) [
  | inl gone ↦ rw (gone, trim_right)
  | inr kept ↦ rw (kept, trim_right) (rw (trim_right-trim_right s, kept))
]

abbrev starts_clean : String → Bool
starts_clean [] = true
starts_clean (c ∷ s) = not (is_space c)

starts_clean-trim_left : (s : String) → starts_clean (trim_left s) ≡ true
unfolding trim_left
starts_clean-trim_left [] = refl
starts_clean-trim_left (c ∷ s) = ground (arith, starts_clean-trim_left s)

starts_clean-trim_right : (s : String) → starts_clean s ≡ true → starts_clean (trim_right s) ≡ true
unfolding trim_right
starts_clean-trim_right [] h = refl
starts_clean-trim_right (c ∷ s) h = ground arith

trim_left_of_clean : (s : String) → starts_clean s ≡ true → trim_left s ≡ s
unfolding trim_left
trim_left_of_clean [] h = refl
trim_left_of_clean (c ∷ s) h = ground arith

pub trim_space-trim_space : (s : String) → trim_space (trim_space s) ≡ trim_space s
unfolding trim_space
trim_space-trim_space s =
    ap trim_right (
      trim_left_of_clean (trim_right (trim_left s))
        (starts_clean-trim_right (trim_left s) (starts_clean-trim_left s)))
    ∙ trim_right-trim_right (trim_left s)
