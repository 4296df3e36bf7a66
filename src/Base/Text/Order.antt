-- ===== src/Base/Text/Order.antt =====
-- Go's `<` on texts: the order of the bytes, which for UTF-8 is that of the code points.
use Prim.Native.Char.{code}
use Prim.Native.String.{String, [], ◌∷◌}
use text.Mathlib.TextEquality.{Char-path}
use mathlib.Core.Path.{◌≡◌, refl, ap₂}
use mathlib.Core.Bool.{Bool, true, false, ◌&&◌, ◌||◌}
use native.Mathlib.Omega.{arith}
use mathlib.Core.Logic.{inl, inr}
use oci_openshift_autoscalin.Base.Tests.{ltb, eqb, Bool-cases}

unfoldable pub text_ltb : String → String → Bool
text_ltb s [] = false
text_ltb [] (d ∷ t) = true
text_ltb (c ∷ s) (d ∷ t) =
    let rest = text_ltb s t in ltb (code c) (code d) || (eqb (code c) (code d) && rest)

pub text_ltb_irrefl : (s : String) → text_ltb s s ≡ false
unfolding text_ltb
text_ltb_irrefl [] = refl
text_ltb_irrefl (c ∷ s) = ground (arith, text_ltb_irrefl s)

pub text_ltb_trans :
    (s t u : String) → text_ltb s t ≡ true → text_ltb t u ≡ true → text_ltb s u ≡ true
unfolding text_ltb
text_ltb_trans [] [] u h k = cc
text_ltb_trans [] (d ∷ t) [] h k = k
text_ltb_trans [] (d ∷ t) (e ∷ u) h k = refl
text_ltb_trans (c ∷ s) [] u h k = ground arith
text_ltb_trans (c ∷ s) (d ∷ t) [] h k = k
text_ltb_trans (c ∷ s) (d ∷ t) (e ∷ u) h k = ground (arith, text_ltb_trans s t u)

-- Texts neither of which is below the other are equal.
pub text_ltb_total : (s t : String) → text_ltb s t ≡ false → text_ltb t s ≡ false → s ≡ t
unfolding text_ltb
text_ltb_total [] [] h k = refl
text_ltb_total [] (d ∷ t) h k = ground arith
text_ltb_total (c ∷ s) [] h k = ground arith
text_ltb_total (c ∷ s) (d ∷ t) h k =
    ap₂ ◌∷◌ (Char-path c d (ground arith)) (text_ltb_total s t (ground arith) (ground arith))

pub text_ltb_asym : (s t : String) → text_ltb s t ≡ true → text_ltb t s ≡ false
text_ltb_asym s t h = elim (Bool-cases (text_ltb t s)) [
  | inr n ↦ n
  | inl y ↦ cc (text_ltb_irrefl s, text_ltb_trans s t s h y)
]

pub text_ltb-false_trans :
    (s t u : String) → text_ltb s t ≡ false → text_ltb t u ≡ false → text_ltb s u ≡ false
text_ltb-false_trans s t u h k = elim (Bool-cases (text_ltb t s)) [
  | inl y ↦ elim (Bool-cases (text_ltb s u)) [
    | inl z ↦ cc (k, text_ltb_trans t s u y z)
    | inr n ↦ n
  ]
  | inr n ↦ rw (text_ltb_total s t h n) k
]
