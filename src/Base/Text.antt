-- ===== src/Base/Text.antt =====
-- Go's `strings.TrimSpace`, `HasPrefix`, `TrimPrefix`, `Index`, `ToUpper` and `<` on text.
-- A text is its list of characters; `len` counts bytes, as Go does.
pub mod Trim
pub mod Prefix
pub mod Order
use Prim.Native.Nat.{ℕ, zero, suc, ◌+◌, ◌-◌}
use Prim.Native.Char.{Char, code}
use Prim.Native.String.{String, [], ◌∷◌, ◌++◌ as ◌<>◌}
use mathlib.Core.List.{List}
use mathlib.Core.Bool.{Bool, true, false, ◌&&◌, ◌||◌, not}
use mathlib.Core.Option.{Option, none, some}
use oci_openshift_autoscalin.Base.Tests.{ltb, leb, eqb, if◌then◌else◌}

-- `unicode.IsSpace`
unfoldable pub is_space : Char → Bool
is_space c =
    let n = code c in
    (leb 9 n && leb n 13)
    || eqb n 32
    || eqb n 0x85
    || eqb n 0xa0
    || eqb n 0x1680
    || (leb 0x2000 n && leb n 0x200a)
    || eqb n 0x2028
    || eqb n 0x2029
    || eqb n 0x202f
    || eqb n 0x205f
    || eqb n 0x3000

abbrev pub is_nil : String → Bool
is_nil [] = true
is_nil (c ∷ s) = false

unfoldable pub trim_left : String → String
trim_left [] = []
trim_left (c ∷ s) = let rest = trim_left s in if is_space c then rest else c ∷ s

unfoldable pub trim_right : String → String
trim_right [] = []
trim_right (c ∷ s) = let rest = trim_right s in if is_nil rest && is_space c then [] else c ∷ rest

unfoldable pub trim_space : String → String
unfolding trim_left trim_right is_space
trim_space s = trim_right (trim_left s)

-- `strings.TrimSpace(s) == ""`
abbrev pub is_blank : String → Bool
is_blank s = is_nil (trim_space s)

unfoldable pub has_prefix : String → String → Bool
has_prefix s [] = true
has_prefix [] (p ∷ ps) = false
has_prefix (c ∷ s) (p ∷ ps) = let rest = has_prefix s ps in eqb (code c) (code p) && rest

unfoldable pub drop : String → String → String
drop s [] = s
drop [] (p ∷ ps) = []
drop (c ∷ s) (p ∷ ps) = drop s ps

unfoldable pub trim_prefix : String → String → String
unfolding has_prefix drop
trim_prefix s prefix = if has_prefix s prefix then drop s prefix else s

-- The text before the first character `n`: `s[:strings.Index(s, n)]`, all of `s` if there is none.
unfoldable pub before : ℕ → String → String
before n [] = []
before n (c ∷ s) = let rest = before n s in if eqb (code c) n then [] else c ∷ rest

-- `strings.ToUpper` on ASCII letters compared with a prefix: the prefix is in upper case.
abbrev upper_code : ℕ → ℕ
upper_code n = if leb 97 n && leb n 122 then n - 32 else n

unfoldable pub has_prefix_upper : String → String → Bool
has_prefix_upper s [] = true
has_prefix_upper [] (p ∷ ps) = false
has_prefix_upper (c ∷ s) (p ∷ ps) =
    let rest = has_prefix_upper s ps in eqb (upper_code (code c)) (code p) && rest

-- `strings.Join(texts, separator)`
unfoldable pub joined : String → List String → String
joined separator List.[] = []
joined separator (List.◌∷◌ s List.[]) = s
joined separator (List.◌∷◌ s rest) = s <> separator <> joined separator rest

-- `strings.Contains`
unfoldable pub contains : String → String → Bool
unfolding has_prefix
contains [] part = has_prefix [] part
contains (c ∷ s) part = let rest = contains s part in has_prefix (c ∷ s) part || rest
