-- ===== src/Base/Int.antt =====
-- Go's signed integers, over the native numbers, and `%d`.
use Prim.Native.Nat.{◌%◌}
use oci_openshift_autoscalin.Base.{
  ℕ, zero, suc, Bool, true, false, ltb, eqb, ◌/◌, ◌<◌, String, ◌<>◌, if◌then◌else◌, ◌≡◌, refl,
  arith, Bool-cases, inl, inr,
}

-- `negsuc n` is -(n + 1).
pub data ℤ : Type 0 where
  pos : ℕ → ℤ
  negsuc : ℕ → ℤ

abbrev pub lt_ℤ : ℤ → ℤ → Bool
lt_ℤ (pos a) (pos b) = ltb a b
lt_ℤ (pos a) (negsuc b) = false
lt_ℤ (negsuc a) (pos b) = true
lt_ℤ (negsuc a) (negsuc b) = ltb b a

digit : ℕ → String
digit n =
    if eqb n 0
    then "0"
    else if eqb n 1
    then "1"
    else if eqb n 2
    then "2"
    else if eqb n 3
    then "3"
    else if eqb n 4
    then "4"
    else if eqb n 5
    then "5"
    else if eqb n 6
    then "6"
    else if eqb n 7
    then "7"
    else if eqb n 8
    then "8"
    else "9"

digits : ℕ → ℕ → String
digits zero n = ""
digits (suc fuel) n =
    let rest = digits fuel (n / 10) in if ltb n 10 then digit n else rest <> digit (n % 10)

-- Fuel above the number is enough: more of it changes nothing.
digits-enough : (f g n : ℕ) → n < f → n < g → digits f n ≡ digits g n
unfolding digits
digits-enough zero g n p q = elim p [ ]
digits-enough (suc f) zero n p q = elim q [ ]
digits-enough (suc f) (suc g) n p q = elim (Bool-cases (ltb n 10)) [
  | inl small ↦ rw small refl
  | inr large ↦ rw (large, digits-enough f g (n / 10) (ground arith) (ground arith)) refl
]

unfoldable pub decimal : ℕ → String
unfolding digits digit
decimal n = digits (suc n) n

unfoldable pub show_ℤ : ℤ → String
unfolding decimal
show_ℤ (pos n) = decimal n
show_ℤ (negsuc n) = "-" <> decimal (suc n)
