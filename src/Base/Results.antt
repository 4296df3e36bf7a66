-- ===== src/Base/Results.antt =====
-- Go's errors as values. An error carries its text and what `apierrors.IsNotFound` and its
-- relatives see in it; `fmt.Errorf` with `%w` keeps the latter, with `%v` it does not.
use Prim.Native.String.{String, ◌++◌ as ◌<>◌}
use mathlib.Core.Path.{◌≡◌, refl}
use mathlib.Core.Logic.{◌⊎◌, inl, inr}
use mathlib.Core.Bool.{Bool, true, false}

pub data Reason : Type 0 where
  not_found already_exists no_match other : Reason

pub record Error : Type 0 where
  pub message : String
  pub reason : Reason

-- `fmt.Errorf` of a text without `%w`
abbrev pub errorf : String → Error
errorf text = record { message = text; reason = other }

-- `fmt.Errorf("<text>: %w", err)`
abbrev pub wrap : String → Error → Error
wrap text e = record e { message = text <> ": " <> e.message }

-- `errors.Join(a, b)`, whose tree `errors.As` walks from the left
abbrev pub join : Error → Error → Error
join a b = record {
  message = a.message <> "\n" <> b.message;
  reason = elim a.reason [ other ↦ b.reason | r ↦ r ];
}

abbrev pub is_not_found : Error → Bool
is_not_found e = elim e.reason [ not_found ↦ true | _ ↦ false ]

abbrev pub is_already_exists : Error → Bool
is_already_exists e = elim e.reason [ already_exists ↦ true | _ ↦ false ]

abbrev pub is_no_match : Error → Bool
is_no_match e = elim e.reason [ no_match ↦ true | _ ↦ false ]

pub data Result {ℓ} (A : Type ℓ) : Type ℓ where
  ok : A → Result A
  err : Error → Result A

-- A function that returns only an `error`
abbrev pub Check : Type 0
Check = Result (Unit {0})

abbrev pub reject_if : Bool → Error → Check
reject_if true e = err e
reject_if false e = ok tt

-- `if err != nil { return fmt.Errorf("<text>: %w", err) }`
abbrev pub wrap_err {ℓ} : {A : Type ℓ} → String → Result A → Result A
wrap_err text (ok a) = ok a
wrap_err text (err e) = err (wrap text e)

abbrev pub IsOk {ℓ} : {A : Type ℓ} → Result A → Type 0
IsOk (ok a) = Unit
IsOk (err e) = ⊥

abbrev pub succeeds {ℓ} : {A : Type ℓ} → Result A → Bool
succeeds (ok a) = true
succeeds (err e) = false

pub Result-cases {ℓ} :
    {A : Type ℓ} (r : Result A) → ((e : Error) × (r ≡ err e)) ⊎ ((a : A) × (r ≡ ok a))
Result-cases (err e) = inl (e, refl)
Result-cases (ok a) = inr (a, refl)
