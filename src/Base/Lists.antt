-- ===== src/Base/Lists.antt =====
-- Lists, with lengths in the native numbers.
use Prim.Native.Nat.{ℕ, suc}
use mathlib.Core.Path.{◌≡◌, refl, subst}
use mathlib.Core.Logic.{◌⊎◌, inl, inr}
use mathlib.Core.Bool.{Bool, true, false}
use mathlib.Core.List.{List, [], ◌∷◌}

abbrev pub length {ℓ} : {A : Type ℓ} → List A → ℕ
length [] = 0
length (x ∷ xs) = suc (length xs)

abbrev pub is_empty {ℓ} : {A : Type ℓ} → List A → Bool
is_empty [] = true
is_empty (x ∷ xs) = false

module _ {ℓ} {A : Type ℓ} where
  abbrev pub All {κ} : (A → Type κ) → List A → Type κ
  All P [] = Unit
  All P (x ∷ xs) = P x × All P xs

-- Membership, with its place.
abbrev pub In : {A : Type 0} → A → List A → Type 0
In a [] = ⊥
In a (x ∷ xs) = (x ≡ a) ⊎ In a xs

pub All-In : {A : Type 0} (P : A → Type 0) (a : A) (xs : List A) → All P xs → In a xs → P a
All-In P a [] _ i = elim i [ ]
All-In P a (x ∷ xs) (p, ps) (inl e) = subst P e p
All-In P a (x ∷ xs) (p, ps) (inr i) = All-In P a xs ps i

pub All-In_converse :
    {A : Type 0} (P : A → Type 0) (xs : List A) → ((a : A) → In a xs → P a) → All P xs
All-In_converse P [] h = tt
All-In_converse P (x ∷ xs) h = (h x (inl refl), All-In_converse P xs (λ a i. h a (inr i)))

pub All-map :
    {A : Type 0} (P Q : A → Type 0) (xs : List A) → ((a : A) → P a → Q a) → All P xs → All Q xs
All-map P Q [] f h = tt
All-map P Q (x ∷ xs) f (p, ps) = (f x p, All-map P Q xs f ps)

-- the pairs of elements at the same place
abbrev pub zip {ℓ κ} : {A : Type ℓ} {B : Type κ} → List A → List B → List (A × B)
zip (x ∷ xs) (y ∷ ys) = (x, y) ∷ zip xs ys
zip _ _ = []

pub All-zip :
    {A : Type 0} (P : A → Type 0) (Q : A × A → Type 0) (xs : List A)
    → ((a : A) → P a → Q (a, a))
    → All P xs
    → All Q (zip xs xs)
All-zip P Q [] f h = tt
All-zip P Q (x ∷ xs) f (p, ps) = (f x p, All-zip P Q xs f ps)
