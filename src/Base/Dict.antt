-- ===== src/Base/Dict.antt =====
-- Go's maps with text keys, as association lists. Go iterates over a map in no fixed order, so
-- what the model says of a map goes through `lookup`.
use oci_openshift_autoscalin.Base.{
  String, Option, none, some, List, [], ◌∷◌, ◌≡◌, refl, arith, ◌==◌, eq_iff, if◌then◌else◌,
}

abbrev pub Dict {ℓ} : Type ℓ → Type ℓ
Dict V = List (String × V)

module _ {ℓ} {V : Type ℓ} where
  -- `v, ok := m[key]`
  unfoldable pub lookup : String → Dict V → Option V
  lookup key [] = none
  lookup key ((k, v) ∷ m) = if k == key then some v else lookup key m

  -- `m[key] = value`
  unfoldable pub insert : String → V → Dict V → Dict V
  insert key v [] = (key, v) ∷ []
  insert key v ((k, w) ∷ m) = if k == key then (key, v) ∷ m else (k, w) ∷ insert key v m

  -- `delete(m, key)`
  unfoldable pub delete : String → Dict V → Dict V
  delete key [] = []
  delete key ((k, w) ∷ m) = let rest = delete key m in if k == key then rest else (k, w) ∷ rest

  -- `for key, value := range source { target[key] = value }`
  unfoldable pub copy_onto : Dict V → Dict V → Dict V
  unfolding insert
  copy_onto target [] = target
  copy_onto target ((k, v) ∷ source) = insert k v (copy_onto target source)

  pub lookup-insert :
      (j key : String) (v : V) (m : Dict V)
      → lookup j (insert key v m) ≡ (if key == j then some v else lookup j m)
  unfolding lookup insert
  lookup-insert j key v [] = refl
  lookup-insert j key v ((k, w) ∷ m) =
      ground (arith, eq_iff key j, eq_iff k key, eq_iff k j, lookup-insert j key v m)

  pub lookup-delete :
      (j key : String) (m : Dict V)
      → lookup j (delete key m) ≡ (if key == j then none else lookup j m)
  unfolding lookup delete
  lookup-delete j key [] = ground arith
  lookup-delete j key ((k, w) ∷ m) =
      ground (arith, eq_iff key j, eq_iff k key, eq_iff k j, lookup-delete j key m)

  abbrev pub or_else : Option V → Option V → Option V
  or_else none o = o
  or_else (some v) o = some v

  pub lookup-copy_onto :
      (j : String) (target source : Dict V)
      → lookup j (copy_onto target source) ≡ or_else (lookup j source) (lookup j target)
  unfolding copy_onto lookup
  lookup-copy_onto j target [] = refl
  lookup-copy_onto j target ((k, v) ∷ source) =
      ground
        (arith, lookup-insert j k v (copy_onto target source), lookup-copy_onto j target source)

  -- Writing what is there changes nothing.
  pub insert-lookup :
      (key : String) (v : V) (m : Dict V) → lookup key m ≡ some v → insert key v m ≡ m
  unfolding lookup insert
  insert-lookup key v [] h = cc h
  insert-lookup key v ((k, w) ∷ m) h = ground (arith, h, eq_iff k key, insert-lookup key v m)

-- the same map
abbrev pub Same : Dict String → Dict String → Type 0
Same m n = (j : String) → lookup j m ≡ lookup j n
