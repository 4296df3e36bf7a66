-- ===== src/Singleton/Owner.antt =====
-- Which of the listed resources is selected as the owner.
use oci_openshift_autoscalin.Base.{
  Bool, true, false, none, some, List, [], ◌∷◌, ◌≡◌, ◌⊎◌, inl, inr, ◌↔◌, refl, All, In, All-In,
  All-In_converse, All-map, Bool-cases,
}
use mathlib.Core.Path.{subst}
use mathlib.Core.Option.{Option, some-injective}
use oci_openshift_autoscalin.Api.{Autoscaler}
use oci_openshift_autoscalin.Singleton.{
  older, key, candidates, is_deleting, insert_sorted, sort_candidates, first,
  select_singleton_owner,
}
use oci_openshift_autoscalin.Singleton.Order.{
  older-false_trans, older_trans, older_irrefl, older_total,
}

older_asym : (a b : Autoscaler) → older a b ≡ true → older b a ≡ false
older_asym a b h = elim (Bool-cases (older b a)) [
  | inr n ↦ n
  | inl y ↦ cc (older_irrefl a, older_trans a b a h y)
]

module _ (P : Autoscaler → Type 0) where
  insert_sorted-All :
      (a : Autoscaler) (l : List Autoscaler) → P a → All P l → All P (insert_sorted a l)
  unfolding insert_sorted
  insert_sorted-All a [] p ps = (p, tt)
  insert_sorted-All a (b ∷ l) p (q, ps) = elim (Bool-cases (older b a)) [
    | inl y ↦ rw y (q, insert_sorted-All a l p ps)
    | inr n ↦ rw n (p, (q, ps))
  ]

  sort_candidates-All : (l : List Autoscaler) → All P l → All P (sort_candidates l)
  unfolding sort_candidates
  sort_candidates-All [] _ = tt
  sort_candidates-All (a ∷ l) (p, ps) =
      insert_sorted-All a (sort_candidates l) p (sort_candidates-All l ps)

  -- The other way round: what holds of the sorted list holds of the list.
  All-insert_sorted :
      (a : Autoscaler) (l : List Autoscaler) → All P (insert_sorted a l) → P a × All P l
  unfolding insert_sorted
  All-insert_sorted a [] (p, _) = (p, tt)
  All-insert_sorted a (b ∷ l) h = elim (Bool-cases (older b a)) [
    | inl y ↦ let (q, r) = (rw y at h) in let (p, ps) = All-insert_sorted a l r in (p, (q, ps))
    | inr n ↦ let (p, ps) = (rw n at h) in (p, ps)
  ]

  All-sort_candidates : (l : List Autoscaler) → All P (sort_candidates l) → All P l
  unfolding sort_candidates
  All-sort_candidates [] _ = tt
  All-sort_candidates (a ∷ l) h =
      let (p, ps) = All-insert_sorted a (sort_candidates l) h in (p, All-sort_candidates l ps)

-- No element of the list is older than its head.
abbrev IsLed : List Autoscaler → Type 0
IsLed [] = Unit
IsLed (h ∷ t) = All (λ x. older x h ≡ false) t

insert_sorted-IsLed : (a : Autoscaler) (l : List Autoscaler) → IsLed l → IsLed (insert_sorted a l)
unfolding insert_sorted
insert_sorted-IsLed a [] h = tt
insert_sorted-IsLed a (b ∷ l) h = elim (Bool-cases (older b a)) [
  | inl y ↦ rw y (insert_sorted-All (λ x. older x b ≡ false) a l (older_asym b a y) h)
  | inr n ↦ rw n (n, All-map _ _ l (λ x p. older-false_trans x b a p n) h)
]

sort_candidates-IsLed : (l : List Autoscaler) → IsLed (sort_candidates l)
unfolding sort_candidates
sort_candidates-IsLed [] = tt
sort_candidates-IsLed (a ∷ l) = insert_sorted-IsLed a (sort_candidates l) (sort_candidates-IsLed l)

first-All :
    (P : Autoscaler → Type 0) (l : List Autoscaler) (a : Autoscaler)
    → first l ≡ some a
    → All P l
    → P a
first-All P [] a e h = cc
first-All P (b ∷ l) a e (p, _) = rw (← some-injective b a e) p

first-IsLed :
    (l : List Autoscaler) (a : Autoscaler)
    → first l ≡ some a
    → IsLed l
    → All (λ x. older x a ≡ false) l
first-IsLed [] a e h = cc
first-IsLed (b ∷ l) a e h =
    subst (λ x. All (λ y. older y x ≡ false) (b ∷ l)) (some-injective b a e) (older_irrefl b, h)

abbrev pub MayOwn : Bool → Autoscaler → Type 0
MayOwn include_deleting a = (include_deleting ≡ true) ⊎ (is_deleting a ≡ false)

candidates-All :
    (P : Autoscaler → Type 0) (items : List Autoscaler) (inc : Bool)
    → All P items
    → All (λ a. P a × MayOwn inc a) (candidates items inc)
unfolding candidates
candidates-All P [] inc h = tt
candidates-All P (a ∷ items) true (p, ps) = ((p, inl refl), candidates-All P items true ps)
candidates-All P (a ∷ items) false (p, ps) = elim (Bool-cases (is_deleting a)) [
  | inl y ↦ rw y (candidates-All P items false ps)
  | inr n ↦ rw n ((p, inr n), candidates-All P items false ps)
]

In-candidates :
    (a : Autoscaler) (items : List Autoscaler) (inc : Bool)
    → In a items
    → MayOwn inc a
    → In a (candidates items inc)
unfolding candidates
In-candidates a [] inc i m = elim i [ ]
In-candidates a (b ∷ items) true (inl e) m = inl e
In-candidates a (b ∷ items) true (inr i) m = inr (In-candidates a items true i m)
In-candidates a (b ∷ items) false (inl e) (inl f) = cc
In-candidates a (b ∷ items) false (inl e) (inr n) = rw (e, n) (inl refl)
In-candidates a (b ∷ items) false (inr i) m = elim (Bool-cases (is_deleting b)) [
  | inl y ↦ rw y (In-candidates a items false i m)
  | inr n ↦ rw n (inr (In-candidates a items false i m))
]

abbrev pub IsOwner : List Autoscaler → Bool → Autoscaler → Type 0
IsOwner items inc a =
    In a items × MayOwn inc a × ((b : Autoscaler) → In b items → MayOwn inc b → older b a ≡ false)

-- The selected owner is a listed object that may own, and no listed object that may own is older.
pub select_singleton_owner-IsOwner :
    (items : List Autoscaler) (inc : Bool) (a : Autoscaler)
    → select_singleton_owner items inc ≡ some a
    → IsOwner items inc a
select_singleton_owner-IsOwner items inc a e =
    let all = candidates-All (λ x. In x items) items inc (All-In_converse _ items (λ x i. i)) in
    let l = candidates items inc in
    let (listed, may) =
      first-All (λ x. In x items × MayOwn inc x) (sort_candidates l) a
        (unfold select_singleton_owner in e) (sort_candidates-All _ l all) in
    let oldest =
      All-sort_candidates (λ x. older x a ≡ false) l
        (first-IsLed (sort_candidates l) a (unfold select_singleton_owner in e)
          (sort_candidates-IsLed l)) in
    (
      listed,
      may,
      λ b i m. All-In (λ x. older x a ≡ false) b l oldest (In-candidates b items inc i m),
    )

first-none : (l : List Autoscaler) → first l ≡ none → All (λ _. ⊥) l
first-none [] e = tt
first-none (a ∷ l) e = cc

-- No owner is selected only if no listed object may own.
pub select_singleton_owner-none :
    (items : List Autoscaler) (inc : Bool)
    → select_singleton_owner items inc ≡ none
    → (b : Autoscaler) → In b items
    → MayOwn inc b
    → ⊥
unfolding select_singleton_owner
select_singleton_owner-none items inc e b i m =
    let l = candidates items inc in
    All-In (λ _. ⊥) b l (All-sort_candidates _ l (first-none (sort_candidates l) e))
      (In-candidates b items inc i m)

owner_or_none : (r : Option Autoscaler) → (r ≡ none) ⊎ ((a : Autoscaler) × (r ≡ some a))
owner_or_none none = inl refl
owner_or_none (some a) = inr (a, refl)

-- If one of two listings with the same objects, in any order and with any repetitions, has an owner,
-- the other one has an owner of the same namespace and name.
pub select_singleton_owner-agrees :
    (items items' : List Autoscaler) (inc : Bool) (a : Autoscaler)
    → ((b : Autoscaler) → In b items ↔ In b items')
    → select_singleton_owner items inc ≡ some a
    → (a' : Autoscaler) × (select_singleton_owner items' inc ≡ some a') × (key a ≡ key a')
select_singleton_owner-agrees items items' inc a same e =
    let (i, m, oldest) = select_singleton_owner-IsOwner items inc a e in
    elim (owner_or_none (select_singleton_owner items' inc)) [
      | inl none' ↦ absurd (select_singleton_owner-none items' inc none' a ((same a).0 i) m)
      | inr (a', e') ↦
          let (i', m', oldest') = select_singleton_owner-IsOwner items' inc a' e' in
          (a', e', older_total a a' (oldest' a ((same a).0 i) m) (oldest a' ((same a').1 i') m'))
    ]
