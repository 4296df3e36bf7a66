-- ===== src/Preserved/Webhooks.antt =====
-- What preserving the injected certificates of webhooks does the second time.
use oci_openshift_autoscalin.Base.{
  String, Bool, true, false, Option, none, some, List, [], ◌∷◌, ◌≡◌, refl, sym, ap, ◌∙◌, arith,
  eq_refl, eq_iff, All, if◌then◌else◌, ◌==◌,
}
use oci_openshift_autoscalin.Base.Text.{is_nil}
use oci_openshift_autoscalin.Preserved.{
  Webhook, is_named, current_ca_bundle, ca_bundle_for, take_ca_bundle, with_ca_bundles, is_set,
}

abbrev is_same : Option String → Webhook → Bool
is_same none w = false
is_same (some n) w = if is_nil n then false else is_named n w

-- No two webhooks have the same name, empty names aside.
abbrev pub IsDistinct : List Webhook → Type 0
IsDistinct [] = Unit
IsDistinct (w ∷ ws) = All (λ v. is_same w.name v ≡ false) ws × IsDistinct ws

abbrev filter_set : Option String → Option String
filter_set m = if is_set is_nil m then m else none

abbrev or_else : Option String → Option String → Option String
or_else none m = m
or_else (some b) m = some b

is_same-take_ca_bundle :
    (name : Option String) (w : Webhook) (m : Option String)
    → is_same name (take_ca_bundle w m) ≡ is_same name w
unfolding is_named take_ca_bundle
is_same-take_ca_bundle name w none = refl
is_same-take_ca_bundle name w (some b) = ground arith

abbrev same_name : Option String → Option String → Bool
same_name none b = false
same_name (some n) none = false
same_name (some n) (some k) = if is_nil n then false else if is_nil k then false else k == n

same_name_sym : (a b : Option String) → same_name a b ≡ same_name b a
same_name_sym none none = refl
same_name_sym none (some k) = refl
same_name_sym (some n) none = refl
same_name_sym (some n) (some k) = ground (arith, eq_iff k n, eq_iff n k)

is_same-same_name : (name : Option String) (w : Webhook) → is_same name w ≡ same_name name w.name
unfolding is_named
is_same-same_name none w = refl
is_same-same_name (some n) w = ground arith

same_name_itself : (a : Option String) → same_name a a ≡ is_set is_nil a
same_name_itself none = refl
same_name_itself (some n) = rw (eq_refl n) (ground arith)

is_same_sym : (v w : Webhook) → is_same w.name v ≡ false → is_same v.name w ≡ false
is_same_sym v w h =
    is_same-same_name v.name w ∙ same_name_sym v.name w.name ∙ sym (is_same-same_name w.name v) ∙ h

ca_bundle_for-cons :
    (name : Option String) (w : Webhook) (ws : List Webhook)
    → ca_bundle_for name (w ∷ ws)
      ≡ or_else (ca_bundle_for name ws) (if is_same name w then filter_set w.ca_bundle else none)
unfolding ca_bundle_for current_ca_bundle
ca_bundle_for-cons none w ws = refl
ca_bundle_for-cons (some n) w ws = ground arith

filter_set-or_else :
    (m : Option String) (same : Bool) (r : Option String)
    → filter_set m ≡ m
    → filter_set (or_else m (if same then filter_set r else none))
      ≡ or_else m (if same then filter_set r else none)
filter_set-or_else m same r h = ground (arith, h)

ca_bundle_for_nil : (name : Option String) → ca_bundle_for name [] ≡ none
unfolding ca_bundle_for current_ca_bundle
ca_bundle_for_nil none = refl
ca_bundle_for_nil (some n) = ground arith

ca_bundle_for_set :
    (name : Option String) (ws : List Webhook)
    → filter_set (ca_bundle_for name ws) ≡ ca_bundle_for name ws
ca_bundle_for_set name [] = rw (ca_bundle_for_nil name) refl
ca_bundle_for_set name (w ∷ ws) = rw (ca_bundle_for-cons name w ws) (
    filter_set-or_else (ca_bundle_for name ws) (is_same name w) w.ca_bundle
      (ca_bundle_for_set name ws))

ca_bundle_for_unnamed :
    (name : Option String) (ws : List Webhook)
    → is_set is_nil name ≡ false
    → ca_bundle_for name ws ≡ none
unfolding ca_bundle_for
ca_bundle_for_unnamed none ws h = refl
ca_bundle_for_unnamed (some n) ws h = ground (arith, h)

or_else-none : (m : Option String) → or_else m none ≡ m
or_else-none none = refl
or_else-none (some b) = refl

take-own :
    (w : Webhook) (named : Bool) (m : Option String)
    → filter_set m ≡ m
    → (named ≡ false → m ≡ none)
    → take_ca_bundle w (if named then filter_set (take_ca_bundle w m).ca_bundle else none)
      ≡ take_ca_bundle w m
unfolding take_ca_bundle
take-own w true none h unnamed = ground arith
take-own w true (some b) h unnamed = ground (arith, h)
take-own w false m h unnamed = rw (unnamed refl) refl

module _ (cs : List Webhook) where
  abbrev taken : Webhook → Webhook
  taken w = take_ca_bundle w (ca_bundle_for w.name cs)

  abbrev own : Webhook → Option String
  own w = if is_set is_nil w.name then filter_set (taken w).ca_bundle else none

  abbrev Found : List Webhook → Webhook → Type 0
  Found ps v = ca_bundle_for v.name ps ≡ own v

  take_again : (w : Webhook) → take_ca_bundle w (own w) ≡ taken w
  take_again w =
      take-own w (is_set is_nil w.name) (ca_bundle_for w.name cs) (ca_bundle_for_set w.name cs)
        (ca_bundle_for_unnamed w.name cs)

  absent :
      (name : Option String) (ws : List Webhook)
      → All (λ v. is_same name v ≡ false) ws
      → ca_bundle_for name (with_ca_bundles cs ws) ≡ none
  unfolding with_ca_bundles
  absent name [] h = ca_bundle_for_nil name
  absent name (w ∷ ws) (o, h) =
      rw
        (
          ca_bundle_for-cons name (taken w) (with_ca_bundles cs ws),
          absent name ws h,
          is_same-take_ca_bundle name w (ca_bundle_for w.name cs),
          o,
        )
        refl

  found_later :
      (w : Webhook) (ps vs : List Webhook)
      → All (λ v. is_same w.name v ≡ false) vs
      → All (Found ps) vs
      → All (Found (taken w ∷ ps)) vs
  found_later w ps [] other h = tt
  found_later w ps (v ∷ vs) (o, other) (m, h) = (
    ca_bundle_for-cons v.name (taken w) ps
        ∙ rw (m, is_same-take_ca_bundle v.name w (ca_bundle_for w.name cs), is_same_sym v w o)
            (or_else-none (own v)),
    found_later w ps vs other h,
  )

  found : (ws : List Webhook) → IsDistinct ws → All (Found (with_ca_bundles cs ws)) ws
  unfolding with_ca_bundles
  found [] h = tt
  found (w ∷ ws) (other, h) = (
    ca_bundle_for-cons w.name (taken w) (with_ca_bundles cs ws)
        ∙ rw (absent w.name ws other, is_same-take_ca_bundle w.name w (ca_bundle_for w.name cs))
            (ap (λ b. if b then filter_set (taken w).ca_bundle else none)
              (is_same-same_name w.name w ∙ same_name_itself w.name)),
    found_later w (with_ca_bundles cs ws) ws other (found ws h),
  )

  with_found :
      (ps ws : List Webhook) → All (Found ps) ws → with_ca_bundles ps ws ≡ with_ca_bundles cs ws
  unfolding with_ca_bundles
  with_found ps [] h = refl
  with_found ps (w ∷ ws) (m, h) = rw (m, take_again w, with_found ps ws h) refl

pub with_ca_bundles-IsDistinct :
    (cs ws : List Webhook)
    → IsDistinct ws
    → with_ca_bundles (with_ca_bundles cs ws) ws ≡ with_ca_bundles cs ws
with_ca_bundles-IsDistinct cs ws h = with_found cs (with_ca_bundles cs ws) ws (found cs ws h)

pub with_ca_bundles_nil : (ws : List Webhook) → with_ca_bundles [] ws ≡ ws
unfolding with_ca_bundles take_ca_bundle
with_ca_bundles_nil [] = refl
with_ca_bundles_nil (w ∷ ws) = rw (ca_bundle_for_nil w.name, with_ca_bundles_nil ws) refl
