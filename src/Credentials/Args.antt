-- ===== src/Credentials/Args.antt =====
-- What setting an argument of a container does.
use oci_openshift_autoscalin.Base.{
  String, ◌<>◌, [], ◌∷◌, Option, none, some, List, ◌≡◌, ap, arith, if◌then◌else◌,
}
use oci_openshift_autoscalin.Base.Text.{has_prefix}
use oci_openshift_autoscalin.Base.Text.Prefix.{has_prefix-append}
use oci_openshift_autoscalin.Credentials.{set_or_replace_arg}

-- the first argument that starts with `prefix`
unfoldable pub find_arg : String → List (Option String) → Option String
find_arg prefix [] = none
find_arg prefix (none ∷ args) = find_arg prefix args
find_arg prefix (some s ∷ args) = if has_prefix s prefix then some s else find_arg prefix args

-- the arguments that do not start with `prefix`
unfoldable pub others : String → List (Option String) → List (Option String)
others prefix [] = []
others prefix (none ∷ args) = none ∷ others prefix args
others prefix (some s ∷ args) =
    let rest = others prefix args in if has_prefix s prefix then rest else some s ∷ rest

-- After an argument is set, the first one with its prefix is the one that was set.
find_arg-set_or_replace_arg :
    (args : List (Option String)) (prefix value : String)
    → find_arg prefix (set_or_replace_arg args prefix value) ≡ some (prefix <> value)
unfolding find_arg set_or_replace_arg
find_arg-set_or_replace_arg [] prefix value = rw (has_prefix-append prefix value)
find_arg-set_or_replace_arg (none ∷ args) prefix value =
    find_arg-set_or_replace_arg args prefix value
find_arg-set_or_replace_arg (some s ∷ args) prefix value =
    ground (arith, has_prefix-append prefix value, find_arg-set_or_replace_arg args prefix value)

set_or_replace_arg-others :
    (args : List (Option String)) (prefix value : String)
    → others prefix (set_or_replace_arg args prefix value) ≡ others prefix args
unfolding others set_or_replace_arg
set_or_replace_arg-others [] prefix value = rw (has_prefix-append prefix value)
set_or_replace_arg-others (none ∷ args) prefix value =
    ap (λ rest. none ∷ rest) (set_or_replace_arg-others args prefix value)
set_or_replace_arg-others (some s ∷ args) prefix value =
    ground (arith, has_prefix-append prefix value, set_or_replace_arg-others args prefix value)

-- Of two values set for one argument the later one is what is set.
set_or_replace_arg-set_or_replace_arg :
    (args : List (Option String)) (prefix value later : String)
    → set_or_replace_arg (set_or_replace_arg args prefix value) prefix later
      ≡ set_or_replace_arg args prefix later
unfolding set_or_replace_arg
set_or_replace_arg-set_or_replace_arg [] prefix value later = rw (has_prefix-append prefix value)
set_or_replace_arg-set_or_replace_arg (none ∷ args) prefix value later =
    ap (λ rest. none ∷ rest) (set_or_replace_arg-set_or_replace_arg args prefix value later)
set_or_replace_arg-set_or_replace_arg (some s ∷ args) prefix value later = ground (
  arith,
  has_prefix-append prefix value,
  set_or_replace_arg-set_or_replace_arg args prefix value later,
)

-- Setting an argument gives it this value: the first argument with the prefix has it, also when the
-- argument was not there before. The arguments without the prefix stay as they are, in their order.
-- Setting it again to another value is setting it to that value only.
pub set_or_replace_arg_lem :
    (args : List (Option String)) (prefix value later : String)
    → (find_arg prefix (set_or_replace_arg args prefix value) ≡ some (prefix <> value))
      × (others prefix (set_or_replace_arg args prefix value) ≡ others prefix args)
      × (set_or_replace_arg (set_or_replace_arg args prefix value) prefix later
          ≡ set_or_replace_arg args prefix later)
set_or_replace_arg_lem args prefix value later = (
  find_arg-set_or_replace_arg args prefix value,
  set_or_replace_arg-others args prefix value,
  set_or_replace_arg-set_or_replace_arg args prefix value later,
)
