-- ===== src/Preserved/Ports.antt =====
-- What preserving the node ports of a Service does the second time.
use oci_openshift_autoscalin.Base.{
  ℕ, eqb, true, false, Option, none, some, List, [], ◌∷◌, ◌≡◌, refl, ap, arith, eq_refl, All, ◌==◌,
  String,
}
use oci_openshift_autoscalin.Preserved.{
  ServicePort, same_port, same_option, matching_service_port, take_node_port, with_node_ports,
}

-- No two ports have the same name, number and protocol.
abbrev pub IsDistinct : List ServicePort → Type 0
IsDistinct [] = Unit
IsDistinct (d ∷ ds) = All (λ v. same_port v d ≡ false) ds × IsDistinct ds

same_name_refl : (s : Option String) → same_option (λ a b. a == b) s s ≡ true
same_name_refl none = refl
same_name_refl (some s) = eq_refl s

same_number_refl : (n : Option ℕ) → same_option eqb n n ≡ true
same_number_refl none = refl
same_number_refl (some n) = ground arith

same_port_refl : (d : ServicePort) → same_port d d ≡ true
unfolding same_port
same_port_refl d = rw (same_name_refl d.name, same_number_refl d.port) (eq_refl _)

same_port-take_node_port :
    (v d : ServicePort) (m : Option ServicePort) → same_port v (take_node_port d m) ≡ same_port v d
unfolding same_port take_node_port
same_port-take_node_port v d none = refl
same_port-take_node_port v d (some c) = ground arith

take_again :
    (d : ServicePort) (m : Option ServicePort)
    → take_node_port d (some (take_node_port d m)) ≡ take_node_port d m
unfolding take_node_port
take_again d none = ground arith
take_again d (some c) = ground arith

module _ (cs : List ServicePort) where
  abbrev taken : ServicePort → ServicePort
  taken d = take_node_port d (matching_service_port d cs)

  abbrev Matched : List ServicePort → ServicePort → Type 0
  Matched ps v = matching_service_port v ps ≡ some (taken v)

  later_port :
      (d : ServicePort) (ps vs : List ServicePort)
      → All (λ v. same_port v d ≡ false) vs
      → All (Matched ps) vs
      → All (Matched (taken d ∷ ps)) vs
  unfolding matching_service_port
  later_port d ps [] other h = tt
  later_port d ps (v ∷ vs) (o, other) (m, h) = (
    rw (same_port-take_node_port v d (matching_service_port d cs), o) m,
    later_port d ps vs other h,
  )

  matched : (ds : List ServicePort) → IsDistinct ds → All (Matched (with_node_ports cs ds)) ds
  unfolding with_node_ports matching_service_port
  matched [] h = tt
  matched (d ∷ ds) (other, h) = (
    rw (same_port-take_node_port d d (matching_service_port d cs), same_port_refl d) refl,
    later_port d (with_node_ports cs ds) ds other (matched ds h),
  )

  node_ports_settled :
      (ps ds : List ServicePort)
      → All (Matched ps) ds
      → with_node_ports ps ds ≡ with_node_ports cs ds
  unfolding with_node_ports
  node_ports_settled ps [] h = refl
  node_ports_settled ps (d ∷ ds) (m, h) =
      rw (m, take_again d (matching_service_port d cs), node_ports_settled ps ds h) refl

pub with_node_ports-IsDistinct :
    (cs ds : List ServicePort)
    → IsDistinct ds
    → with_node_ports (with_node_ports cs ds) ds ≡ with_node_ports cs ds
with_node_ports-IsDistinct cs ds h =
    node_ports_settled cs (with_node_ports cs ds) ds (matched cs ds h)

pub with_node_ports_nil : (ds : List ServicePort) → with_node_ports [] ds ≡ ds
unfolding with_node_ports matching_service_port take_node_port
with_node_ports_nil [] = refl
with_node_ports_nil (d ∷ ds) = ap (λ r. d ∷ r) (with_node_ports_nil ds)
