-- ===== src/Csr/Serving.antt =====
-- Which names and addresses a serving certificate may have.
use oci_openshift_autoscalin.Base.{
  String, Bool, true, false, List, [], ◌∷◌, ◌≡◌, refl, arith, eq_iff, ◌&&◌, ◌||◌, ◌==◌, ◌↔◌, ◌⊎◌,
  inl, inr, Bool-cases, sym, ap, ◌∙◌, if◌then◌else◌, ok, err, Error, Check, reject_if, All, All-map,
  In, is_empty, some, none, Option,
}
use mathlib.Core.Path.{subst}
use oci_openshift_autoscalin.Base.Bind.{◌>>◌}
use oci_openshift_autoscalin.Csr.{
  Node, NodeAddress, CertRequest, Decoder, check_each, check_serving_names, allowed_node_dns_name,
  allowed_node_ip, names_host, in_dns_addresses, holds_ip, parsed_as, in_ip_addresses,
}

-- the node's own name, or an address of it that is a host name
abbrev pub IsHostOf : Node → String → Type 0
IsHostOf node name =
    (node.name ≡ name)
    ⊎ ((a : NodeAddress) × In a node.addresses
        × (In a.type ("Hostname" ∷ "InternalDNS" ∷ "ExternalDNS" ∷ []) × (a.address ≡ name)))

-- an address of the node that is an IP address
abbrev pub IsIpOf : Decoder → Node → String → Type 0
IsIpOf d node ip =
    (a : NodeAddress) × In a node.addresses
    × (In a.type ("InternalIP" ∷ "ExternalIP" ∷ []) × (d.parse_ip a.address ≡ some ip))

-- The request has names or addresses, and all of them are the node's.
pub record Covers (d : Decoder) (node : Node) (req : CertRequest) : Type 0 where
  pub some_name : is_empty req.dns_names && is_empty req.ip_addresses ≡ false
  pub hosts : All (IsHostOf node) req.dns_names
  pub addresses : All (IsIpOf d node) req.ip_addresses

module _ (a : NodeAddress) where
  names_host-In :
      (names_host a ≡ true) ↔ In a.type ("Hostname" ∷ "InternalDNS" ∷ "ExternalDNS" ∷ [])
  names_host-In = (
    λ h. ground (
      arith,
      h,
      eq_iff a.type "Hostname",
      eq_iff a.type "InternalDNS",
      eq_iff a.type "ExternalDNS",
    ),
    λ h. ground (
      arith,
      h,
      eq_iff a.type "Hostname",
      eq_iff a.type "InternalDNS",
      eq_iff a.type "ExternalDNS",
    ),
  )

  holds_ip-In : (holds_ip a ≡ true) ↔ In a.type ("InternalIP" ∷ "ExternalIP" ∷ [])
  holds_ip-In = (
    λ h. ground (arith, h, eq_iff a.type "InternalIP", eq_iff a.type "ExternalIP"),
    λ h. ground (arith, h, eq_iff a.type "InternalIP", eq_iff a.type "ExternalIP"),
  )

  parsed_as-some :
      (d : Decoder) (ip : String)
      → (parsed_as d a.address ip ≡ true) ↔ (d.parse_ip a.address ≡ some ip)
  parsed_as-some d ip = parsed_case (d.parse_ip a.address)
    where
      parsed_case :
          (r : Option String)
          → ((elim r [ none ↦ false | some text ↦ text == ip ]) ≡ true) ↔ (r ≡ some ip)
      parsed_case none = (λ h. ground (arith, h), λ h. ground (arith, h))
      parsed_case (some text) =
          (λ h. ground (arith, h, eq_iff text ip), λ h. ground (arith, h, eq_iff text ip))

-- a loop over the addresses of a node, with its test of one address
first_address :
    (P : NodeAddress → Type 0) (test : NodeAddress → Bool) (search : List NodeAddress → Bool)
    → search [] ≡ false
    → ((a : NodeAddress) (l : List NodeAddress)
        → search (a ∷ l) ≡ (if test a then true else search l))
    → ((a : NodeAddress) → (test a ≡ true) ↔ P a)
    → (l : List NodeAddress) → (search l ≡ true) ↔ ((a : NodeAddress) × In a l × P a)
first_address P test search empty step spec [] =
    (λ h. ground (arith, h, empty), λ (a, i, p). elim i [ ])
first_address P test search empty step spec (a ∷ l) =
    let later = first_address P test search empty step spec l in
    (
      λ h. elim (Bool-cases (test a)) [
        | inl y ↦ (a, inl refl, (spec a).0 y)
        | inr n ↦
            let (b, i, p) =
              later.0 (ap (λ t. if t then true else search l) (sym n) ∙ sym (step a l) ∙ h) in
            (b, inr i, p)
      ],
      λ (b, i, p). elim i [
        | inl e ↦ step a l ∙ ap (λ t. if t then true else search l) ((spec a).1 (subst P (sym e) p))
        | inr j ↦ step a l ∙ either (test a) (search l) (later.1 (b, j, p))
      ],
    )
  where
    either : (t s : Bool) → s ≡ true → (if t then true else s) ≡ true
    either true s h = refl
    either false s h = h

check_each-ok :
    (allowed : String → Bool) (complaint : String → Error) (xs : List String)
    → (check_each allowed complaint xs ≡ ok tt) ↔ All (λ x. allowed x ≡ true) xs
unfolding check_each
check_each-ok allowed complaint [] = (λ _. tt, λ _. refl)
check_each-ok allowed complaint (x ∷ xs) = (
  λ h. ground (arith, check_each-ok allowed complaint xs),
  λ h. ground (arith, check_each-ok allowed complaint xs),
)

both_checks :
    (b : Bool) (e : Error) (m n : Check)
    → ((do reject_if b e; m; n) ≡ ok tt) ↔ ((b ≡ false) × (m ≡ ok tt) × (n ≡ ok tt))
both_checks true e m n = (λ h. ground arith, λ h. ground arith)
both_checks false e (err f) n = (λ h. ground arith, λ h. ground arith)
both_checks false e (ok _) n = (λ h. (refl, refl, h), λ h. h.2)

both_iff : {P Q : Type 0} {b c : Bool} → (b ≡ true) ↔ P → (c ≡ true) ↔ Q → (b && c ≡ true) ↔ (P × Q)
both_iff {b = true} {c = true} p q = (λ h. (p.0 refl, q.0 refl), λ h. refl)
both_iff {b = true} {c = false} p q = (λ h. absurd (ground (arith, h)), λ h. q.1 h.1)
both_iff {b = false} p q = (λ h. absurd (ground (arith, h)), λ h. p.1 h.0)

either_iff :
    {P Q : Type 0} {b c : Bool} → (b ≡ true) ↔ P → (c ≡ true) ↔ Q → (b || c ≡ true) ↔ (P ⊎ Q)
either_iff {b = true} p q = (λ h. inl (p.0 refl), λ h. refl)
either_iff {b = false} p q =
    (λ h. inr (q.0 h), λ h. elim h [ inl x ↦ absurd (ground (arith, p.1 x)) | inr y ↦ q.1 y ])

allowed_node_dns_name-IsHostOf :
    (node : Node) (name : String) → (allowed_node_dns_name node name ≡ true) ↔ IsHostOf node name
unfolding allowed_node_dns_name
allowed_node_dns_name-IsHostOf node name = either_iff (eq_iff node.name name) (
    first_address
      (λ a. In a.type ("Hostname" ∷ "InternalDNS" ∷ "ExternalDNS" ∷ []) × (a.address ≡ name))
      (λ a. names_host a && a.address == name) (λ l. in_dns_addresses l name) refl (λ a l. refl)
      (λ a. both_iff (names_host-In a) (eq_iff a.address name)) node.addresses)

allowed_node_ip-IsIpOf :
    (d : Decoder) (node : Node) (ip : String)
    → (allowed_node_ip d node ip ≡ true) ↔ IsIpOf d node ip
unfolding allowed_node_ip
allowed_node_ip-IsIpOf d node ip =
    first_address
      (λ a. In a.type ("InternalIP" ∷ "ExternalIP" ∷ []) × (d.parse_ip a.address ≡ some ip))
      (λ a. holds_ip a && parsed_as d a.address ip) (λ l. in_ip_addresses d l ip) refl (λ a l. refl)
      (λ a. both_iff (holds_ip-In a) (parsed_as-some a d ip)) node.addresses

module _ (quote : String → String) (d : Decoder) where
  -- The names are accepted exactly when there is one, every DNS name is the node's name or a host
  -- name among its addresses, and every IP address is among its addresses.
  pub check_serving_names-ok :
      (node : Node) (req : CertRequest)
      → (check_serving_names quote d node req ≡ ok tt) ↔ Covers d node req
  unfolding check_serving_names
  check_serving_names-ok node req =
      let both = both_checks _ _ _ _ in
      let dns = check_each-ok (allowed_node_dns_name node) _ req.dns_names in
      let ips = check_each-ok (allowed_node_ip d node) _ req.ip_addresses in
      let host = allowed_node_dns_name-IsHostOf node in
      let ip = allowed_node_ip-IsIpOf d node in
      (
        λ h.
            let (some_name, m, n) = both.0 h in
            record {
              some_name = some_name;
              hosts = All-map _ _ req.dns_names (λ x. (host x).0) (dns.0 m);
              addresses = All-map _ _ req.ip_addresses (λ x. (ip x).0) (ips.0 n);
            },
        λ c. both.1 (
          c.some_name,
          dns.1 (All-map _ _ req.dns_names (λ x. (host x).1) c.hosts),
          ips.1 (All-map _ _ req.ip_addresses (λ x. (ip x).1) c.addresses),
        ),
      )
