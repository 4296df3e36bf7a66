-- ===== src/Csr/Identity.antt =====
-- What the host name of an accepted request stands for.
use Prim.Native.Nat.{ℕ}
use Prim.Native.Char.{code}
use Prim.Native.String.{[] as nil, ◌∷◌ as ◌∺◌}
use text.Mathlib.TextLemmas.{cons-append, nil-append}
use oci_openshift_autoscalin.Base.{
  String, ◌<>◌, Bool, true, false, ◌≡◌, refl, arith, eq_iff, if◌then◌else◌, not, ◌&&◌, eqb, errorf,
  ap, ◌∙◌, Result, ok, err, is_empty, ◌⊎◌, inl, inr, List, [], ◌∷◌, In, Bool-cases, ◌==◌,
}
use oci_openshift_autoscalin.Base.Text.{is_nil, before}
use oci_openshift_autoscalin.Base.Text.Prefix.{has_prefix-append, drop-append}
use oci_openshift_autoscalin.Csr.{
  Csr, CertRequest, Decoder, contains_string, system_nodes_group, node_prefix,
  node_bootstrapper_username, client_kubelet_signer, kubelet_serving_signer, cut_domain,
  extract_node_name, parse_csr_request, get_csr_hostname, get_hostname_from_client_kubelet_csr,
  get_hostname_from_serving_csr,
}

abbrev empty_host : Result String → Bool
empty_host (ok h) = is_nil h
empty_host (err e) = true

chosen :
    (a b : Bool) (m n : Result String) (h : String)
    → (if a then m else if b then n else ok "") ≡ ok h
    → is_nil h ≡ false
    → ((a ≡ true) × (m ≡ ok h)) ⊎ ((b ≡ true) × (n ≡ ok h))
chosen true b m n h e s = inl (refl, e)
chosen false true m n h e s = inr (refl, e)
chosen false false m n h e s = cc (ap empty_host e)

pub contains_string-In :
    (values : List String) (needle : String)
    → contains_string values needle ≡ true
    → In needle values
unfolding contains_string
contains_string-In [] needle h = ground (arith, h)
contains_string-In (value ∷ values) needle h = elim (Bool-cases (value == needle)) [
  | inl y ↦ inl ((eq_iff value needle).0 y)
  | inr n ↦ inr (contains_string-In values needle (rw n at h))
]

module _ (quote : String → String) where
  -- A name that is extracted is not empty.
  pub extract_node_name-ne-nil :
      (identity h : String) → extract_node_name quote identity ≡ ok h → is_nil h ≡ false
  unfolding extract_node_name
  extract_node_name-ne-nil identity h e = ground arith

  module _ (d : Decoder) where
    -- What a request must hold for its host name to be `h`.
    pub record ClientIdentity (csr : Csr) (req : CertRequest) (h : String) : Type 0 where
      pub username : csr.username ≡ node_bootstrapper_username
      pub organization : In system_nodes_group req.organization
      pub common_name : extract_node_name quote req.common_name ≡ ok h
      pub no_names :
          (is_empty req.dns_names ≡ true)
          × (is_empty req.ip_addresses ≡ true)
          × (is_empty req.email_addresses ≡ true)
          × (is_empty req.uris ≡ true)

    pub record ServingIdentity (csr : Csr) (req : CertRequest) (h : String) : Type 0 where
      pub username : extract_node_name quote csr.username ≡ ok h
      pub organization : In system_nodes_group req.organization
      pub common_name : extract_node_name quote req.common_name ≡ ok h

    ClientIdentity-of :
        (csr : Csr) (h : String) (parsed : Result CertRequest)
        → parse_csr_request quote d csr ≡ parsed
        → get_hostname_from_client_kubelet_csr quote d csr ≡ ok h
        → (req : CertRequest) × (parsed ≡ ok req) × ClientIdentity csr req h
    unfolding get_hostname_from_client_kubelet_csr
    ClientIdentity-of csr h (err e) p g = ground (arith, p, g)
    ClientIdentity-of csr h (ok req) p g = (
      req,
      refl,
      record {
        username = ground (arith, p, g, eq_iff csr.username node_bootstrapper_username);
        organization =
            contains_string-In req.organization system_nodes_group (ground (arith, p, g));
        common_name = ground (arith, p, g);
        no_names = ground (arith, p, g);
      },
    )

    serving_names_agree :
        (csr : Csr) (h : String) (req : CertRequest) (subject : Result String)
        → parse_csr_request quote d csr ≡ ok req
        → extract_node_name quote req.common_name ≡ subject
        → get_hostname_from_serving_csr quote d csr ≡ ok h
        → subject ≡ ok h
    unfolding get_hostname_from_serving_csr
    serving_names_agree csr h req (err e) p x g = ground (arith, p, x, g)
    serving_names_agree csr h req (ok s) p x g = ground (arith, p, x, g, eq_iff s h)

    ServingIdentity-of :
        (csr : Csr) (h : String) (parsed : Result CertRequest)
        → parse_csr_request quote d csr ≡ parsed
        → get_hostname_from_serving_csr quote d csr ≡ ok h
        → (req : CertRequest) × (parsed ≡ ok req) × ServingIdentity csr req h
    unfolding get_hostname_from_serving_csr
    ServingIdentity-of csr h (err e) p g = ground (arith, p, g)
    ServingIdentity-of csr h (ok req) p g = (
      req,
      refl,
      record {
        username = ground (arith, p, g);
        organization =
            contains_string-In req.organization system_nodes_group (ground (arith, p, g));
        common_name = serving_names_agree csr h req _ p refl g;
      },
    )

    -- A request whose identity was checked for its signer.
    pub data Identified (csr : Csr) (h : String) : Type 0 where
      client :
          (req : CertRequest)
          → csr.signer_name ≡ client_kubelet_signer
          → parse_csr_request quote d csr ≡ ok req
          → ClientIdentity csr req h
          → Identified csr h
      serving :
          (req : CertRequest)
          → csr.signer_name ≡ kubelet_serving_signer
          → parse_csr_request quote d csr ≡ ok req
          → ServingIdentity csr req h
          → Identified csr h

    client_or_serving :
        (csr : Csr) (h : String)
        → get_csr_hostname quote d csr ≡ ok h
        → is_nil h ≡ false
        → ((csr.signer_name ≡ client_kubelet_signer)
            × (get_hostname_from_client_kubelet_csr quote d csr ≡ ok h))
          ⊎ ((csr.signer_name ≡ kubelet_serving_signer)
              × (get_hostname_from_serving_csr quote d csr ≡ ok h))
    unfolding get_csr_hostname
    client_or_serving csr h g n =
        elim (chosen _ _ (get_hostname_from_client_kubelet_csr quote d csr)
          (get_hostname_from_serving_csr quote d csr) h g n) [
            | inl (s, c) ↦ inl ((eq_iff csr.signer_name client_kubelet_signer).0 s, c)
            | inr (s, c) ↦ inr ((eq_iff csr.signer_name kubelet_serving_signer).0 s, c)
          ]

    -- A host name that a request yields is the node that its subject names, in the group of the
    -- nodes; for a client the bootstrapper asked and no alternative names are requested, for a
    -- server the node itself asked.
    pub get_csr_hostname-Identified :
        (csr : Csr) (h : String)
        → get_csr_hostname quote d csr ≡ ok h
        → is_nil h ≡ false
        → Identified csr h
    get_csr_hostname-Identified csr h g n = elim (client_or_serving csr h g n) [
      | inl (s, c) ↦ let (req, p, i) = ClientIdentity-of csr h _ refl c in client req s p i
      | inr (s, c) ↦ let (req, p, i) = ServingIdentity-of csr h _ refl c in serving req s p i
    ]

-- no character of the text has the code `n`
abbrev pub free_of : ℕ → String → Bool
free_of n nil = true
free_of n (c ∺ s) = not (eqb (code c) n) && free_of n s

is_nil-append : (p s : String) → is_nil p ≡ false → is_nil (p <> s) ≡ false
is_nil-append nil s h = cc
is_nil-append (c ∺ p) s h = rw cons-append refl

before_of_free : (n : ℕ) (h : String) → free_of n h ≡ true → before n h ≡ h
unfolding before
before_of_free n nil e = refl
before_of_free n (c ∺ h) e = ground (arith, before_of_free n h)

before-append : (h domain : String) → free_of b'.' h ≡ true → before b'.' (h <> ("." <> domain)) ≡ h
unfolding before
before-append nil domain e = rw (nil-append, cons-append) refl
before-append (c ∺ h) domain e = rw cons-append (ground (arith, before-append h domain))

module _ (quote : String → String) where
  extract_node_name_of_prefixed :
      (p s : String)
      → p ≡ node_prefix
      → extract_node_name quote (p <> s) ≡ (
          let h = cut_domain s in
          if is_nil h then err (errorf "extracted hostname is empty") else ok h)
  unfolding extract_node_name
  extract_node_name_of_prefixed p s e =
      rw (← e, is_nil-append p s (rw e), has_prefix-append, drop-append) refl

  -- For a host that is not empty and has no dot, the node name of `system:node:<host>` and of
  -- `system:node:<host>.<domain>` is the host.
  pub extract_node_name_of_host :
      (h domain : String)
      → is_nil h ≡ false
      → free_of b'.' h ≡ true
      → (extract_node_name quote (node_prefix <> h) ≡ ok h)
        × (extract_node_name quote (node_prefix <> (h <> ("." <> domain))) ≡ ok h)
  extract_node_name_of_host h domain n f = (
    extract_node_name_of_prefixed node_prefix h refl ∙ rw (before_of_free b'.' h f, n, n) refl,
    extract_node_name_of_prefixed node_prefix (h <> ("." <> domain)) refl
        ∙ rw (before-append h domain f, n, n) refl,
  )
