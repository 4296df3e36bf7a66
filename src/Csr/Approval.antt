-- ===== src/Csr/Approval.antt =====
-- What an approval by the handler rests on.
use oci_openshift_autoscalin.Base.{
  String, Bool, true, false, [], ◌∷◌, ◌||◌, ◌==◌, ◌≡◌, ◌⊎◌, ◌++◌, inl, inr, refl, sym, ap, ◌∙◌,
  arith, Result, ok, err, Check, Error, Bool-cases, Result-cases,
}
use mathlib.Core.List.{append_assoc}
use mathlib.Core.Path.{subst}
use oci_openshift_autoscalin.Base.Text.{is_nil}
use oci_openshift_autoscalin.Exec.{return, fail, proceed, ◌>>=◌}
use oci_openshift_autoscalin.Csr.{
  Csr, Node, CertRequest, Decoder, parse_csr_request, kubelet_serving_signer, is_csr_approved,
  is_csr_denied, is_supported_kubelet_csr, get_csr_hostname,
}
use oci_openshift_autoscalin.Csr.Identity.{Identified, get_csr_hostname-Identified}
use oci_openshift_autoscalin.Csr.Machines.{
  approvals, approvals-append, IsQuiet, IsQuiet-request, MachineListed, has_machine-IsQuiet,
  has_machine-MachineListed, MachineListed-Extends, Extends,
}
use oci_openshift_autoscalin.Csr.Serving.{Covers, check_serving_names-ok}
use oci_openshift_autoscalin.Csr.Handler.{
  get_csr, get_node, update_approval, CsrLog, CsrEnv, CsrConfig, request, approved,
  has_matching_oci_machine, validate_serving_csr, on_node, approve, on_validated, on_match,
  on_hostname, on_csr, reconcile_csr,
}

module _ (env : CsrEnv) (config : CsrConfig) (quote : String → String) (d : Decoder) where
  -- In this run, right before the approval, the node was read, and the names and addresses that the
  -- request asks for are its own.
  pub record NodeCovers (csr : Csr) (hostname : String) (run : CsrLog) : Type 0 where
    pub node : Node
    pub subject : CertRequest
    pub reading : CsrLog
    pub reads : (reading ++ get_node hostname ∷ []) ++ update_approval (approved csr) ∷ [] ≡ run
    pub read : env.get_node reading hostname ≡ ok node
    pub parsed : parse_csr_request quote d csr ≡ ok subject
    pub covers : Covers d node subject

  -- what an approval of `csr` in a run rests on
  pub record Justified (csr : Csr) (run : CsrLog) : Type 0 where
    pub open_request : is_csr_approved csr || is_csr_denied csr ≡ false
    pub supported : is_supported_kubelet_csr csr ≡ true
    pub hostname : String
    pub identified : Identified quote d csr hostname
    pub machine : MachineListed env config hostname run
    pub node : csr.signer_name == kubelet_serving_signer ≡ true → NodeCovers csr hostname run

  module _ (csr : Csr) where
    -- how a run stands after a stage: nothing is approved, or `csr` is, and then `P` holds
    abbrev Approves : (CsrLog → Type 0) → CsrLog → Type 0
    Approves P run = (approvals run ≡ []) ⊎ ((approvals run ≡ approved csr ∷ []) × P run)

    weaken :
        (P Q : CsrLog → Type 0) (run : CsrLog) → (P run → Q run) → Approves P run → Approves Q run
    weaken P Q run f (inl q) = inl q
    weaken P Q run f (inr (a, p)) = inr (a, f p)

    abbrev with_approval : CsrLog → CsrLog
    with_approval log = log ++ update_approval (approved csr) ∷ []

    approve_lem : (log : CsrLog) → IsQuiet log → approvals (with_approval log) ≡ approved csr ∷ []
    approve_lem log q = approvals-append log (update_approval (approved csr) ∷ []) ∙ rw q

    module _ (hostname : String) where
      abbrev with_node : CsrLog → CsrLog
      with_node log = log ++ get_node hostname ∷ []

      on_node-ok :
          (node : Node)
          → on_node env config quote d csr (ok node) hostname ≡ ok tt
          → (req : CertRequest) × (parse_csr_request quote d csr ≡ ok req) × Covers d node req
      on_node-ok node h = elim (Result-cases (parse_csr_request quote d csr)) [
        | inl (e, r) ↦ ground (arith, h, r)
        | inr (req, r) ↦
            (req, r, (check_serving_names-ok quote d node req).0 (rw (r, on_node) at h))
      ]

      validate_covers :
          (log : CsrLog)
          → (validate_serving_csr env config quote d csr hostname log).0 ≡ ok tt
          → NodeCovers csr hostname (with_approval (with_node log))
      unfolding validate_serving_csr ◌>>=◌ request
      validate_covers log h = elim (Result-cases (env.get_node log hostname)) [
        | inl (e, r) ↦ ground (arith, h, r)
        | inr (node, r) ↦
            let (req, p, c) = on_node-ok node (rw r at h) in
            record {
              node = node;
              subject = req;
              reading = log;
              reads = refl;
              read = r;
              parsed = p;
              covers = c;
            }
      ]

      on_validated-Approves :
          (valid : Check) (log : CsrLog) (P : CsrLog → Type 0)
          → (valid ≡ ok tt → P (with_approval log))
          → IsQuiet log
          → Approves P (on_validated env config quote d csr valid log).1
      unfolding on_validated approve request return
      on_validated-Approves (err e) log P p q = inl q
      on_validated-Approves (ok _) log P p q = inr (approve_lem log q, p refl)

      -- what the stage after the search for a machine adds to it
      abbrev Matched : Bool → CsrLog → CsrLog → Type 0
      Matched found log run =
          (found ≡ true)
          × (Extends log run
              × (csr.signer_name == kubelet_serving_signer ≡ true → NodeCovers csr hostname run))

      after_node : (log : CsrLog) → Extends log (with_approval (with_node log))
      after_node log = (
        get_node hostname ∷ update_approval (approved csr) ∷ [],
        sym (append_assoc log (get_node hostname ∷ []) (update_approval (approved csr) ∷ [])),
      )

      on_match-serving :
          (log : CsrLog)
          → csr.signer_name == kubelet_serving_signer ≡ true
          → on_match env config quote d csr hostname true log
            ≡ on_validated env config quote d csr
                (validate_serving_csr env config quote d csr hostname log).0
                (with_node log)
      unfolding on_match ◌>>=◌ validate_serving_csr request
      on_match-serving log serving = rw serving refl

      on_match-client :
          (log : CsrLog)
          → csr.signer_name == kubelet_serving_signer ≡ false
          → (on_match env config quote d csr hostname true log).1 ≡ with_approval log
      unfolding on_match approve request
      on_match-client log client = rw client refl

      on_match-Approves :
          (found : Bool) (log : CsrLog)
          → IsQuiet log
          → Approves (Matched found log) (on_match env config quote d csr hostname found log).1
      unfolding on_match return
      on_match-Approves false log q = inl q
      on_match-Approves true log q = elim (Bool-cases (csr.signer_name == kubelet_serving_signer)) [
        | inl serving ↦
            subst (λ r. Approves (Matched true log) r.1) (sym (on_match-serving log serving))
              (on_validated-Approves _ (with_node log) (Matched true log)
                (λ v. (refl, (after_node log, λ _. validate_covers log v)))
                (IsQuiet-request (get_node hostname) log refl q))
        | inr client ↦ subst (Approves (Matched true log)) (sym (on_match-client log client)) (
            inr (
              approve_lem log q,
              (refl, ((update_approval (approved csr) ∷ [], refl), λ s. cc (s, client))),
            ))
      ]

      abbrev Checked : CsrLog → Type 0
      Checked run =
          MachineListed env config hostname run
          × (csr.signer_name == kubelet_serving_signer ≡ true → NodeCovers csr hostname run)

      on_found-Approves :
          (r : Result Bool) (log : CsrLog)
          → IsQuiet log
          → (r ≡ ok true → MachineListed env config hostname log)
          → Approves Checked (proceed r (on_match env config quote d csr hostname) log).1
      on_found-Approves (err e) log q m = inl q
      on_found-Approves (ok found) log q m =
          weaken (Matched found log) Checked _
            (λ (f, (x, c)). (MachineListed-Extends env config hostname log _ x (m (ap ok f)), c))
            (on_match-Approves found log q)

    on_hostname-Approves :
        (name : Result String) (log : CsrLog)
        → IsQuiet log
        → get_csr_hostname quote d csr ≡ name
        → is_csr_approved csr || is_csr_denied csr ≡ false
        → is_supported_kubelet_csr csr ≡ true
        → Approves (Justified csr) (on_hostname env config quote d csr name log).1
    unfolding on_hostname ◌>>=◌
    on_hostname-Approves (err e) log q g o s = inl q
    on_hostname-Approves (ok hostname) log q g o s = elim (Bool-cases (is_nil hostname)) [
      | inl blank ↦ rw blank (inl q)
      | inr given ↦ rw given (
          weaken (Checked hostname) (Justified csr) _
            (λ (m, c). record {
              open_request = o;
              supported = s;
              hostname = hostname;
              identified = get_csr_hostname-Identified quote d csr hostname g given;
              machine = m;
              node = c;
            })
            (on_found-Approves hostname (has_matching_oci_machine env config hostname log).0 _
              (has_machine-IsQuiet env config hostname log q)
              (has_machine-MachineListed env config hostname log)))
    ]

    on_csr-Approves :
        (log : CsrLog)
        → IsQuiet log
        → Approves (Justified csr) (on_csr env config quote d (ok csr) log).1
    unfolding on_csr return
    on_csr-Approves log q = elim (Bool-cases (is_csr_approved csr || is_csr_denied csr)) [
      | inl done ↦ rw done (inl q)
      | inr o ↦ rw o (elim (Bool-cases (is_supported_kubelet_csr csr)) [
        | inr other ↦ rw other (inl q)
        | inl s ↦ rw s (on_hostname-Approves _ log q refl o s)
      ])
    ]

  on_error-IsQuiet :
      (e : Error) (log : CsrLog) → IsQuiet log → IsQuiet (on_csr env config quote d (err e) log).1
  unfolding on_csr return fail
  on_error-IsQuiet e log q = ground (arith, q)

  -- A run of the handler approves at most one request, and only the one that it was called for, as
  -- the cluster returned it: a request that is neither approved nor denied, of a kubelet, whose
  -- subject names a machine that this run has listed in a scope of the operator; and if it is for a
  -- serving certificate, this run has read the node right before the approval, every DNS name of
  -- the request is the node's name or a host name among its addresses, every IP address of the
  -- request is among its addresses, and there is at least one of them.
  pub approvals-Justified :
      (name : String)
      → let log = (reconcile_csr env config quote d name []).1 in
        (approvals log ≡ [])
        ⊎ ((csr : Csr) × (env.get_csr [] name ≡ ok csr)
            × (approvals log ≡ approved csr ∷ [])
            × Justified csr log)
  unfolding reconcile_csr ◌>>=◌ request
  approvals-Justified name = elim (Result-cases (env.get_csr [] name)) [
    | inl (e, r) ↦ rw r (inl (on_error-IsQuiet e _ refl))
    | inr (csr, r) ↦ rw r (elim (on_csr-Approves csr (get_csr name ∷ []) refl) [
      | inl q ↦ inl q
      | inr (a, j) ↦ inr (csr, refl, a, j)
    ])
  ]
