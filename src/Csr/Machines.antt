-- ===== src/Csr/Machines.antt =====
-- What the search for a machine calls and finds.
use oci_openshift_autoscalin.Base.{
  String, true, false, List, [], ◌∷◌, ◌++◌, ◌≡◌, inl, inr, refl, sym, ap, ◌∙◌, arith, ok, In,
  Bool-cases, Result-cases,
}
use mathlib.Core.List.{append-nil, append_assoc}
use oci_openshift_autoscalin.Api.{Autoscaler}
use oci_openshift_autoscalin.Singleton.{select_singleton_owner}
use oci_openshift_autoscalin.Exec.{◌>>=◌}
use oci_openshift_autoscalin.Csr.{Csr, contains_string}
use oci_openshift_autoscalin.Csr.Identity.{contains_string-In}
use oci_openshift_autoscalin.Csr.Handler.{
  CsrCall, get_csr, list_autoscalers, list_machines, get_node, update_approval, CsrLog, CsrEnv,
  CsrConfig, Scope, request, scopes_for, certificate_approval_scopes, match_in_scopes,
  has_matching_oci_machine,
}

-- the requests that the calls of a log approve
abbrev pub approvals : CsrLog → List Csr
approvals [] = []
approvals (update_approval csr ∷ log) = csr ∷ approvals log
approvals (get_csr _ ∷ log) = approvals log
approvals (list_autoscalers ∷ log) = approvals log
approvals (list_machines _ _ ∷ log) = approvals log
approvals (get_node _ ∷ log) = approvals log

pub approvals-append :
    (log log' : CsrLog) → approvals (log ++ log') ≡ approvals log ++ approvals log'
approvals-append [] log' = refl
approvals-append (update_approval csr ∷ log) log' = ap (λ l. csr ∷ l) (approvals-append log log')
approvals-append (get_csr _ ∷ log) log' = approvals-append log log'
approvals-append (list_autoscalers ∷ log) log' = approvals-append log log'
approvals-append (list_machines _ _ ∷ log) log' = approvals-append log log'
approvals-append (get_node _ ∷ log) log' = approvals-append log log'

abbrev pub IsQuiet : CsrLog → Type 0
IsQuiet log = approvals log ≡ []

pub IsQuiet-request :
    (call : CsrCall) (log : CsrLog)
    → approvals (call ∷ []) ≡ []
    → IsQuiet log
    → IsQuiet (log ++ call ∷ [])
IsQuiet-request call log c q = approvals-append log (call ∷ []) ∙ rw (q, c)

-- `more` comes after `log` in a run
abbrev pub Extends : CsrLog → CsrLog → Type 0
Extends log run = (more : CsrLog) × (log ++ more ≡ run)

-- `call` comes right after `log` in a run
abbrev pub Asks : CsrLog → CsrCall → CsrLog → Type 0
Asks log call run = Extends (log ++ call ∷ []) run

pub Extends-trans :
    (log run further : CsrLog) → Extends log run → Extends run further → Extends log further
Extends-trans log run further (m, e) (n, f) =
    (m ++ n, sym (append_assoc log m n) ∙ ap (λ l. l ++ n) e ∙ f)

module _ (env : CsrEnv) (config : CsrConfig) where
  -- In this run a machine with this name was listed in a scope of the operator: the namespace of the
  -- machines and the cluster name of the owner that was selected from a listing of the run.
  pub record MachineListed (hostname : String) (run : CsrLog) : Type 0 where
    pub scope : Scope
    pub machines : List String
    pub listing : CsrLog
    pub lists : Asks listing (list_machines scope.namespace scope.cluster_name) run
    pub listed : env.list_machines listing scope.namespace scope.cluster_name ≡ ok machines
    pub machine : In hostname machines
    pub owners : List Autoscaler
    pub owner_listing : CsrLog
    pub lists_owners : Asks owner_listing list_autoscalers run
    pub owners_listed : env.list_autoscalers owner_listing ≡ ok owners
    pub in_scope : In scope (scopes_for config (select_singleton_owner owners false))

  pub MachineListed-Extends :
      (hostname : String) (run further : CsrLog)
      → Extends run further
      → MachineListed hostname run
      → MachineListed hostname further
  MachineListed-Extends hostname run further x m = record {
    scope = m.scope;
    machines = m.machines;
    listing = m.listing;
    lists = Extends-trans _ run further m.lists x;
    listed = m.listed;
    machine = m.machine;
    owners = m.owners;
    owner_listing = m.owner_listing;
    lists_owners = Extends-trans _ run further m.lists_owners x;
    owners_listed = m.owners_listed;
    in_scope = m.in_scope;
  }

  module _ (hostname : String) where
    match_in_scopes-IsQuiet :
        (scopes : List Scope) (log : CsrLog)
        → IsQuiet log
        → IsQuiet (match_in_scopes env config hostname scopes log).1
    unfolding match_in_scopes ◌>>=◌ request
    match_in_scopes-IsQuiet [] log q = q
    match_in_scopes-IsQuiet (s ∷ scopes) log q =
        let q' = IsQuiet-request (list_machines s.namespace s.cluster_name) log refl q in
        elim (Result-cases (env.list_machines log s.namespace s.cluster_name)) [
          | inl (e, h) ↦ rw h q'
          | inr (machines, h) ↦ rw h (elim (Bool-cases (contains_string machines hostname)) [
            | inl y ↦ rw y q'
            | inr n ↦ rw n (match_in_scopes-IsQuiet scopes _ q')
          ])
        ]

    match_in_scopes-Extends :
        (scopes : List Scope) (log : CsrLog)
        → Extends log (match_in_scopes env config hostname scopes log).1
    unfolding match_in_scopes ◌>>=◌ request
    match_in_scopes-Extends [] log = ([], append-nil log)
    match_in_scopes-Extends (s ∷ scopes) log =
        let call : CsrLog = list_machines s.namespace s.cluster_name ∷ [] in
        let here : Extends log (log ++ call) = (call, refl) in
        elim (Result-cases (env.list_machines log s.namespace s.cluster_name)) [
          | inl (e, h) ↦ rw h here
          | inr (machines, h) ↦ rw h (elim (Bool-cases (contains_string machines hostname)) [
            | inl y ↦ rw y here
            | inr n ↦ rw n (
                Extends-trans log (log ++ call) _ here
                  (match_in_scopes-Extends scopes (log ++ call)))
          ])
        ]

    -- what a positive match in a list of scopes stands for
    abbrev Found : List Scope → CsrLog → Type 0
    Found scopes run =
        (s : Scope) × In s scopes
        × (log : CsrLog) × (machines : List String) × Asks log
            (list_machines s.namespace s.cluster_name) run
        × (env.list_machines log s.namespace s.cluster_name ≡ ok machines)
        × (contains_string machines hostname ≡ true)

    match_in_scopes-Found :
        (scopes : List Scope) (log : CsrLog)
        → (match_in_scopes env config hostname scopes log).0 ≡ ok true
        → Found scopes (match_in_scopes env config hostname scopes log).1
    unfolding match_in_scopes ◌>>=◌ request
    match_in_scopes-Found [] log h = ground (arith, h)
    match_in_scopes-Found (s ∷ scopes) log h =
        elim (Result-cases (env.list_machines log s.namespace s.cluster_name)) [
          | inl (e, r) ↦ ground (arith, h, r)
          | inr (machines, r) ↦ elim (Bool-cases (contains_string machines hostname)) [
            | inl y ↦ (s, inl refl, log, machines, rw (r, y) ([], append-nil _), r, y)
            | inr n ↦
                let (t, i, l, m, k, a, b) = match_in_scopes-Found scopes _ (rw n at (rw r at h)) in
                (t, inr i, l, m, rw (r, n) k, a, b)
          ]
        ]

    pub has_machine-IsQuiet :
        (log : CsrLog) → IsQuiet log → IsQuiet (has_matching_oci_machine env config hostname log).1
    unfolding has_matching_oci_machine certificate_approval_scopes ◌>>=◌ request
    has_machine-IsQuiet log q =
        let q' = IsQuiet-request list_autoscalers log refl q in
        elim (Result-cases (env.list_autoscalers log)) [
          | inl (e, r) ↦ rw r q'
          | inr (items, r) ↦ rw r (
              match_in_scopes-IsQuiet (scopes_for config (select_singleton_owner items false))
                (log ++ list_autoscalers ∷ []) q')
        ]

    -- A match is a machine of that name, listed in a scope of the operator.
    pub has_machine-MachineListed :
        (log : CsrLog)
        → (has_matching_oci_machine env config hostname log).0 ≡ ok true
        → MachineListed hostname (has_matching_oci_machine env config hostname log).1
    unfolding has_matching_oci_machine certificate_approval_scopes ◌>>=◌ request
    has_machine-MachineListed log h = elim (Result-cases (env.list_autoscalers log)) [
      | inl (e, r) ↦ ground (arith, h, r)
      | inr (items, r) ↦
          let scopes = scopes_for config (select_singleton_owner items false) in
          let (s, i, l, m, k, a, b) =
            match_in_scopes-Found scopes (log ++ list_autoscalers ∷ []) (rw r at h) in
          record {
            scope = s;
            machines = m;
            listing = l;
            lists = rw r k;
            listed = a;
            machine = contains_string-In m hostname b;
            owners = items;
            owner_listing = log;
            lists_owners = rw r (match_in_scopes-Extends scopes (log ++ list_autoscalers ∷ []));
            owners_listed = r;
            in_scope = i;
          }
    ]
