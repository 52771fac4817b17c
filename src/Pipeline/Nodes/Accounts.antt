-- ===== src/Pipeline/Nodes/Accounts.antt =====
-- Which accounts an output has that the supervisor hands to the tributario.
use backend_pae_account_mult.Prelude.{
  ℕ, ◌+◌, ◌≡◌, refl, ◌∙◌, true, false, List, [], ◌∷◌, ◌++◌, ◌⊎◌, inl, inr, Option, none, some,
  arith,
}
use backend_pae_account_mult.Prelude.Texts.{strip}
use backend_pae_account_mult.Pipeline.State.{Agent, Output, AgentState, append_log}
use backend_pae_account_mult.Pipeline.Validator.{Schemas, ValidationResult, validate}
use backend_pae_account_mult.Pipeline.Puc.{
  Code, PucDb, exists, prefixes, class_defaults, first_existing, resolve_puc_code,
  missing_puc_codes, hydrate_contador_account_names, normalize_contador_puc_codes,
}
use backend_pae_account_mult.Pipeline.Nodes.{
  push_history, dumped, raw_contador, with_raw_contador, contador_accepted, contador_rejected,
  contador_missing_puc, contador_puc_rule, validate_contador_output_node,
}
use backend_pae_account_mult.Pipeline.Router.{waits_for_review, route_contador, after_contador}

first_existing-exists :
    (db : PucDb) (cs : List Code) {c : Code} → first_existing db cs ≡ some c → exists db c ≡ true
unfolding first_existing
first_existing-exists db [] h = cc
first_existing-exists db (cand ∷ rest) {c} h =
    ground (arith, h, first_existing-exists db rest {c = c})

-- A code that `_resolve_puc_code` gives is an active account, and a code that is an active account
-- stays as it is but for the spaces around it.
pub resolve_puc_code-exists :
    (db : PucDb) (raw : Code) {c : Code}
    → resolve_puc_code db raw ≡ some c
    → (exists db c ≡ true) × ((exists db (strip raw) ≡ false) ⊎ (c ≡ strip raw))
unfolding resolve_puc_code
resolve_puc_code-exists db raw {c} h =
    let code = strip raw in
    ground (arith, h, first_existing-exists db (prefixes code ++ class_defaults code) {c = c})

missing_cases :
    (m : Option (List Code))
    → (m ≡ some []) ⊎ ((m ≡ none) ⊎ ((c : Code) × (cs : List Code) × (m ≡ some (c ∷ cs))))
missing_cases none = inr (inl refl)
missing_cases (some []) = inl refl
missing_cases (some (c ∷ cs)) = inr (inr (c, cs, refl))

-- Nothing stops the hand-over of a state only where its output has all its accounts.
abbrev IsReady : PucDb → AgentState → Type 0
IsReady db t =
    t.correction_feedback ≡ none
    → waits_for_review t.current_agent ≡ false
    → t.failure ≡ none
    → missing_puc_codes db t.contador_output ≡ some []

contador_rejected-IsReady :
    (db : PucDb) (s : AgentState) (r : ValidationResult)
    → s.force_persist ≡ false
    → IsReady db (contador_rejected s r)
unfolding contador_rejected append_log
contador_rejected-IsReady db s r f = ground arith

contador_missing_puc-IsReady :
    (db : PucDb) (s : AgentState) (o : Output) (missing : List Code) (n : ℕ)
    → s.force_persist ≡ false
    → IsReady db (contador_missing_puc s o missing n)
unfolding contador_missing_puc append_log
contador_missing_puc-IsReady db s o missing n f = ground arith

contador_puc_rule-IsReady :
    (db : PucDb) (s : AgentState) (o : Output) (n : ℕ)
    → s.force_persist ≡ false
    → IsReady db (contador_puc_rule db s o n)
unfolding contador_puc_rule contador_accepted append_log
contador_puc_rule-IsReady db s o n f = elim (missing_cases (missing_puc_codes db o)) [
  | inl e ↦ ground (arith, e)
  | inr (inl e) ↦ ground (arith, e)
  | inr (inr (c, cs, e)) ↦ ground (arith, e, contador_missing_puc-IsReady db s o (c ∷ cs) n f)
]

push-force_persist :
    (s : AgentState) (raw : Output) (r : ValidationResult)
    → (push_history
        (append_log (with_raw_contador s raw) Agent.contador "validation_start")
        Agent.contador
        r).force_persist
      ≡ s.force_persist
unfolding append_log
push-force_persist s raw r = ground arith

validate_contador-IsReady :
    (schemas : Schemas) (db : PucDb) (s : AgentState)
    → s.force_persist ≡ false
    → IsReady db (validate_contador_output_node schemas db s)
unfolding validate_contador_output_node
validate_contador-IsReady schemas db s f =
    let raw = hydrate_contador_account_names db (raw_contador s) in
    let r = validate schemas Agent.contador raw (s.retry_count + 1) in
    let s' =
      push_history (append_log (with_raw_contador s raw) Agent.contador "validation_start")
        Agent.contador r in
    let f' = push-force_persist s raw r ∙ f in
    let o = normalize_contador_puc_codes db (dumped r raw) in
    ground (
      arith,
      contador_rejected-IsReady db s' r f',
      contador_puc_rule-IsReady db s' o (s.retry_count + 1) f',
    )

-- From the contador, the supervisor hands over to the tributario, unless the user forced the run, only
-- an output in which every account code of six digits or fewer is an active account.
pub route_contador-accounts :
    (schemas : Schemas) (db : PucDb) (s : AgentState)
    → s.force_persist ≡ false
    → (route_contador schemas db s).current_agent ≡ Agent.tributario
    → missing_puc_codes db (route_contador schemas db s).contador_output ≡ some []
unfolding route_contador after_contador append_log
route_contador-accounts schemas db s f h =
    ground (arith, h, validate_contador-IsReady schemas db s f)
