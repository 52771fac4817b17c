-- ===== src/Pipeline/Findings/Buckets.antt =====
-- Where the findings of a report go.
use backend_pae_account_mult.Prelude.{
  ◌≡◌, refl, sym, ap, Bool, not, List, [], ◌∷◌, ◌++◌, filter, arith,
}
use backend_pae_account_mult.Pipeline.Audit.{AuditFinding, AuditReport, is_unfixable_blocker}
use backend_pae_account_mult.Pipeline.State.{AgentState, append_log}
use backend_pae_account_mult.Pipeline.Findings.{
  append_finding, append_findings, push_report, append_audit_report,
}
use backend_pae_account_mult.Pipeline.Findings.Frame.{append_audit_report-reports}

abbrev pub is_warning : AuditFinding → Bool
is_warning f = not (is_unfixable_blocker f)

append_assoc : (xs ys zs : List AuditFinding) → (xs ++ ys) ++ zs ≡ xs ++ (ys ++ zs)
append_assoc [] ys zs = refl
append_assoc (x ∷ xs) ys zs = ap (λ l. x ∷ l) (append_assoc xs ys zs)

append_nil : (xs : List AuditFinding) → xs ++ [] ≡ xs
append_nil [] = refl
append_nil (x ∷ xs) = ap (λ l. x ∷ l) (append_nil xs)

append_findings-Buckets :
    (s : AgentState) (fs : List AuditFinding)
    → let t = append_findings s fs in
      (t.unfixable_findings ≡ s.unfixable_findings ++ filter is_unfixable_blocker fs)
      × (t.pipeline_warnings ≡ s.pipeline_warnings ++ filter is_warning fs)
unfolding append_findings append_finding append_log
append_findings-Buckets s [] =
    (sym (append_nil s.unfixable_findings), sym (append_nil s.pipeline_warnings))
append_findings-Buckets s (f ∷ fs) =
    let later = append_findings-Buckets (append_finding s f) fs in
    ground (
      arith,
      later,
      append_assoc s.unfixable_findings (f ∷ []) (filter is_unfixable_blocker fs),
      append_assoc s.pipeline_warnings (f ∷ []) (filter is_warning fs),
    )

-- A report adds its blockers that nobody can fix to the unfixable findings and all its other
-- findings to the warnings, each in its order, and is the last of the reports.
pub append_audit_report-Buckets :
    (s : AgentState) (r : AuditReport)
    → ((append_audit_report s r).unfixable_findings
        ≡ s.unfixable_findings ++ filter is_unfixable_blocker r.findings)
      × ((append_audit_report s r).pipeline_warnings
          ≡ s.pipeline_warnings ++ filter is_warning r.findings)
      × ((append_audit_report s r).audit_reports ≡ s.audit_reports ++ (r ∷ []))
unfolding append_audit_report push_report append_log
append_audit_report-Buckets s r =
    let (u, w) = append_findings-Buckets (push_report s r) r.findings in
    (u, w, append_audit_report-reports s r)
