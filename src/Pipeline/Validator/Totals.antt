-- ===== src/Pipeline/Validator/Totals.antt =====
-- The totals of `get_metrics` along the history.
use backend_pae_account_mult.Prelude.{
  ℕ, ◌+◌, ◌≡◌, ◌≤◌, Bool, true, false, not, List, [], ◌∷◌, ◌++◌, length, filter, arith,
  length-append, Bool-cases, inl, inr,
}
use backend_pae_account_mult.Pipeline.Validator.{
  ValidationResult, is_valid, ComplianceRecord, record_compliance, compliant, get_metrics,
}

abbrev pub count : Bool → ℕ
count true = 1
count false = 0

passed-snoc :
    (cs : List ComplianceRecord) (c : ComplianceRecord)
    → length (filter compliant (cs ++ (c ∷ [])))
      ≡ length (filter compliant cs) + count c.is_compliant
passed-snoc [] c = ground arith
passed-snoc (d ∷ cs) c = ground (arith, passed-snoc cs c)

passed_bound : (cs : List ComplianceRecord) → length (filter compliant cs) ≤ length cs
passed_bound [] = omega arith
passed_bound (c ∷ cs) = ground (arith, passed_bound cs)

-- Recording a validation raises the number of validations by one, that of the passed ones if it was
-- valid, and that of the failed ones if it was not.
pub get_metrics-record_compliance :
    (history : List ComplianceRecord) (r : ValidationResult)
    → ((get_metrics (record_compliance history r)).total_validations
        ≡ (get_metrics history).total_validations + 1)
      × ((get_metrics (record_compliance history r)).total_passed
          ≡ (get_metrics history).total_passed + count (is_valid r))
      × ((get_metrics (record_compliance history r)).total_failed
          ≡ (get_metrics history).total_failed + count (not (is_valid r)))
unfolding get_metrics record_compliance
get_metrics-record_compliance history r =
    let c : ComplianceRecord = record {
      agent_name = r.agent_name;
      is_compliant = is_valid r;
      attempt = r.attempt;
      errors_count = length r.errors;
    } in
    let n = length-append history (c ∷ []) in
    let p = passed-snoc history c in
    let b = passed_bound history in
    (
      n,
      p,
      elim (Bool-cases (is_valid r)) [
        | inl v ↦ rw (n, p, v) (omega (arith, b))
        | inr v ↦ rw (n, p, v) (omega (arith, b))
      ],
    )
