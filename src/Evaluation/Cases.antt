-- ===== src/Evaluation/Cases.antt =====
-- One scenario: what a passing result says, and that every valid observation has a valid result.
use mathlib.Core.Bool.{false≢true}
use skills_sdk.Prelude.{
  arith, inr, inl, Bool-cases, true, Option, none, some, List, [], ◌∷◌, String, string_eq,
  option_eq, contains, ◌≡◌, ◌↔◌, refl, In, All, contains_iff, contains-false,
}
use skills_sdk.Packaging.Validation.{is_empty, paths_ok}
use skills_sdk.Evaluation.Models.{
  ScenarioCase, ScenarioObservation, ScenarioCaseResult, completed, pass, Oracle, exact_match,
  expected_signal, structured,
}
use skills_sdk.Evaluation.Deterministic.{evaluate_case, outside, inside, is_signal_oracle}
use skills_sdk.Evaluation.Validation.{observation_ok, result_ok}

-- What a scenario asks of an observation: it is complete, every expected signal was observed, and
-- no forbidden command was.
pub record IsMet (case : ScenarioCase) (o : ScenarioObservation) : Type 0 where
  pub complete : o.status ≡ completed
  pub defined : case.oracle ≡ expected_signal
  pub signalled : All (λ s. In s o.observed_signals) case.expected_signals
  pub allowed : All (λ c. ¬ In c case.forbidden_commands) o.observed_commands

outside-nil : (xs ys : List String) → (outside xs ys ≡ []) ↔ All (λ x. In x ys) xs
outside-nil [] ys = (λ e. tt, λ a. refl)
outside-nil (x ∷ xs) ys = elim (Bool-cases (contains x ys)) [
  | inl there ↦
      rw there (
        λ e. ((contains_iff x ys).0 there, (outside-nil xs ys).0 e),
        λ a. (outside-nil xs ys).1 a.1,
      )
  | inr gone ↦ rw gone (λ e. absurd (ground arith), λ a. absurd (contains-false x ys gone a.0))
]

inside-nil : (xs ys : List String) → (inside xs ys ≡ []) ↔ All (λ x. ¬ In x ys) xs
inside-nil [] ys = (λ e. tt, λ a. refl)
inside-nil (x ∷ xs) ys = elim (Bool-cases (contains x ys)) [
  | inl there ↦
      rw there (λ e. absurd (ground arith), λ a. absurd (a.0 ((contains_iff x ys).0 there)))
  | inr gone ↦
      rw gone
        (λ e. (contains-false x ys gone, (inside-nil xs ys).0 e), λ a. (inside-nil xs ys).1 a.1)
]

nil_of_empty : (xs : List String) → is_empty xs ≡ true → xs ≡ []
nil_of_empty [] h = refl
nil_of_empty (x ∷ xs) h = absurd (false≢true h)

signal_of : (o : Oracle) → is_signal_oracle o ≡ true → o ≡ expected_signal
signal_of exact_match h = cc
signal_of expected_signal h = refl
signal_of structured h = cc

module _ (case : ScenarioCase) (o : ScenarioObservation) where
  passed_tests :
      (r : ScenarioCaseResult)
      → evaluate_case case o ≡ some r
      → r.status ≡ pass
      → (o.status ≡ completed)
        × (case.oracle ≡ expected_signal)
        × (is_empty (outside case.expected_signals o.observed_signals) ≡ true)
        × (is_empty (inside o.observed_commands case.forbidden_commands) ≡ true)
  unfolding evaluate_case
  passed_tests r e p = ground arith

  met_result :
      (r : ScenarioCaseResult)
      → evaluate_case case o ≡ some r
      → o.status ≡ completed
      → case.oracle ≡ expected_signal
      → outside case.expected_signals o.observed_signals ≡ []
      → inside o.observed_commands case.forbidden_commands ≡ []
      → r.status ≡ pass
  unfolding evaluate_case
  met_result r e complete signal missing forbidden = ground arith

  -- A case passes exactly when the observation is complete, the oracle is the expected signal,
  -- every expected signal was observed, and no forbidden command was.
  pub evaluate_case_iff :
      (r : ScenarioCaseResult) → evaluate_case case o ≡ some r → (r.status ≡ pass) ↔ IsMet case o
  evaluate_case_iff r e = (
    λ p.
        let (complete, signal, missing, forbidden) = passed_tests r e p in
        record {
          complete = complete;
          defined = signal;
          signalled = (outside-nil _ _).0 (nil_of_empty _ missing);
          allowed = (inside-nil _ _).0 (nil_of_empty _ forbidden);
        },
    λ m.
        met_result r e m.complete m.defined ((outside-nil _ _).1 m.signalled)
          ((inside-nil _ _).1 m.allowed),
  )

  not_refused : observation_ok o ≡ true → evaluate_case case o ≡ none → ⊥
  unfolding observation_ok evaluate_case
  not_refused ok e = ground arith

  result_identity :
      (r : ScenarioCaseResult)
      → evaluate_case case o ≡ some r
      → (r.case_id ≡ case.case_id)
        × (r.candidate ≡ o.candidate)
        × (r.scenario_set_id ≡ o.scenario_set_id)
        × (r.evidence_refs ≡ o.evidence_refs)
  unfolding evaluate_case
  result_identity r e = ground arith

  result_facts :
      (r : ScenarioCaseResult)
      → observation_ok o ≡ true
      → evaluate_case case o ≡ some r
      → (result_ok r ≡ true)
        × (r.case_id ≡ case.case_id)
        × ((r.candidate ≡ o.candidate) × (r.scenario_set_id ≡ o.scenario_set_id))
  unfolding observation_ok evaluate_case result_ok paths_ok
  result_facts r ok e =
      let (named, candidate, set, refs) = result_identity r e in
      (ground arith, named, (candidate, set))

  -- A valid observation of the case is never refused, and its result is valid.
  pub evaluate_case_total :
      observation_ok o ≡ true
      → (r : ScenarioCaseResult) × (evaluate_case case o ≡ some r)
        × (result_ok r ≡ true)
        × (r.case_id ≡ case.case_id)
        × (r.candidate ≡ o.candidate)
        × (r.scenario_set_id ≡ o.scenario_set_id)
  evaluate_case_total ok = go (evaluate_case case o) refl
    where
      go :
          (found : Option ScenarioCaseResult)
          → evaluate_case case o ≡ found
          → (r : ScenarioCaseResult) × (evaluate_case case o ≡ some r)
            × (result_ok r ≡ true)
            × (r.case_id ≡ case.case_id)
            × (r.candidate ≡ o.candidate)
            × (r.scenario_set_id ≡ o.scenario_set_id)
      go none e = absurd (not_refused ok e)
      go (some r) e =
          let (valid, named, bound) = result_facts r ok e in (r, e, valid, named, bound.0, bound.1)
