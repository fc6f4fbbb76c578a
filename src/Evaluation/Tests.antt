-- ===== src/Evaluation/Tests.antt =====
-- An evaluation of two scenarios, one of which is met.
use skills_sdk.Json.{Hash}
use skills_sdk.Packaging.{PackageCandidateIdentity}
use skills_sdk.Evaluation.Models.{
  Doubles, ScenarioCase, regression, expected_signal, ScenarioSet, ScorerProfile, deterministic,
  ScenarioObservation, completed, pass, EvaluationReceipt,
}
use skills_sdk.Evaluation.Deterministic.{
  evaluate_case, evaluate_scenario_set, evaluate_cases, probe_failure, observation_failure,
  receipt_of_results, scored_evaluation, completed_result,
}
use skills_sdk.Evaluation.Validation.{evaluation_ok, scenario_set_ok, scorer_ok, observation_ok}
use skills_sdk.Evaluation.Cases.{IsMet, evaluate_case_iff}
use skills_sdk.Evaluation.Totality.{evaluate_scenario_set_total}
use skills_sdk.Evaluation.Passing.{IsPassed, evaluate_scenario_set-IsPassed}
use skills_sdk.Evaluation.Order.{swap, evaluate_scenario_set-Rearranged}
use skills_sdk.Prelude.{
  All, ℕ, ◌*◌, ◌/◌, ◌≡◌, ◌↔◌, refl, true, none, some, List, [], ◌∷◌, String, nat_eq, leb,
  nat_eq_iff,
}

abbrev hash : Hash
hash = record { sha256 = λ b. "digest"; dumps = λ j. [] }

-- Thousandths stand for the floats.
abbrev thousandths : Doubles
thousandths = record { divide = λ m n. m * 1000 / n; at_least = λ a b. leb b a; equal = nat_eq }

abbrev candidate : PackageCandidateIdentity
candidate = record { package_id = "demo"; source_revision = "r"; content_sha256 = "c" }

abbrev case_named : String → ScenarioCase
case_named id = record {
  case_id = id;
  category = regression;
  prompt = "go";
  expected_signals = "done" ∷ [];
  forbidden_commands = "rm" ∷ [];
  oracle = expected_signal;
}

abbrev seen : String → List String → ScenarioObservation
seen id signals = record {
  candidate = candidate;
  scenario_set_id = "set";
  case_id = id;
  status = completed;
  observed_signals = signals;
  observed_commands = "ls" ∷ [];
  evidence_refs = [];
  output_sha256 = some "o";
  runner_id = "runner";
  runner_version_or_digest = "1";
  blocker = none;
}

abbrev scenarios : ScenarioSet
scenarios = record {
  candidate = candidate;
  scenario_set_id = "set";
  release = true;
  cases = case_named "a" ∷ case_named "b" ∷ [];
}

abbrev scorer : ScorerProfile
scorer = record {
  candidate = candidate;
  scorer_id = "scorer";
  scorer_type = deterministic;
  version_or_digest = "1";
  pass_threshold = 500;
  deterministic_checks_first = true;
  calibration_required = true;
  calibration_probe_ids = "p" ∷ "q" ∷ [];
}

abbrev observations : List ScenarioObservation
observations = seen "a" ("done" ∷ []) ∷ seen "b" [] ∷ []

abbrev scored : EvaluationReceipt
unfolding scored_evaluation completed_result
scored =
    scored_evaluation hash thousandths scenarios scorer
      (completed_result (case_named "a") (seen "a" ("done" ∷ [])) "o"
        ∷ completed_result (case_named "b") (seen "b" []) "o"
        ∷ [])
      ("p" ∷ "q" ∷ [])

-- Half of the cases are met, which reaches the threshold.
half :
    evaluate_scenario_set hash thousandths scenarios observations scorer ("q" ∷ "p" ∷ [])
    ≡ some scored
unfolding evaluate_scenario_set evaluate_cases probe_failure observation_failure receipt_of_results
    scored_evaluation scored
half = refl

met :
    evaluate_case (case_named "a") (seen "a" ("done" ∷ []))
    ≡ some (completed_result (case_named "a") (seen "a" ("done" ∷ [])) "o")
unfolding evaluate_case
met = refl

evaluate_case_example :
    ((completed_result (case_named "a") (seen "a" ("done" ∷ [])) "o").status ≡ pass)
    ↔ IsMet (case_named "a") (seen "a" ("done" ∷ []))
evaluate_case_example = evaluate_case_iff (case_named "a") (seen "a" ("done" ∷ [])) _ met

scenarios_ok : scenario_set_ok scenarios ≡ true
unfolding scenario_set_ok
scenarios_ok = refl

scorer_is_ok : scorer_ok scorer ≡ true
unfolding scorer_ok
scorer_is_ok = refl

seen_ok : All (λ o. observation_ok o ≡ true) observations
unfolding observation_ok
seen_ok = (refl, (refl, tt))

reflexive : (m n : ℕ) → nat_eq (m * 1000 / n) (m * 1000 / n) ≡ true
reflexive m n = (nat_eq_iff (m * 1000 / n) (m * 1000 / n)).1 refl

evaluate_scenario_set_total_example :
    (r : EvaluationReceipt) × (evaluate_scenario_set hash thousandths scenarios observations scorer
        ("q" ∷ "p" ∷ [])
      ≡ some r)
    × (evaluation_ok thousandths r ≡ true)
evaluate_scenario_set_total_example =
    evaluate_scenario_set_total hash thousandths scenarios observations scorer ("q" ∷ "p" ∷ [])
      reflexive scenarios_ok scorer_is_ok seen_ok

scored_passes : scored.status ≡ pass
unfolding scored
scored_passes = refl

evaluate_scenario_set-IsPassed_example :
    IsPassed thousandths scenarios observations scorer ("q" ∷ "p" ∷ []) scored
evaluate_scenario_set-IsPassed_example =
    evaluate_scenario_set-IsPassed hash thousandths scenarios observations scorer ("q" ∷ "p" ∷ [])
      scored half scored_passes

evaluate_scenario_set-Rearranged_example :
    evaluate_scenario_set hash thousandths scenarios observations scorer ("q" ∷ "p" ∷ [])
    ≡ evaluate_scenario_set hash thousandths scenarios
        (seen "b" [] ∷ seen "a" ("done" ∷ []) ∷ [])
        scorer
        ("q" ∷ "p" ∷ [])
evaluate_scenario_set-Rearranged_example =
    evaluate_scenario_set-Rearranged hash thousandths scenarios scorer ("q" ∷ "p" ∷ [])
      (swap (seen "a" ("done" ∷ [])) (seen "b" []) [])
