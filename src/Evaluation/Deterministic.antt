-- ===== src/Evaluation/Deterministic.antt =====
-- The functions of src/skills_sdk/evaluation/deterministic.py. `none` is an exception that leaves
-- the function: the two `ValueError`s of `_evaluate_case`, and a case without an observation.
use Prim.Native.String
use skills_sdk.Prelude.{
  string_eq, any, codes, length, ℕ, filter, ◌==◌, contains, if◌then◌else◌, sorted, all_distinct,
  is_blank, Bool, true, false, not, ◌&&◌, ◌||◌, Option, none, some, List, [], ◌∷◌, String,
}
use skills_sdk.Json.{Json, Hash, text, array, object, texts, optional, canonical_json_sha256}
use skills_sdk.Packaging.{PackageReceiptBlocker, candidate_json, candidate_eq}
use skills_sdk.Packaging.Validation.{is_empty, is_subset}
use skills_sdk.Evaluation.Models.{
  Doubles, ScenarioCase, ScenarioSet, ScorerProfile, ScenarioObservation, ScenarioCaseResult,
  EvaluationReceipt, ObservationStatus, completed, Verdict, pass, fail, Oracle, exact_match,
  expected_signal, structured, oracle_text, scorer_json, results_json, receipt_blocker_json,
  verdict_text, case_ids, observation_ids, is_pass, is_blocked, is_deterministic,
}

-- `[x for x in xs if x not in ys]`, and those that are in `ys`.
abbrev pub outside : List String → List String → List String
outside xs ys = filter (λ x. not (contains x ys)) xs

abbrev pub inside : List String → List String → List String
inside xs ys = filter (λ x. contains x ys) xs

abbrev pub evaluation_blocker : String → String → List String → PackageReceiptBlocker
evaluation_blocker code message refs = record {
  code = code;
  message = message;
  evidence_refs = refs;
}

-- A result without findings: of a blocked observation, and of an oracle that is not defined.
abbrev pub blocked_result :
    ScenarioCase → ScenarioObservation → PackageReceiptBlocker → ScenarioCaseResult
blocked_result case o b = record {
  candidate = o.candidate;
  scenario_set_id = o.scenario_set_id;
  case_id = case.case_id;
  status = Verdict.blocked;
  missing_signals = [];
  forbidden_commands_observed = [];
  evidence_refs = o.evidence_refs;
  observation_sha256 = none;
  runner_id = o.runner_id;
  runner_version_or_digest = o.runner_version_or_digest;
  blocker = some b;
}

unfoldable pub completed_result : ScenarioCase → ScenarioObservation → String → ScenarioCaseResult
unfolding contains
completed_result case o output =
    let missing = outside case.expected_signals o.observed_signals in
    let forbidden = inside o.observed_commands case.forbidden_commands in
    record {
      candidate = o.candidate;
      scenario_set_id = o.scenario_set_id;
      case_id = case.case_id;
      status = if not (is_empty missing) || not (is_empty forbidden) then fail else pass;
      missing_signals = missing;
      forbidden_commands_observed = forbidden;
      evidence_refs = o.evidence_refs;
      observation_sha256 = some output;
      runner_id = o.runner_id;
      runner_version_or_digest = o.runner_version_or_digest;
      blocker = none;
    }

abbrev pub is_signal_oracle : Oracle → Bool
is_signal_oracle exact_match = false
is_signal_oracle expected_signal = true
is_signal_oracle structured = false

abbrev pub unsupported_oracle : ScenarioCase → ScenarioObservation → PackageReceiptBlocker
unsupported_oracle case o =
    evaluation_blocker "unsupported_oracle"
      (String.◌++◌ "scenario-set/v1 does not define deterministic "
        (String.◌++◌ (oracle_text case.oracle) " expectations"))
      o.evidence_refs

-- The branch on a blocked observation.
unfoldable pub evaluate_blocked : ScenarioCase → ScenarioObservation → Option ScenarioCaseResult
evaluate_blocked case o = elim o.blocker [ none ↦ none | some b ↦ some (blocked_result case o b) ]

-- The rest of the function, on a completed observation.
unfoldable pub evaluate_completed : ScenarioCase → ScenarioObservation → Option ScenarioCaseResult
unfolding completed_result
evaluate_completed case o =
    if is_signal_oracle case.oracle
    then elim o.output_sha256 [ none ↦ none | some output ↦ some (completed_result case o output) ]
    else some (blocked_result case o (unsupported_oracle case o))

unfoldable pub evaluate_case : ScenarioCase → ScenarioObservation → Option ScenarioCaseResult
unfolding evaluate_blocked evaluate_completed
evaluate_case case o = elim o.status [
  | ObservationStatus.blocked ↦ evaluate_blocked case o
  | completed ↦ evaluate_completed case o
]

-- `by_case_id[case_id]`: of two observations of one case the later one stands in the dictionary.
unfoldable pub observation_of : String → List ScenarioObservation → Option ScenarioObservation
observation_of id [] = none
observation_of id (o ∷ os) = elim (observation_of id os) [
  | some later ↦ some later
  | none ↦ if o.case_id == id then some o else none
]

unfoldable pub evaluate_cases :
    List ScenarioCase → List ScenarioObservation → Option (List ScenarioCaseResult)
unfolding evaluate_case observation_of
evaluate_cases [] observations = some []
evaluate_cases (case ∷ cases) observations = elim (observation_of case.case_id observations) [
  | none ↦ none
  | some o ↦ elim (evaluate_case case o) [
    | none ↦ none
    | some result ↦ elim (evaluate_cases cases observations) [
      | none ↦ none
      | some results ↦ some (result ∷ results)
    ]
  ]
]

-- What the guards stop with: the blocker, and the probes that the receipt then names.
pub record Stop : Type 0 where
  pub reason : PackageReceiptBlocker
  pub probes : List String

abbrev stop : String → String → List String → Option Stop
stop code message probes =
    some (record { reason = evaluation_blocker code message []; probes = probes })

abbrev pub is_blank_text : String → Bool
unfolding is_blank
is_blank_text s = is_blank (codes s)

abbrev pub completed_probes : ScorerProfile → List String → List String
completed_probes scorer supplied = inside scorer.calibration_probe_ids supplied

-- The guards on the scorer and the supplied probes.
unfoldable pub probe_failure : ScenarioSet → ScorerProfile → List String → Option Stop
unfolding is_blank_text all_distinct is_subset
probe_failure set scorer supplied =
    if not (scorer.candidate == set.candidate)
    then (stop "scorer_candidate_mismatch" "scorer and scenario set must bind the same candidate"
        [])
    else if not (is_deterministic scorer.scorer_type)
    then (stop "provider_adapter_required" "the local evaluator accepts deterministic scorers only"
        [])
    else if any is_blank_text supplied
    then (stop "invalid_calibration_probe" "completed calibration probe ids must be non-empty text"
        [])
    else if not (all_distinct supplied)
    then (stop "duplicate_calibration_probe" "completed calibration probe ids must be unique" [])
    else if not (is_subset supplied scorer.calibration_probe_ids)
    then (stop "unknown_calibration_probe" "completed probes must be declared by the scorer profile"
        [])
    else if scorer.calibration_required && not (is_subset scorer.calibration_probe_ids supplied)
    then (stop "calibration_incomplete" "completed calibration probes must match the scorer profile"
        (completed_probes scorer supplied))
    else none

abbrev pub is_bound_to : ScenarioSet → ScenarioObservation → Bool
is_bound_to set o = o.candidate == set.candidate && o.scenario_set_id == set.scenario_set_id

-- The guards on the observations.
unfoldable pub observation_failure :
    ScenarioSet → List ScenarioObservation → List String → Option Stop
unfolding all_distinct is_subset
observation_failure set observations probes =
    if not (all_distinct (observation_ids observations))
    then (stop "duplicate_observation" "scenario observations must have unique case ids" probes)
    else if not (
        is_subset (observation_ids observations) (case_ids set.cases)
        && is_subset (case_ids set.cases) (observation_ids observations))
    then (stop "observation_set_mismatch" "observations must cover exactly the scenario set cases"
        probes)
    else if any (λ o. not (is_bound_to set o)) observations
    then (stop "observation_identity_mismatch"
        "observations must bind the same candidate and scenario set" probes)
    else none

abbrev pub passed_count : List ScenarioCaseResult → ℕ
passed_count rs = length (filter (λ r. is_pass r.status) rs)

module _ (h : Hash) (f : Doubles) where
  abbrev pub evaluation_identity :
      ScenarioSet
      → ScorerProfile
      → List ScenarioCaseResult
      → Verdict
      → Option PackageReceiptBlocker
      → List String
      → Json
  unfolding sorted
  evaluation_identity set scorer results status blocker probes = object (
      ("candidate", candidate_json set.candidate)
      ∷ ("scenario_set_id", text set.scenario_set_id)
      ∷ ("scorer", scorer_json scorer)
      ∷ ("status", text (verdict_text status))
      ∷ ("case_results", array (results_json results))
      ∷ ("blocker", optional receipt_blocker_json blocker)
      ∷ ("completed_calibration_probe_ids", array (texts (sorted probes)))
      ∷ [])

  -- `eval-` and the first 24 digits of the digest.
  unfoldable pub evaluation_id :
      ScenarioSet
      → ScorerProfile
      → List ScenarioCaseResult
      → Verdict
      → Option PackageReceiptBlocker
      → List String
      → String
  unfolding evaluation_identity
  evaluation_id set scorer results status blocker probes = String.◌++◌ "eval-" (
      String.slice
        (canonical_json_sha256 h (evaluation_identity set scorer results status blocker probes)) 0
        24)

  unfoldable pub blocked_evaluation :
      ScenarioSet → ScorerProfile → Stop → List ScenarioCaseResult → EvaluationReceipt
  unfolding evaluation_id
  blocked_evaluation set scorer s results = record {
    receipt_id = evaluation_id set scorer results Verdict.blocked (some s.reason) s.probes;
    candidate = set.candidate;
    scenario_set_id = set.scenario_set_id;
    scorer = scorer;
    status = Verdict.blocked;
    score = none;
    case_results = results;
    completed_calibration_probe_ids = s.probes;
    blocker = some s.reason;
  }

  unfoldable pub scored_evaluation :
      ScenarioSet → ScorerProfile → List ScenarioCaseResult → List String → EvaluationReceipt
  unfolding evaluation_id
  scored_evaluation set scorer results probes =
      let score = f.divide (passed_count results) (length results) in
      let status = if f.at_least score scorer.pass_threshold then pass else fail in
      record {
        receipt_id = evaluation_id set scorer results status none probes;
        candidate = set.candidate;
        scenario_set_id = set.scenario_set_id;
        scorer = scorer;
        status = status;
        score = some score;
        case_results = results;
        completed_calibration_probe_ids = probes;
        blocker = none;
      }

  -- The end of `evaluate_scenario_set`, from the results of the cases.
  unfoldable pub receipt_of_results :
      ScenarioSet → ScorerProfile → List String → List ScenarioCaseResult → EvaluationReceipt
  receipt_of_results set scorer probes results =
      if any (λ r. is_blocked r.status) results
      then blocked_evaluation set scorer
          (record {
            reason =
                evaluation_blocker "scenario_blocked"
                  "one or more scenarios could not be evaluated deterministically" [];
            probes = probes;
          })
          results
      else scored_evaluation set scorer results probes

  unfoldable pub evaluate_scenario_set :
      ScenarioSet
      → List ScenarioObservation
      → ScorerProfile
      → List String
      → Option EvaluationReceipt
  evaluate_scenario_set set observations scorer supplied =
      elim (probe_failure set scorer supplied) [
        | some s ↦ some (blocked_evaluation set scorer s [])
        | none ↦ elim (observation_failure set observations (completed_probes scorer supplied)) [
          | some s ↦ some (blocked_evaluation set scorer s [])
          | none ↦ elim (evaluate_cases set.cases observations) [
            | none ↦ none
            | some results ↦
                some (receipt_of_results set scorer (completed_probes scorer supplied) results)
          ]
        ]
      ]
