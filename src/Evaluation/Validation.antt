-- ===== src/Evaluation/Validation.antt =====
-- The validators of src/skills_sdk/models/evaluation.py, as tests.
use skills_sdk.Prelude.{
  length, ◌==◌, if◌then◌else◌, Bool, true, false, not, ◌&&◌, ◌||◌, Option, none, some, string_eq,
  option_eq, all_distinct, contains, all, any,
}
use skills_sdk.Paths.{is_portable}
use skills_sdk.Packaging.{PackageReceiptBlocker, candidate_eq, list_beq}
use skills_sdk.Packaging.Validation.{is_empty, is_none, is_subset, paths_ok}
use skills_sdk.Evaluation.Models.{
  Doubles, ScenarioSet, ScorerProfile, ScorerType, llm_judge, external, deterministic, hybrid,
  ScenarioObservation, ScenarioCaseResult, EvaluationReceipt, ObservationStatus, completed, Verdict,
  pass, fail, case_ids, result_ids, is_pass, is_blocked, is_deterministic, regression, happy,
  pressure, boundary, ScenarioCase,
}
use skills_sdk.Evaluation.Deterministic.{inside, passed_count}

abbrev pub is_regression : ScenarioCase → Bool
is_regression case = elim case.category [
  | happy ↦ false
  | pressure ↦ false
  | boundary ↦ false
  | regression ↦ true
]

-- `ScenarioSet.case_ids_are_unique`
unfoldable pub scenario_set_ok : ScenarioSet → Bool
unfolding all_distinct
scenario_set_ok set =
    not (is_empty set.cases)
    && all_distinct (case_ids set.cases)
    && (not set.release || any is_regression set.cases)

abbrev pub is_judge : ScorerType → Bool
is_judge deterministic = false
is_judge llm_judge = true
is_judge hybrid = false
is_judge external = true

-- `ScorerProfile.calibration_matches_policy`
unfoldable pub scorer_ok : ScorerProfile → Bool
unfolding all_distinct
scorer_ok s =
    not (s.calibration_required && is_empty s.calibration_probe_ids)
    && not (is_judge s.scorer_type && not s.calibration_required)
    && not (is_judge s.scorer_type && not s.deterministic_checks_first)
    && all_distinct s.calibration_probe_ids

abbrev pub blocker_refs_ok : Option PackageReceiptBlocker → Bool
unfolding is_portable
blocker_refs_ok b = elim b [ none ↦ true | some c ↦ all is_portable c.evidence_refs ]

-- `ScenarioObservation`
unfoldable pub observation_ok : ScenarioObservation → Bool
unfolding paths_ok blocker_refs_ok
observation_ok o = paths_ok o.evidence_refs && blocker_refs_ok o.blocker && elim o.status [
  | completed ↦ is_none o.blocker && not (is_none o.output_sha256)
  | ObservationStatus.blocked ↦
      not (is_none o.blocker)
      && is_none o.output_sha256
      && is_empty o.observed_signals
      && is_empty o.observed_commands
]

abbrev pub has_failure : ScenarioCaseResult → Bool
has_failure r = not (is_empty r.missing_signals) || not (is_empty r.forbidden_commands_observed)

-- `ScenarioCaseResult`
unfoldable pub result_ok : ScenarioCaseResult → Bool
unfolding paths_ok blocker_refs_ok
result_ok r = paths_ok r.evidence_refs && blocker_refs_ok r.blocker && elim r.status [
  | pass ↦ not (has_failure r) && is_none r.blocker && not (is_none r.observation_sha256)
  | fail ↦ has_failure r && is_none r.blocker && not (is_none r.observation_sha256)
  | Verdict.blocked ↦ not (is_none r.blocker) && not (has_failure r) && is_none r.observation_sha256
]

abbrev pub result_is_bound : EvaluationReceipt → ScenarioCaseResult → Bool
result_is_bound r result =
    result.candidate == r.candidate && result.scenario_set_id == r.scenario_set_id

-- A receipt may name another candidate's scorer only to say that it is another candidate's.
abbrev pub reports_mismatch : EvaluationReceipt → Bool
reports_mismatch r =
    is_blocked r.status
    && elim r.blocker [ none ↦ false | some b ↦ b.code == "scorer_candidate_mismatch" ]

-- The part of `receipt_is_candidate_bound` on the calibration probes.
unfoldable pub probes_ok : EvaluationReceipt → Bool
unfolding all_distinct is_subset contains
probes_ok r =
    let declared = r.scorer.calibration_probe_ids in
    let done = r.completed_calibration_probe_ids in
    all_distinct done
    && is_subset done declared
    && list_beq done (inside declared done)
    && not (
        not (is_blocked r.status)
        && r.scorer.calibration_required
        && not (is_subset done declared && is_subset declared done))

unfoldable pub outcome_ok : Doubles → EvaluationReceipt → Bool
outcome_ok f r =
    if is_blocked r.status
    then not (is_none r.blocker && not (any (λ c. is_blocked c.status) r.case_results))
      && is_none r.score
    else is_none r.blocker
      && not (any (λ c. is_blocked c.status) r.case_results)
      && not (is_empty r.case_results)
      && is_deterministic r.scorer.scorer_type
      && elim r.score [
        | none ↦ false
        | some score ↦
            f.equal score (f.divide (passed_count r.case_results) (length r.case_results))
            && (if f.at_least score r.scorer.pass_threshold
                then is_pass r.status
                else not (is_pass r.status))
      ]

-- `EvaluationReceipt`
unfoldable pub evaluation_ok : Doubles → EvaluationReceipt → Bool
unfolding all_distinct
evaluation_ok f r =
    (r.scorer.candidate == r.candidate || reports_mismatch r)
    && all_distinct (result_ids r.case_results)
    && all (result_is_bound r) r.case_results
    && all result_ok r.case_results
    && probes_ok r
    && outcome_ok f r
