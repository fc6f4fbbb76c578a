-- ===== src/Evaluation/Models.antt =====
-- The contracts of src/skills_sdk/models/evaluation.py, with their JSON forms.
use skills_sdk.Prelude.{ℕ, Bool, true, false, Option, List, [], ◌∷◌, String}
use skills_sdk.Json.{Json, boolean, double, text, array, object, texts, optional}
use skills_sdk.Packaging.{PackageCandidateIdentity, PackageReceiptBlocker, candidate_json}

-- A Python float, by the bits of the double.
abbrev pub Double : Type 0
Double = ℕ

-- What the program uses of floats: the quotient of two counts, and the comparisons.
pub record Doubles : Type 0 where
  pub divide : ℕ → ℕ → Double
  pub at_least : Double → Double → Bool
  pub equal : Double → Double → Bool

pub data Category : Type 0 where
  happy pressure boundary regression : Category

pub data Oracle : Type 0 where
  exact_match expected_signal structured : Oracle

pub record ScenarioCase : Type 0 where
  pub case_id : String
  pub category : Category
  pub prompt : String
  pub expected_signals : List String
  pub forbidden_commands : List String
  pub oracle : Oracle

pub record ScenarioSet : Type 0 where
  pub candidate : PackageCandidateIdentity
  pub scenario_set_id : String
  pub release : Bool
  pub cases : List ScenarioCase

pub data ScorerType : Type 0 where
  deterministic llm_judge hybrid external : ScorerType

pub record ScorerProfile : Type 0 where
  pub candidate : PackageCandidateIdentity
  pub scorer_id : String
  pub scorer_type : ScorerType
  pub version_or_digest : String
  pub pass_threshold : Double
  pub deterministic_checks_first : Bool
  pub calibration_required : Bool
  pub calibration_probe_ids : List String

pub data ObservationStatus : Type 0 where
  completed blocked : ObservationStatus

pub record ScenarioObservation : Type 0 where
  pub candidate : PackageCandidateIdentity
  pub scenario_set_id : String
  pub case_id : String
  pub status : ObservationStatus
  pub observed_signals : List String
  pub observed_commands : List String
  pub evidence_refs : List String
  pub output_sha256 : Option String
  pub runner_id : String
  pub runner_version_or_digest : String
  pub blocker : Option PackageReceiptBlocker

pub data Verdict : Type 0 where
  pass fail blocked : Verdict

pub record ScenarioCaseResult : Type 0 where
  pub candidate : PackageCandidateIdentity
  pub scenario_set_id : String
  pub case_id : String
  pub status : Verdict
  pub missing_signals : List String
  pub forbidden_commands_observed : List String
  pub evidence_refs : List String
  pub observation_sha256 : Option String
  pub runner_id : String
  pub runner_version_or_digest : String
  pub blocker : Option PackageReceiptBlocker

pub record EvaluationReceipt : Type 0 where
  pub receipt_id : String
  pub candidate : PackageCandidateIdentity
  pub scenario_set_id : String
  pub scorer : ScorerProfile
  pub status : Verdict
  pub score : Option Double
  pub case_results : List ScenarioCaseResult
  pub completed_calibration_probe_ids : List String
  pub blocker : Option PackageReceiptBlocker

abbrev pub is_pass : Verdict → Bool
is_pass pass = true
is_pass fail = false
is_pass Verdict.blocked = false

abbrev pub is_blocked : Verdict → Bool
is_blocked pass = false
is_blocked fail = false
is_blocked Verdict.blocked = true

abbrev pub is_deterministic : ScorerType → Bool
is_deterministic deterministic = true
is_deterministic llm_judge = false
is_deterministic hybrid = false
is_deterministic external = false

abbrev pub verdict_text : Verdict → String
verdict_text pass = "pass"
verdict_text fail = "fail"
verdict_text Verdict.blocked = "blocked"

abbrev pub scorer_type_text : ScorerType → String
scorer_type_text deterministic = "deterministic"
scorer_type_text llm_judge = "llm_judge"
scorer_type_text hybrid = "hybrid"
scorer_type_text external = "external"

abbrev pub oracle_text : Oracle → String
oracle_text exact_match = "exact_match"
oracle_text expected_signal = "expected_signal"
oracle_text structured = "structured"

abbrev pub scorer_json : ScorerProfile → Json
scorer_json s = object (
    ("schema_version", text "scorer-profile/v1")
    ∷ ("candidate", candidate_json s.candidate)
    ∷ ("scorer_id", text s.scorer_id)
    ∷ ("scorer_type", text (scorer_type_text s.scorer_type))
    ∷ ("version_or_digest", text s.version_or_digest)
    ∷ ("pass_threshold", double s.pass_threshold)
    ∷ ("deterministic_checks_first", boolean s.deterministic_checks_first)
    ∷ ("calibration_required", boolean s.calibration_required)
    ∷ ("calibration_probe_ids", array (texts s.calibration_probe_ids))
    ∷ [])

abbrev pub receipt_blocker_json : PackageReceiptBlocker → Json
receipt_blocker_json b = object (
    ("code", text b.code)
    ∷ ("message", text b.message)
    ∷ ("evidence_refs", array (texts b.evidence_refs))
    ∷ [])

abbrev pub result_json : ScenarioCaseResult → Json
result_json r = object (
    ("schema_version", text "scenario-case-result/v1")
    ∷ ("candidate", candidate_json r.candidate)
    ∷ ("scenario_set_id", text r.scenario_set_id)
    ∷ ("case_id", text r.case_id)
    ∷ ("status", text (verdict_text r.status))
    ∷ ("missing_signals", array (texts r.missing_signals))
    ∷ ("forbidden_commands_observed", array (texts r.forbidden_commands_observed))
    ∷ ("evidence_refs", array (texts r.evidence_refs))
    ∷ ("observation_sha256", optional text r.observation_sha256)
    ∷ ("runner_id", text r.runner_id)
    ∷ ("runner_version_or_digest", text r.runner_version_or_digest)
    ∷ ("blocker", optional receipt_blocker_json r.blocker)
    ∷ ("mutation_performed", boolean false)
    ∷ [])

abbrev pub results_json : List ScenarioCaseResult → List Json
results_json [] = []
results_json (r ∷ rs) = result_json r ∷ results_json rs

abbrev pub case_ids : List ScenarioCase → List String
case_ids [] = []
case_ids (c ∷ cs) = c.case_id ∷ case_ids cs

abbrev pub observation_ids : List ScenarioObservation → List String
observation_ids [] = []
observation_ids (o ∷ os) = o.case_id ∷ observation_ids os

abbrev pub result_ids : List ScenarioCaseResult → List String
result_ids [] = []
result_ids (r ∷ rs) = r.case_id ∷ result_ids rs
