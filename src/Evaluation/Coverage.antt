-- ===== src/Evaluation/Coverage.antt =====
-- The audit of a coverage plan: src/skills_sdk/models/coverage.py.
pub mod Laws
mod Tests
use skills_sdk.Packaging.{PackageCandidateIdentity}
use skills_sdk.Packaging.Validation.{is_empty, is_subset}
use skills_sdk.Prelude.{
  Bool, true, false, not, ◌&&◌, ◌||◌, List, [], ◌∷◌, ◌++◌, String, string_eq, all_distinct,
  contains, if◌then◌else◌,
}

pub record CoverageClaim : Type 0 where
  pub id : String
  pub statement : String

pub record CoverageGap : Type 0 where
  pub id : String
  pub reason : String
  pub owner : String

pub record ClaimCoverage : Type 0 where
  pub claim_id : String
  pub case_ids : List String
  pub gap_ids : List String

pub record ScenarioCoveragePlan : Type 0 where
  pub candidate : PackageCandidateIdentity
  pub scenario_set_id : String
  pub claims : List CoverageClaim
  pub mappings : List ClaimCoverage
  pub gaps : List CoverageGap

pub record ScenarioQualityFinding : Type 0 where
  pub code : String
  pub message : String

abbrev pub claim_ids : List CoverageClaim → List String
claim_ids [] = []
claim_ids (c ∷ cs) = c.id ∷ claim_ids cs

abbrev pub declared_gaps : List CoverageGap → List String
declared_gaps [] = []
declared_gaps (g ∷ gs) = g.id ∷ declared_gaps gs

abbrev pub mapped_ids : List ClaimCoverage → List String
mapped_ids [] = []
mapped_ids (m ∷ ms) = m.claim_id ∷ mapped_ids ms

-- The set `used_gaps`, with repetitions.
abbrev pub used_gaps : List ClaimCoverage → List String
used_gaps [] = []
used_gaps (m ∷ ms) = m.gap_ids ++ used_gaps ms

abbrev pub finding_if : Bool → String → String → List ScenarioQualityFinding
finding_if wrong code message = if wrong then record { code = code; message = message } ∷ [] else []

-- `set(xs) == set(ys)`
unfoldable pub same_set : List String → List String → Bool
unfolding is_subset
same_set xs ys = is_subset xs ys && is_subset ys xs

unfoldable pub mapping_invalid : ScenarioCoveragePlan → ClaimCoverage → Bool
unfolding contains all_distinct is_subset
mapping_invalid plan m =
    (is_empty m.case_ids && is_empty m.gap_ids)
    || not (contains m.claim_id (claim_ids plan.claims))
    || not (all_distinct m.case_ids)
    || not (all_distinct m.gap_ids)
    || not (is_subset m.gap_ids (declared_gaps plan.gaps))

unfoldable pub mapping_findings :
    ScenarioCoveragePlan → List ClaimCoverage → List ScenarioQualityFinding
mapping_findings plan [] = []
mapping_findings plan (m ∷ ms) =
    finding_if (mapping_invalid plan m) "invalid_claim_mapping"
      "map claims only to active cases or declared gaps"
    ++ mapping_findings plan ms

unfoldable pub declaration_findings : ScenarioCoveragePlan → List ScenarioQualityFinding
unfolding all_distinct
declaration_findings plan =
    finding_if
      (not (all_distinct (claim_ids plan.claims))
        || not (all_distinct (declared_gaps plan.gaps))
        || not (all_distinct (mapped_ids plan.mappings)))
      "duplicate_coverage_id" "coverage ids must be unique"
    ++ mapping_findings plan plan.mappings
    ++ finding_if (not (same_set (used_gaps plan.mappings) (declared_gaps plan.gaps)))
        "unused_coverage_gap" "every gap must map to a claim"

-- `declarations_are_consistent`
unfoldable pub plan_ok : ScenarioCoveragePlan → Bool
plan_ok plan = not (is_empty plan.claims) && is_empty (declaration_findings plan)

unfoldable pub inactive_findings : List String → List ClaimCoverage → List ScenarioQualityFinding
unfolding is_subset
inactive_findings active [] = []
inactive_findings active (m ∷ ms) =
    finding_if (not (is_subset m.case_ids active)) "invalid_claim_mapping"
      "map claims only to active cases or declared gaps"
    ++ inactive_findings active ms

unfoldable pub audit : ScenarioCoveragePlan → List String → List ScenarioQualityFinding
audit plan active =
    declaration_findings plan
    ++ finding_if (not (same_set (mapped_ids plan.mappings) (claim_ids plan.claims)))
        "unmapped_claim" "map every declared claim exactly once"
    ++ inactive_findings active plan.mappings
