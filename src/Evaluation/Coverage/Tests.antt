-- ===== src/Evaluation/Coverage/Tests.antt =====
-- A plan with a mapped claim and a declared gap.
use skills_sdk.Evaluation.Coverage.{
  inactive_findings, same_set, mapping_invalid, mapping_findings, ScenarioCoveragePlan, audit,
  declaration_findings,
}
use skills_sdk.Evaluation.Coverage.Laws.{IsComplete, audit_iff}
use skills_sdk.Prelude.{List, [], ◌∷◌, String, ◌≡◌, ◌↔◌, refl}

abbrev plan_of : List String → ScenarioCoveragePlan
plan_of cases = record {
  candidate = record { package_id = "demo"; source_revision = "r"; content_sha256 = "c" };
  scenario_set_id = "set";
  claims =
      record { id = "one"; statement = "it works" }
      ∷ record { id = "two"; statement = "it stops" }
      ∷ [];
  mappings =
      record { claim_id = "one"; case_ids = cases; gap_ids = [] }
      ∷ record { claim_id = "two"; case_ids = []; gap_ids = "gap" ∷ [] }
      ∷ [];
  gaps = record { id = "gap"; reason = "later"; owner = "team" } ∷ [];
}

complete_plan : audit (plan_of ("a" ∷ "b" ∷ [])) ("a" ∷ "b" ∷ "c" ∷ []) ≡ []
unfolding audit declaration_findings mapping_findings mapping_invalid same_set inactive_findings
complete_plan = refl

audit_example :
    (audit (plan_of ("a" ∷ "b" ∷ [])) ("a" ∷ "b" ∷ "c" ∷ []) ≡ [])
    ↔ IsComplete (plan_of ("a" ∷ "b" ∷ [])) ("a" ∷ "b" ∷ "c" ∷ [])
audit_example = audit_iff (plan_of ("a" ∷ "b" ∷ [])) ("a" ∷ "b" ∷ "c" ∷ [])
