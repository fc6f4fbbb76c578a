-- ===== src/Sweep/Recurring/Tests.antt =====
-- A ledger with one class of findings, and the same class with another eligibility.
use skills_sdk.Prelude.{
  Bool, true, false, ◌≡◌, ◌↔◌, refl, String, List, [], ◌∷◌, none, some, all_distinct, contains,
  to_set,
}
use skills_sdk.Paths.{is_portable}
use skills_sdk.Paths.Split.{split}
use skills_sdk.Sweep.{pass, fail}
use skills_sdk.Sweep.Recurring.{
  Texts, FindingClass, classes, validate_recurring_findings, reference_errors, invariant_errors,
  class_errors, occurrence_reference_matches, parts_match, local_evidence_reference_is_safe,
  before_line, fingerprint,
}
use skills_sdk.Sweep.Recurring.Laws.{IsSound, validate_recurring_findings_iff}

abbrev pull : String
pull = "https://github.com/me/tool/pull/7"

abbrev texts : Texts
texts = record {
  urlsplit =
      λ s. record { netloc = "github.com"; path = "/me/tool/pull/7"; query = ""; fragment = "" };
  lower = λ cs. cs;
  show_nat = λ n. "7";
  sha256_text = λ bytes. "digest";
}

abbrev class_with : Bool → FindingClass
class_with eligible = record {
  finding_class_id = "late-lock";
  normalized_invariant = "locks are taken first";
  fingerprint_sha256 = "digest";
  occurrences =
      record { repository = "me/tool"; pull_request = 7; evidence_ref = pull }
      ∷ record { repository = "me/tool"; pull_request = 7; evidence_ref = "docs/notes.md:12" }
      ∷ [];
  guardrail = record { validated = false; artifact_ref = none; blocker_ref = some "docs/lock.md" };
  merge_eligible = eligible;
}

statuses :
    ((validate_recurring_findings texts (classes (class_with true ∷ []))).status ≡ pass)
    × ((validate_recurring_findings texts (classes (class_with false ∷ []))).status ≡ fail)
    × ((validate_recurring_findings texts (classes (class_with true ∷ class_with true ∷ []))).status
        ≡ fail)
unfolding validate_recurring_findings reference_errors invariant_errors class_errors
    occurrence_reference_matches parts_match local_evidence_reference_is_safe before_line
    fingerprint is_portable split all_distinct contains to_set
statuses = (refl, refl, refl)

validate_recurring_findings_iff_example :
    ((validate_recurring_findings texts (classes (class_with true ∷ []))).status ≡ pass)
    ↔ ((cs : List FindingClass) × (classes (class_with true ∷ []) ≡ classes cs) × IsSound texts cs)
validate_recurring_findings_iff_example =
    validate_recurring_findings_iff texts (classes (class_with true ∷ []))
