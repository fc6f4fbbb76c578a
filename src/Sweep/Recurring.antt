-- ===== src/Sweep/Recurring.antt =====
-- `validate_recurring_findings`: the invariants of a ledger of recurring findings. What reading the
-- ledger and its JSON schema answer is the type `Reading`; `urlsplit`, `str.lower`, the text of a
-- number and SHA-256 are the parameter `Texts`.
pub mod Laws
mod Tests
use Prim.Native.String
use Prim.Native.Char.{code}
use skills_sdk.Prelude.{
  utf8, sorted, ℕ, Bool, true, false, not, ◌&&◌, ◌||◌, ◌≡◌, ◌↔◌, Option, none, some, List, [], ◌∷◌,
  ◌++◌, String, any, all, codes, codes_eq, contains, starts_with, string_eq, ◌==◌, nat_eq, ltb, leb,
  length, arith, all_distinct, Comparable, is_space, bool_eq, if◌then◌else◌, ℕ_eq,
}
use skills_sdk.Paths.{is_portable}
use skills_sdk.Paths.Split.{split}
use skills_sdk.Packaging.Validation.{is_empty}
use skills_sdk.Sweep.{PrSweepFinding, SweepStatus, pass, fail}
use skills_sdk.Sweep.Closeout.{finding}

pub record Occurrence : Type 0 where
  pub repository : String
  pub pull_request : ℕ
  pub evidence_ref : String

pub record Guardrail : Type 0 where
  pub validated : Bool
  pub artifact_ref : Option String
  pub blocker_ref : Option String

pub record FindingClass : Type 0 where
  pub finding_class_id : String
  pub normalized_invariant : String
  pub fingerprint_sha256 : String
  pub occurrences : List Occurrence
  pub guardrail : Guardrail
  pub merge_eligible : Bool

-- The parts of `urlsplit` that the check reads.
pub record Url : Type 0 where
  pub netloc : String
  pub path : String
  pub query : String
  pub fragment : String

pub record Texts : Type 0 where
  pub urlsplit : String → Url
  pub lower : List ℕ → List ℕ
  pub show_nat : ℕ → String
  pub sha256_text : List ℕ → String

abbrev pub occurrence_beq : Occurrence → Occurrence → Bool
occurrence_beq a b =
    a.repository == b.repository
    && a.pull_request == b.pull_request
    && a.evidence_ref == b.evidence_ref

pub occurrence_beq_iff : (a b : Occurrence) → (occurrence_beq a b ≡ true) ↔ (a ≡ b)
occurrence_beq_iff a b = ground (
  arith,
  string_eq.eqb_iff a.repository b.repository,
  ℕ_eq.eqb_iff a.pull_request b.pull_request,
  string_eq.eqb_iff a.evidence_ref b.evidence_ref,
)

instance abbrev pub occurrence_eq : Comparable Occurrence
occurrence_eq = record { eqb = occurrence_beq; eqb_iff = occurrence_beq_iff }

-- `value.strip(…)` of the characters that `drops` accepts.
abbrev drop_left : (ℕ → Bool) → List ℕ → List ℕ
drop_left drops [] = []
drop_left drops (c ∷ cs) = let rest = drop_left drops cs in if drops c then rest else c ∷ cs

abbrev drop_right : (ℕ → Bool) → List ℕ → List ℕ
drop_right drops [] = []
drop_right drops (c ∷ cs) =
    let rest = drop_right drops cs in if is_empty rest && drops c then [] else c ∷ rest

abbrev strip : (ℕ → Bool) → List ℕ → List ℕ
strip drops cs = drop_right drops (drop_left drops cs)

abbrev is_slash : ℕ → Bool
is_slash c = nat_eq c b'/'

abbrev is_digit : ℕ → Bool
is_digit c = leb b'0' c && leb c b'9'

-- The first group of `(.+):([0-9]+)`, before its tests of characters: the text up to the last colon
-- with digits behind it.
unfoldable pub before_line : String → Option String
before_line String.[] = none
before_line (String.◌∷◌ c s) = elim (before_line s) [
  | some p ↦ some (String.◌∷◌ c p)
  | none ↦
      if nat_eq (code c) b':' && not (is_empty (codes s)) && all is_digit (codes s)
      then some ""
      else none
]

unfoldable pub local_evidence_reference_is_safe : String → Bool
local_evidence_reference_is_safe reference = elim (before_line reference) [
  | none ↦ true
  | some p ↦ if is_empty (codes p) || any (λ c. nat_eq c 10) (codes p) then true else is_portable p
]

module _ (texts : Texts) where
  abbrev pub url_parts : Url → List (List ℕ)
  url_parts url = split b'/' (strip is_slash (codes url.path))

  -- The parts of a reference under `github.com`; fewer than four do not match.
  unfoldable pub parts_match : Occurrence → List (List ℕ) → Bool
  parts_match item (owner ∷ name ∷ kind ∷ id ∷ rest) =
      owner ++ b'/' ∷ name == codes item.repository
      && (if kind == codes "pull"
          then is_empty rest && id == codes (texts.show_nat item.pull_request)
          else nat_eq (length rest) 1 && kind == codes "actions" && id == codes "runs")
  parts_match item _ = false

  unfoldable pub occurrence_reference_matches : Occurrence → Bool
  occurrence_reference_matches item =
      let url = texts.urlsplit item.evidence_ref in
      if starts_with (codes "https://github.com/") (codes item.evidence_ref)
      then url.netloc == "github.com"
        && is_empty (codes url.query)
        && is_empty (codes url.fragment)
        && parts_match item (url_parts url)
      else true

  -- `finding["normalized_invariant"].strip().lower()`, encoded and hashed.
  abbrev pub fingerprint : String → String
  unfolding is_space utf8
  fingerprint invariant = texts.sha256_text (utf8 (texts.lower (strip is_space (codes invariant))))

  abbrev pub expected_eligible : FindingClass → Bool
  expected_eligible c = ltb (length c.occurrences) 3 || c.guardrail.validated

  abbrev pub flag : Bool → String → String → List String
  flag raised message id = if raised then String.◌++◌ message id ∷ [] else []

  -- The errors on one class, with what the classes before it have shown.
  unfoldable pub class_errors : List String → List String → FindingClass → List String
  class_errors seen_ids seen_fingerprints c =
      flag (contains c.finding_class_id seen_ids) "duplicate finding_class_id: " c.finding_class_id
      ++ flag (contains c.fingerprint_sha256 seen_fingerprints) "duplicate fingerprint_sha256: "
          c.fingerprint_sha256
      ++ flag (not (c.fingerprint_sha256 == fingerprint c.normalized_invariant))
          "fingerprint_sha256 does not match normalized_invariant: " c.finding_class_id
      ++ flag (not (all_distinct c.occurrences)) "duplicate occurrence evidence: "
          c.finding_class_id
      ++ flag (not (all occurrence_reference_matches c.occurrences))
          "occurrence evidence does not match repository and pull request: " c.finding_class_id
      ++ flag (not (c.merge_eligible == expected_eligible c))
          (if expected_eligible c
            then "merge_eligible must be true: "
            else "merge_eligible must be false: ")
          c.finding_class_id

  unfoldable pub invariant_errors : List String → List String → List FindingClass → List String
  invariant_errors seen_ids seen_fingerprints [] = []
  invariant_errors seen_ids seen_fingerprints (c ∷ cs) =
      class_errors seen_ids seen_fingerprints c
      ++ invariant_errors (c.finding_class_id ∷ seen_ids) (c.fingerprint_sha256 ∷ seen_fingerprints)
          cs

-- `guardrail.get("artifact_ref", guardrail.get("blocker_ref", ""))`
abbrev guardrail_reference : Guardrail → String
guardrail_reference g = elim g.artifact_ref [
  | some a ↦ a
  | none ↦ elim g.blocker_ref [ some b ↦ b | none ↦ "" ]
]

abbrev occurrence_references : List Occurrence → List String
occurrence_references [] = []
occurrence_references (o ∷ os) = o.evidence_ref ∷ occurrence_references os

abbrev pub references : FindingClass → List String
references c = occurrence_references c.occurrences ++ guardrail_reference c.guardrail ∷ []

unfoldable pub reference_errors : List FindingClass → List String
reference_errors [] = []
reference_errors (c ∷ cs) =
    let rest = reference_errors cs in
    if all local_evidence_reference_is_safe (references c)
    then rest
    else "ledger contains an unsafe local evidence reference" ∷ rest

-- The ledger could not be read, the schema gave up on its depth or found errors, or these are its
-- classes.
pub data Reading : Type 0 where
  unreadable too_deep : Reading
  schema_errors : String → List String → Reading
  classes : List FindingClass → Reading

abbrev pub sweep_findings : String → List String → List PrSweepFinding
sweep_findings code [] = []
sweep_findings code (m ∷ ms) = finding code m ∷ sweep_findings code ms

-- A result of the kind `recurring_findings`.
pub record RecurringResult : Type 0 where
  pub status : SweepStatus
  pub findings : List PrSweepFinding

abbrev failed : String → String → RecurringResult
failed code message = record { status = fail; findings = finding code message ∷ [] }

unfoldable pub validate_recurring_findings : Texts → Reading → RecurringResult
validate_recurring_findings texts unreadable =
    failed "ledger_unreadable" "could not read or parse ledger JSON"
validate_recurring_findings texts too_deep =
    failed "ledger_schema" "ledger structure exceeds validation depth"
validate_recurring_findings texts (schema_errors e es) = record {
  status = fail;
  findings = sweep_findings "ledger_schema" (sorted (e ∷ es));
}
validate_recurring_findings texts (classes cs) =
    let errors = reference_errors cs ++ invariant_errors texts [] [] cs in
    record {
      status = if is_empty errors then pass else fail;
      findings = sweep_findings "ledger_invariant" (sorted errors);
    }
