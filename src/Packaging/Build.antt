-- ===== src/Packaging/Build.antt =====
-- `build_skill_package` of src/skills_sdk/packaging/manifest.py, with the validation result that it
-- builds from, of src/skills_sdk/models/validation.py.
pub mod Laws
mod Tests
use Prim.Native.String
use skills_sdk.Json.{
  Json, Hash, text, array, object, texts, boolean, optional, canonical_json_sha256,
}
use skills_sdk.Paths.{is_portable}
use skills_sdk.Packaging.{
  PackageCandidateIdentity, PackageManifest, PackageManifestFile, PackageReceipt,
  PackageReceiptBlocker, BuildStatus, built, file_paths, candidate_json, files_json,
  manifest_digest,
}
use skills_sdk.Packaging.Validation.{is_empty, is_none}
use skills_sdk.Prelude.{
  ◌==◌, ℕ, Bool, true, false, not, ◌&&◌, Option, none, some, List, [], ◌∷◌, String, string_eq, all,
  any, all_distinct,
}

pub record SkillIdentity : Type 0 where
  pub package_id : String
  pub name : String
  pub version : String

pub data Severity : Type 0 where
  warning blocker : Severity

pub record SkillPackageFinding : Type 0 where
  pub code : String
  pub severity : Severity
  pub message : String
  pub evidence_refs : List String

pub data ValidationStatus : Type 0 where
  pass blocked : ValidationStatus

pub record SkillPackageValidation : Type 0 where
  pub candidate : Option PackageCandidateIdentity
  pub status : ValidationStatus
  pub identity : Option SkillIdentity
  pub files : List PackageManifestFile
  pub findings : List SkillPackageFinding

abbrev pub severity_text : Severity → String
severity_text warning = "warning"
severity_text blocker = "blocker"

abbrev pub is_blocking : SkillPackageFinding → Bool
is_blocking f = elim f.severity [ warning ↦ false | blocker ↦ true ]

abbrev pub identity_json : SkillIdentity → Json
identity_json i = object (
    ("schema_version", text "skill-identity/v1")
    ∷ ("package_type", text "skill")
    ∷ ("package_id", text i.package_id)
    ∷ ("name", text i.name)
    ∷ ("version", text i.version)
    ∷ [])

abbrev pub findings_json : List SkillPackageFinding → List Json
findings_json [] = []
findings_json (f ∷ fs) =
    object (
      ("code", text f.code)
      ∷ ("severity", text (severity_text f.severity))
      ∷ ("message", text f.message)
      ∷ ("evidence_refs", array (texts f.evidence_refs))
      ∷ [])
    ∷ findings_json fs

abbrev pub status_word : ValidationStatus → String
status_word pass = "pass"
status_word ValidationStatus.blocked = "blocked"

abbrev pub validation_json : SkillPackageValidation → Json
validation_json v = object (
    ("schema_version", text "skill-package-validation/v1")
    ∷ ("candidate", optional candidate_json v.candidate)
    ∷ ("status", text (status_word v.status))
    ∷ ("identity", optional identity_json v.identity)
    ∷ ("files", array (files_json v.files))
    ∷ ("findings", array (findings_json v.findings))
    ∷ ("mutation_performed", boolean false)
    ∷ [])

abbrev pub refs_portable : SkillPackageFinding → Bool
refs_portable f = all is_portable f.evidence_refs

abbrev pub passing_ok : SkillPackageValidation → Bool
passing_ok v = not (any is_blocking v.findings) && not (is_empty v.files) && elim v.candidate [
  | none ↦ false
  | some candidate ↦ elim v.identity [
    | none ↦ false
    | some identity ↦ identity.package_id == candidate.package_id
  ]
]

-- `SkillPackageValidation`, its files and its findings.
unfoldable pub validation_ok : SkillPackageValidation → Bool
unfolding is_portable all_distinct
validation_ok v =
    all is_portable (file_paths v.files)
    && all refs_portable v.findings
    && elim v.status [ pass ↦ passing_ok v | ValidationStatus.blocked ↦ any is_blocking v.findings ]
    && all_distinct (file_paths v.files)

-- The first 16 digits of a digest behind a name.
abbrev pub package_receipt_id : String → String → String
package_receipt_id name digest = String.◌++◌ name (String.◌++◌ "-" (String.slice digest 0 16))

-- `tuple(item.path for item in files) or ("SKILL.md",)`
abbrev pub build_evidence : List PackageManifestFile → List String
build_evidence [] = "SKILL.md" ∷ []
build_evidence (f ∷ fs) = file_paths (f ∷ fs)

abbrev pub built_manifest :
    PackageCandidateIdentity → SkillIdentity → List PackageManifestFile → PackageManifest
built_manifest candidate identity files = record {
  candidate = candidate;
  version = identity.version;
  files = files;
  provenance = record { source = "SKILL.md" ∷ []; builder = "skills-sdk.packaging.manifest/v1" };
}

module _ (h : Hash) where
  abbrev pub blocked_build_id : SkillPackageValidation → String
  blocked_build_id v = elim v.candidate [
    | some candidate ↦ package_receipt_id candidate.package_id candidate.content_sha256
    | none ↦ package_receipt_id "blocked" (canonical_json_sha256 h (validation_json v))
  ]

  unfoldable pub blocked_build :
      SkillPackageValidation → SkillPackageFinding → ℕ → ℕ → PackageReceipt
  blocked_build v first started finished = record {
    receipt_id = blocked_build_id v;
    candidate = v.candidate;
    status = BuildStatus.blocked;
    started_at = started;
    finished_at = finished;
    evidence = build_evidence v.files;
    blocker = some (record {
      code = first.code;
      message = first.message;
      evidence_refs = first.evidence_refs;
    });
    package_digest = none;
    manifest = none;
    included_files = [];
    excluded_files = [];
  }

  unfoldable pub built_receipt :
      PackageCandidateIdentity → SkillIdentity → List PackageManifestFile → ℕ → ℕ → PackageReceipt
  built_receipt candidate identity files started finished =
      let manifest = built_manifest candidate identity files in
      record {
        receipt_id = package_receipt_id candidate.package_id candidate.content_sha256;
        candidate = some candidate;
        status = built;
        started_at = started;
        finished_at = finished;
        evidence = build_evidence files;
        blocker = none;
        package_digest = some (manifest_digest h manifest);
        manifest = some manifest;
        included_files = build_evidence files;
        excluded_files = [];
      }

  -- From the result of `validate_skill_package` and the two readings of the clock. `none` is an
  -- `IndexError` or an assertion.
  unfoldable pub build_skill_package : SkillPackageValidation → ℕ → ℕ → Option PackageReceipt
  unfolding blocked_build built_receipt
  build_skill_package v started finished = elim v.status [
    | ValidationStatus.blocked ↦ elim v.findings [
      | [] ↦ none
      | first ∷ _ ↦ some (blocked_build v first started finished)
    ]
    | pass ↦ elim v.candidate [
      | none ↦ none
      | some candidate ↦ elim v.identity [
        | none ↦ none
        | some identity ↦ some (built_receipt candidate identity v.files started finished)
      ]
    ]
  ]
