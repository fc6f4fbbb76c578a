-- ===== src/Registry/Prepare.antt =====
-- `_input_blockers`, `_blocked_receipt` and `_prepared_receipt` of
-- src/skills_sdk/distribution/private_registry.py. `none` is a failed assertion.
use Prim.Native.String
use skills_sdk.Prelude.{
  Bool, true, false, not, ◌||◌, Option, none, some, List, [], ◌∷◌, String, codes, length, ltb, ◌==◌,
  string_eq, option_eq, if◌then◌else◌,
}
use skills_sdk.Json.{
  Hash, Json, boolean, number, text, array, object, texts, optional, canonical_json_sha256,
}
use skills_sdk.Packaging.{
  PackageCandidateIdentity, candidate_json, PackageManifest, PackageReceipt, candidate_eq,
  manifest_digest,
}
use skills_sdk.Hardening.{
  PackageHardeningCheck, PackageHardeningPolicy, PackageHardeningReceipt, is_built,
}
use skills_sdk.Registry.Version.{is_registry_version}
use skills_sdk.Registry.Models.{
  RegistryPreparationRequest, RegistryPreparationBlocker, RegistryPreparationWarning,
  RegistryPreparationReceipt, PreparationStatus, prepared, registry_package_name_max_length,
  request_json, blocker_json, blockers_json, warnings_json, refs_ok, blocker_ok,
}
use skills_sdk.Registry.Models
use skills_sdk.Registry.Evidence.{
  check_json, registry_blocker, hardening_blockers, registry_warnings,
}

abbrev pub checks_json : List PackageHardeningCheck → List Json
checks_json [] = []
checks_json (c ∷ cs) = check_json c ∷ checks_json cs

abbrev pub policy_json : PackageHardeningPolicy → Json
policy_json p = object (
    ("max_file_count", number p.max_file_count)
    ∷ ("max_total_bytes", number p.max_total_bytes)
    ∷ ("require_readme", boolean p.require_readme)
    ∷ [])

abbrev pub build_status_text : Bool → String
build_status_text true = "built"
build_status_text false = "blocked"

abbrev pub status_text : Bool → String
status_text true = "blocked"
status_text false = "pass"

-- `hardening_receipt.model_dump(mode="json")`
unfoldable pub hardening_json : PackageHardeningReceipt → Json
hardening_json r = object (
    ("schema_version", text "package-hardening/v1")
    ∷ ("candidate", optional candidate_json r.candidate)
    ∷ ("build_status", text (build_status_text (is_built r.build_status)))
    ∷ ("status", text (status_text r.status_blocked))
    ∷ ("package_digest", optional text r.package_digest)
    ∷ ("effective_policy", policy_json r.effective_policy)
    ∷ ("included_files", array (texts r.included_files))
    ∷ ("file_count", number r.file_count)
    ∷ ("total_size_bytes", number r.total_size_bytes)
    ∷ ("hardening_checks", array (checks_json r.hardening_checks))
    ∷ ("blockers", array (checks_json r.blockers))
    ∷ ("warnings", array (checks_json r.warnings))
    ∷ ("mutation_performed", boolean false)
    ∷ (
      "acceptance_trace",
      array (texts ("portable-package" ∷ "immutable-candidate" ∷ "non-mutating-hardening" ∷ [])),
    )
    ∷ [])

abbrev pub plain_blocker : String → String → RegistryPreparationBlocker
plain_blocker code message = record {
  code = code;
  message = message;
  evidence_refs = [];
  source_evidence_sha256 = [];
  source_blocker_sha256 = none;
}

module _ (h : Hash) where
  unfoldable pub blocked_input : PackageReceipt → List RegistryPreparationBlocker
  blocked_input pkg = elim pkg.blocker [
    | some b ↦ registry_blocker h b ∷ []
    | none ↦
        plain_blocker "package_receipt_blocked"
          "Private-registry preparation requires a built package receipt."
        ∷ []
  ]

  -- The tests after the version: the name, its length and the form of the version.
  unfoldable pub name_blockers :
      PackageCandidateIdentity → RegistryPreparationRequest → List RegistryPreparationBlocker
  name_blockers candidate request =
      if not (request.package_name == candidate.package_id)
      then plain_blocker "package_name_mismatch"
          "Registry package name must match the immutable candidate package_id."
        ∷ []
      else if ltb registry_package_name_max_length (length (codes request.package_name))
      then plain_blocker "registry_package_name_unsupported"
          "Registry package name exceeds the supported length limit."
        ∷ []
      else if not (is_registry_version request.version)
      then plain_blocker "registry_version_unsupported"
          "Registry version must use canonical Semantic Versioning."
        ∷ []
      else []

  unfoldable pub version_blockers :
      PackageManifest
      → PackageReceipt
      → PackageHardeningReceipt
      → RegistryPreparationRequest
      → Option (List RegistryPreparationBlocker)
  unfolding name_blockers
  version_blockers manifest pkg hardening request =
      if not (request.version == manifest.version)
      then some (
          plain_blocker "package_version_mismatch"
            "Registry version must match the immutable package manifest version."
          ∷ (if hardening.status_blocked then hardening_blockers h hardening.blockers else []))
      else if hardening.status_blocked
      then some (hardening_blockers h hardening.blockers)
      else elim pkg.candidate [
        | none ↦ none
        | some candidate ↦ some (name_blockers candidate request)
      ]

  unfoldable pub input_blockers :
      PackageReceipt
      → PackageHardeningReceipt
      → RegistryPreparationRequest
      → Option (List RegistryPreparationBlocker)
  unfolding blocked_input version_blockers
  input_blockers pkg hardening request =
      if not (is_built pkg.status)
      then some (blocked_input pkg)
      else if not (hardening.candidate == pkg.candidate)
          || not (hardening.package_digest == pkg.package_digest)
      then some (
          plain_blocker "hardening_identity_mismatch"
            "Package and hardening receipts must bind the same candidate and package digest."
          ∷ [])
      else elim pkg.manifest [
        | none ↦ none
        | some manifest ↦ version_blockers manifest pkg hardening request
      ]

  -- The identity that the id of a blocked receipt is the digest of.
  abbrev pub blocked_identity :
      PackageReceipt
      → PackageHardeningReceipt
      → RegistryPreparationRequest
      → RegistryPreparationBlocker
      → List RegistryPreparationBlocker
      → List RegistryPreparationWarning
      → Json
  blocked_identity pkg hardening request blocker blockers warnings = object (
      ("candidate", optional candidate_json pkg.candidate)
      ∷ ("request", request_json request)
      ∷ ("input_receipt_id", text pkg.receipt_id)
      ∷ ("hardening_receipt_sha256", text (canonical_json_sha256 h (hardening_json hardening)))
      ∷ ("blocker", blocker_json blocker)
      ∷ ("blockers", array (blockers_json blockers))
      ∷ ("warnings", array (warnings_json warnings))
      ∷ [])

  -- `registry-preparation-` and the first 24 digits of the digest.
  abbrev pub preparation_id : Json → String
  preparation_id payload =
      String.◌++◌ "registry-preparation-" (String.slice (canonical_json_sha256 h payload) 0 24)

  unfoldable pub blocked_receipt :
      PackageReceipt
      → PackageHardeningReceipt
      → RegistryPreparationRequest
      → RegistryPreparationBlocker
      → List RegistryPreparationBlocker
      → List RegistryPreparationWarning
      → RegistryPreparationReceipt
  blocked_receipt pkg hardening request blocker blockers warnings = record {
    receipt_id = preparation_id (blocked_identity pkg hardening request blocker blockers warnings);
    candidate = pkg.candidate;
    registry = request.registry;
    package_name = request.package_name;
    version = request.version;
    input_receipt_id = pkg.receipt_id;
    package_digest = none;
    manifest_digest = none;
    hardening_receipt_sha256 = none;
    status = Models.PreparationStatus.blocked;
    evidence = request.evidence;
    blocker = some blocker;
    blockers = blockers;
    warnings = warnings;
  }

  abbrev pub prepared_identity :
      PackageReceipt
      → PackageHardeningReceipt
      → RegistryPreparationRequest
      → PackageCandidateIdentity
      → PackageManifest
      → String
      → Json
  prepared_identity pkg hardening request candidate manifest digest = object (
      ("candidate", candidate_json candidate)
      ∷ ("request", request_json request)
      ∷ ("input_receipt_id", text pkg.receipt_id)
      ∷ ("package_digest", text digest)
      ∷ ("manifest_digest", text (manifest_digest h manifest))
      ∷ ("hardening_receipt_sha256", text (canonical_json_sha256 h (hardening_json hardening)))
      ∷ ("warnings", array (warnings_json (registry_warnings h hardening.warnings)))
      ∷ [])

  unfoldable pub prepared_with :
      PackageReceipt
      → PackageHardeningReceipt
      → RegistryPreparationRequest
      → PackageCandidateIdentity
      → PackageManifest
      → String
      → RegistryPreparationReceipt
  prepared_with pkg hardening request candidate manifest digest = record {
    receipt_id = preparation_id (prepared_identity pkg hardening request candidate manifest digest);
    candidate = some candidate;
    registry = request.registry;
    package_name = request.package_name;
    version = request.version;
    input_receipt_id = pkg.receipt_id;
    package_digest = some digest;
    manifest_digest = some (manifest_digest h manifest);
    hardening_receipt_sha256 = some (canonical_json_sha256 h (hardening_json hardening));
    status = prepared;
    evidence = request.evidence;
    blocker = none;
    blockers = [];
    warnings = registry_warnings h hardening.warnings;
  }

  -- The three assertions of `_prepared_receipt`.
  unfoldable pub prepared_receipt :
      PackageReceipt
      → PackageHardeningReceipt
      → RegistryPreparationRequest
      → Option RegistryPreparationReceipt
  unfolding prepared_with
  prepared_receipt pkg hardening request = elim pkg.candidate [
    | none ↦ none
    | some candidate ↦ elim pkg.manifest [
      | none ↦ none
      | some manifest ↦ elim pkg.package_digest [
        | none ↦ none
        | some digest ↦ some (prepared_with pkg hardening request candidate manifest digest)
      ]
    ]
  ]

  -- A hardening receipt keeps its warnings unless the package is blocked or bound to another one.
  abbrev pub kept_warnings :
      PackageReceipt
      → PackageHardeningReceipt
      → RegistryPreparationBlocker
      → List RegistryPreparationWarning
  kept_warnings pkg hardening first =
      if not (is_built pkg.status) || first.code == "hardening_identity_mismatch"
      then []
      else registry_warnings h hardening.warnings

  -- The receipt that `prepare_private_registry_candidate` makes of validated arguments.
  unfoldable pub preparation_of :
      PackageReceipt
      → PackageHardeningReceipt
      → RegistryPreparationRequest
      → Option RegistryPreparationReceipt
  unfolding input_blockers prepared_receipt blocked_receipt
  preparation_of pkg hardening request = elim (input_blockers pkg hardening request) [
    | none ↦ none
    | some [] ↦ prepared_receipt pkg hardening request
    | some (first ∷ others) ↦ some (
        blocked_receipt pkg hardening request first (first ∷ others)
          (kept_warnings pkg hardening first))
  ]
