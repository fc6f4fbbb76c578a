-- ===== src/Registry/Models.antt =====
-- The contracts of src/skills_sdk/models/registry.py, with their JSON forms.
use skills_sdk.Prelude.{ℕ, Bool, ◌&&◌, Option, List, [], ◌∷◌, String, all, string_eq, option_eq}
use skills_sdk.Json.{Json, text, array, object, texts, optional}
use skills_sdk.Packaging.{PackageCandidateIdentity}
use skills_sdk.Packaging.Validation.{paths_ok}
use skills_sdk.Registry.Redaction.{registry_evidence_is_redaction_safe}

pub record RegistryIdentity : Type 0 where
  pub registry_id : String
  pub namespace : String

pub record RegistryPreparationRequest : Type 0 where
  pub registry : RegistryIdentity
  pub package_name : String
  pub version : String
  pub evidence : List String

pub record RegistryPreparationBlocker : Type 0 where
  pub code : String
  pub message : String
  pub evidence_refs : List String
  pub source_evidence_sha256 : List String
  pub source_blocker_sha256 : Option String

pub record RegistryPreparationWarning : Type 0 where
  pub warning_sha256 : String
  pub evidence_refs : List String
  pub source_evidence_sha256 : List String

pub data PreparationStatus : Type 0 where
  prepared blocked : PreparationStatus

pub record RegistryPreparationReceipt : Type 0 where
  pub receipt_id : String
  pub candidate : Option PackageCandidateIdentity
  pub registry : RegistryIdentity
  pub package_name : String
  pub version : String
  pub input_receipt_id : String
  pub package_digest : Option String
  pub manifest_digest : Option String
  pub hardening_receipt_sha256 : Option String
  pub status : PreparationStatus
  pub evidence : List String
  pub blocker : Option RegistryPreparationBlocker
  pub blockers : List RegistryPreparationBlocker
  pub warnings : List RegistryPreparationWarning

abbrev pub registry_package_name_max_length : ℕ
registry_package_name_max_length = 64

abbrev pub registry_json : RegistryIdentity → Json
registry_json r = object (
    ("schema_version", text "registry-identity/v1")
    ∷ ("registry_id", text r.registry_id)
    ∷ ("registry_kind", text "private")
    ∷ ("namespace", text r.namespace)
    ∷ [])

abbrev pub request_json : RegistryPreparationRequest → Json
request_json r = object (
    ("schema_version", text "registry-preparation-request/v1")
    ∷ ("registry", registry_json r.registry)
    ∷ ("package_name", text r.package_name)
    ∷ ("version", text r.version)
    ∷ ("evidence", array (texts r.evidence))
    ∷ [])

abbrev pub blocker_json : RegistryPreparationBlocker → Json
blocker_json b = object (
    ("code", text b.code)
    ∷ ("message", text b.message)
    ∷ ("evidence_refs", array (texts b.evidence_refs))
    ∷ ("source_evidence_sha256", array (texts b.source_evidence_sha256))
    ∷ ("source_blocker_sha256", optional text b.source_blocker_sha256)
    ∷ [])

abbrev pub blockers_json : List RegistryPreparationBlocker → List Json
blockers_json [] = []
blockers_json (b ∷ bs) = blocker_json b ∷ blockers_json bs

abbrev pub warning_json : RegistryPreparationWarning → Json
warning_json w = object (
    ("status", text "warning")
    ∷ ("warning_sha256", text w.warning_sha256)
    ∷ ("evidence_refs", array (texts w.evidence_refs))
    ∷ ("source_evidence_sha256", array (texts w.source_evidence_sha256))
    ∷ [])

abbrev pub warnings_json : List RegistryPreparationWarning → List Json
warnings_json [] = []
warnings_json (w ∷ ws) = warning_json w ∷ warnings_json ws

-- The validator of `evidence_refs`: distinct, portable, and without credentials.
unfoldable pub refs_ok : List String → Bool
unfolding paths_ok registry_evidence_is_redaction_safe
refs_ok values = paths_ok values && all registry_evidence_is_redaction_safe values

-- `RegistryPreparationBlocker`
unfoldable pub blocker_ok : RegistryPreparationBlocker → Bool
blocker_ok b =
    registry_evidence_is_redaction_safe b.code
    && registry_evidence_is_redaction_safe b.message
    && refs_ok b.evidence_refs
