-- ===== src/Registry/Validation.antt =====
-- The validators of a preparation receipt, of src/skills_sdk/models/registry.py, as a test: a
-- receipt that pydantic refuses is `false`.
use skills_sdk.Prelude.{
  Bool, true, false, not, ◌&&◌, none, some, List, [], ◌∷◌, String, codes, leb, length, ◌==◌,
  string_eq, option_eq, is_space, ℕ, all,
}
use skills_sdk.Packaging.{list_beq}
use skills_sdk.Packaging.Validation.{is_none, is_empty}
use skills_sdk.Registry.Redaction.{
  components_are_redaction_safe, registry_evidence_is_redaction_safe,
}
use skills_sdk.Registry.Version.{is_registry_version}
use skills_sdk.Registry.Models.{
  RegistryIdentity, RegistryPreparationBlocker, RegistryPreparationReceipt,
  RegistryPreparationRequest, prepared, refs_ok, registry_package_name_max_length, blocker_ok,
}

-- The blocker has an equality, which the validator uses.
abbrev pub blocker_beq : RegistryPreparationBlocker → RegistryPreparationBlocker → Bool
blocker_beq a b =
    a.code == b.code
    && a.message == b.message
    && list_beq a.evidence_refs b.evidence_refs
    && list_beq a.source_evidence_sha256 b.source_evidence_sha256
    && a.source_blocker_sha256 == b.source_blocker_sha256

abbrev ends_with_space : List ℕ → Bool
unfolding is_space
ends_with_space [] = false
ends_with_space (c ∷ []) = is_space c
ends_with_space (c ∷ d ∷ cs) = ends_with_space (d ∷ cs)

-- `value == value.strip()`
unfoldable pub is_stripped : List ℕ → Bool
unfolding is_space ends_with_space
is_stripped [] = true
is_stripped (c ∷ cs) = not (is_space c) && not (ends_with_space (c ∷ cs))

-- `RegistryIdentity.identity_text_is_redaction_safe`
unfoldable pub identity_text_is_redaction_safe : String → Bool
identity_text_is_redaction_safe value =
    is_stripped (codes value) && components_are_redaction_safe value

unfoldable pub identity_ok : RegistryIdentity → Bool
unfolding identity_text_is_redaction_safe
identity_ok r =
    identity_text_is_redaction_safe r.registry_id && identity_text_is_redaction_safe r.namespace

-- The field validators that requests and receipts share.
unfoldable pub fields_ok : String → String → List String → Bool
fields_ok package_name version evidence =
    registry_evidence_is_redaction_safe package_name
    && is_stripped (codes version)
    && registry_evidence_is_redaction_safe version
    && not (is_empty evidence)
    && refs_ok evidence

-- `RegistryPreparationRequest`
unfoldable pub request_ok : RegistryPreparationRequest → Bool
request_ok r = identity_ok r.registry && fields_ok r.package_name r.version r.evidence

-- The part of `status_matches_artifacts` on a prepared receipt.
unfoldable pub prepared_ok : RegistryPreparationReceipt → Bool
prepared_ok r = elim r.candidate [
  | none ↦ false
  | some candidate ↦
      not (is_none r.package_digest)
      && not (is_none r.manifest_digest)
      && not (is_none r.hardening_receipt_sha256)
      && r.package_digest == r.manifest_digest
      && r.package_name == candidate.package_id
      && leb (length (codes r.package_name)) registry_package_name_max_length
      && is_registry_version r.version
      && is_none r.blocker
      && is_empty r.blockers
]

-- The part on a blocked one.
unfoldable pub stopped_ok : RegistryPreparationReceipt → Bool
stopped_ok r = elim r.blocker [
  | none ↦ false
  | some b ↦ elim r.blockers [
    | [] ↦ false
    | first ∷ _ ↦
        blocker_beq first b
        && is_none r.package_digest
        && is_none r.manifest_digest
        && is_none r.hardening_receipt_sha256
  ]
]

-- `RegistryPreparationReceipt`, with the blockers and warnings in it.
unfoldable pub preparation_ok : RegistryPreparationReceipt → Bool
preparation_ok r =
    identity_ok r.registry
    && fields_ok r.package_name r.version r.evidence
    && elim r.blocker [ none ↦ true | some b ↦ blocker_ok b ]
    && all blocker_ok r.blockers
    && all (λ w. refs_ok w.evidence_refs) r.warnings
    && elim r.status [ prepared ↦ prepared_ok r | _ ↦ stopped_ok r ]
