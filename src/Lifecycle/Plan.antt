-- ===== src/Lifecycle/Plan.antt =====
-- The install plan of src/skills_sdk/models/lifecycle.py with its validators, and
-- `plan_runtime_install` of src/skills_sdk/lifecycle/planning.py.
use skills_sdk.Registry.Validation.{identity_ok}
use skills_sdk.Prelude.{
  true, false, none, some, not, Bool, if◌then◌else◌, [], Option, String, text_le, ◌∷◌, List,
  all_distinct, string_eq, option_eq, ◌==◌, all, ◌&&◌,
}
use Prim.Native.String
use skills_sdk.Json.{
  Hash, Json, text, array, object, texts, optional, canonical_json_sha256, content_bytes,
}
use skills_sdk.Packaging.Validation.{is_empty, is_none}
use skills_sdk.Registry.Models.{
  RegistryIdentity, RegistryPreparationBlocker, registry_json, blocker_json,
}
use skills_sdk.Packaging.{PackageCandidateIdentity, candidate_json, candidate_eq}
use skills_sdk.Paths.{is_portable}
use skills_sdk.Lifecycle.PublicText.{lifecycle_text_is_public_safe}
use skills_sdk.Lifecycle.{
  RuntimeTarget, RuntimeFile, RuntimeLockEntry, RuntimeLock, Operation, install, update, no_change,
  Scope, user, project, target_beq, registry_beq, lock_ok,
}

pub data PlanStatus : Type 0 where
  planned blocked : PlanStatus

pub record InstallPlan : Type 0 where
  pub plan_id : String
  pub candidate : Option PackageCandidateIdentity
  pub package_name : String
  pub version : String
  pub package_digest : Option String
  pub package_receipt_id : String
  pub status : PlanStatus
  pub operation : Option Operation
  pub target : RuntimeTarget
  pub registry : RegistryIdentity
  pub registry_preparation_receipt_id : String
  pub registry_input_receipt_id : String
  pub current_lock_sha256 : String
  pub rollback_lock_sha256 : String
  pub proposed_lock_sha256 : Option String
  pub proposed_entry : Option RuntimeLockEntry
  pub evidence : List String
  pub blocker : Option RegistryPreparationBlocker

abbrev scope_text : Scope → String
scope_text user = "user"
scope_text project = "project"

abbrev pub operation_text : Operation → String
operation_text install = "install"
operation_text update = "update"
operation_text no_change = "no_change"

-- `model_dump(mode="json")` of the models.
abbrev pub target_json : RuntimeTarget → Json
target_json t = object (("scope", text (scope_text t.scope)) ∷ ("target_id", text t.target_id) ∷ [])

abbrev runtime_files_json : List RuntimeFile → List Json
runtime_files_json [] = []
runtime_files_json (f ∷ fs) =
    object (("path", text f.path) ∷ ("sha256", text f.sha256) ∷ []) ∷ runtime_files_json fs

abbrev pub entry_json : RuntimeLockEntry → Json
entry_json e = object (
    ("package_name", text e.package_name)
    ∷ ("version", text e.version)
    ∷ ("candidate", candidate_json e.candidate)
    ∷ ("package_digest", text e.package_digest)
    ∷ ("registry", registry_json e.registry)
    ∷ ("package_receipt_id", text e.package_receipt_id)
    ∷ ("registry_preparation_receipt_id", text e.registry_preparation_receipt_id)
    ∷ ("target", target_json e.target)
    ∷ ("files", array (runtime_files_json e.files))
    ∷ [])

abbrev entries_json : List RuntimeLockEntry → List Json
entries_json [] = []
entries_json (e ∷ es) = entry_json e ∷ entries_json es

abbrev pub lock_json : RuntimeLock → Json
lock_json lock = object (
    ("schema_version", text "runtime-lock/v1")
    ∷ ("entries", array (entries_json lock.entries))
    ∷ [])

-- `sort_keys=True` on the members of an object.
insert_member : String → Json → List (String × Json) → List (String × Json)
unfolding text_le
insert_member k v [] = (k, v) ∷ []
insert_member k v ((l, w) ∷ ms) =
    let rest = insert_member k v ms in if text_le k l then (k, v) ∷ (l, w) ∷ ms else (l, w) ∷ rest

unfoldable pub sorted_members : List (String × Json) → List (String × Json)
unfolding insert_member
sorted_members [] = []
sorted_members ((k, v) ∷ ms) = insert_member k v (sorted_members ms)

-- `candidate_content_sha256` on the files of an entry.
abbrev pub runtime_pairs : List RuntimeFile → List (String × String)
runtime_pairs [] = []
runtime_pairs (f ∷ fs) = (f.path, f.sha256) ∷ runtime_pairs fs

abbrev pub runtime_paths : List RuntimeFile → List String
runtime_paths [] = []
runtime_paths (f ∷ fs) = f.path ∷ runtime_paths fs

-- `_require_public_portable_text` accepts the text.
unfoldable pub is_public_path : String → Bool
is_public_path value = is_portable value && lifecycle_text_is_public_safe value

unfoldable pub target_ok : RuntimeTarget → Bool
target_ok t = lifecycle_text_is_public_safe t.target_id

-- `_identity_payload`
unfoldable pub identity_payload : InstallPlan → List (String × Json)
identity_payload plan =
    ("candidate", optional candidate_json plan.candidate)
    ∷ ("package_name", text plan.package_name)
    ∷ ("version", text plan.version)
    ∷ ("package_digest", optional text plan.package_digest)
    ∷ ("package_receipt_id", text plan.package_receipt_id)
    ∷ ("registry", registry_json plan.registry)
    ∷ ("registry_preparation_receipt_id", text plan.registry_preparation_receipt_id)
    ∷ ("registry_input_receipt_id", text plan.registry_input_receipt_id)
    ∷ ("current_lock_sha256", text plan.current_lock_sha256)
    ∷ ("rollback_lock_sha256", text plan.rollback_lock_sha256)
    ∷ ("target", target_json plan.target)
    ∷ ("status", text (elim plan.status [ planned ↦ "planned" | blocked ↦ "blocked" ]))
    ∷ ("evidence", array (texts plan.evidence))
    ∷ elim plan.status [
      | planned ↦
          ("operation", optional (λ o. text (operation_text o)) plan.operation)
          ∷ ("proposed_lock_sha256", optional text plan.proposed_lock_sha256)
          ∷ ("proposed_entry", optional entry_json plan.proposed_entry)
          ∷ []
      | blocked ↦ ("blocker", optional blocker_json plan.blocker) ∷ []
    ]

unfoldable pub evidence_ok : List String → Bool
evidence_ok values = not (is_empty values) && all_distinct values && all is_public_path values

abbrev pub changes_digest : Operation → String → String → Bool
changes_digest no_change current proposed = current == proposed
changes_digest _ current proposed = not (current == proposed)

-- `_validate_planned_state`
unfoldable pub planned_state_ok : InstallPlan → Bool
planned_state_ok plan = elim plan.candidate [
  | none ↦ false
  | some candidate ↦ elim plan.package_digest [
    | none ↦ false
    | some digest ↦ elim plan.operation [
      | none ↦ false
      | some operation ↦ elim plan.proposed_lock_sha256 [
        | none ↦ false
        | some proposed ↦ elim plan.proposed_entry [
          | none ↦ false
          | some entry ↦
              entry.candidate == candidate
              && target_beq entry.target plan.target
              && entry.package_digest == digest
              && entry.package_name == plan.package_name
              && plan.package_name == candidate.package_id
              && entry.version == plan.version
              && entry.package_receipt_id == plan.package_receipt_id
              && entry.registry_preparation_receipt_id == plan.registry_preparation_receipt_id
              && registry_beq entry.registry plan.registry
              && is_none plan.blocker
              && changes_digest operation plan.current_lock_sha256 proposed
        ]
      ]
    ]
  ]
]

-- The other branches of `status_matches_transition`.
unfoldable pub blocked_state_ok : InstallPlan → Bool
blocked_state_ok plan =
    is_none plan.operation
    && is_none plan.proposed_lock_sha256
    && is_none plan.proposed_entry
    && elim plan.blocker [
      | none ↦ false
      | some b ↦
          lifecycle_text_is_public_safe b.code
          && lifecycle_text_is_public_safe b.message
          && all lifecycle_text_is_public_safe b.evidence_refs
    ]
    && elim plan.candidate [ none ↦ true | some c ↦ plan.package_name == c.package_id ]

module _ (h : Hash) where
  -- `RuntimeLockEntry`, with its files, its registry and its target.
  unfoldable pub entry_ok : RuntimeLockEntry → Bool
  entry_ok e =
      lifecycle_text_is_public_safe e.package_name
      && lifecycle_text_is_public_safe e.version
      && lifecycle_text_is_public_safe e.package_receipt_id
      && lifecycle_text_is_public_safe e.registry_preparation_receipt_id
      && identity_ok e.registry
      && target_ok e.target
      && not (is_empty e.files)
      && all is_public_path (runtime_paths e.files)
      && e.package_name == e.candidate.package_id
      && all_distinct (runtime_paths e.files)
      && h.sha256 (content_bytes (runtime_pairs e.files)) == e.candidate.content_sha256

  -- `RuntimeLock`, with its entries.
  unfoldable pub runtime_lock_ok : RuntimeLock → Bool
  runtime_lock_ok lock = all entry_ok lock.entries && lock_ok lock

  abbrev pub lock_digest : RuntimeLock → String
  lock_digest lock = canonical_json_sha256 h (lock_json lock)

  unfoldable pub plan_id_of : List (String × Json) → String
  plan_id_of payload =
      String.◌++◌ "install-plan-"
        (String.slice (canonical_json_sha256 h (object (sorted_members payload))) 0 24)

  -- `InstallPlan`
  unfoldable pub plan_ok : InstallPlan → Bool
  plan_ok plan =
      lifecycle_text_is_public_safe plan.package_name
      && lifecycle_text_is_public_safe plan.version
      && lifecycle_text_is_public_safe plan.package_receipt_id
      && lifecycle_text_is_public_safe plan.registry_preparation_receipt_id
      && lifecycle_text_is_public_safe plan.registry_input_receipt_id
      && evidence_ok plan.evidence
      && plan.rollback_lock_sha256 == plan.current_lock_sha256
      && elim plan.status [
        | planned ↦
            plan.registry_input_receipt_id == plan.package_receipt_id && planned_state_ok plan
        | blocked ↦ blocked_state_ok plan
      ]
      && plan.plan_id == plan_id_of (identity_payload plan)

  -- A plan that its model refuses is an exception, `none`.
  unfoldable pub validated : InstallPlan → Option InstallPlan
  validated plan = if plan_ok plan then some plan else none
