-- ===== src/Lifecycle/Install.antt =====
-- `plan_runtime_install` of src/skills_sdk/lifecycle/planning.py: the plan that it returns, or
-- `none` for an exception.
mod Blocked
mod Planned
pub mod Laws
pub mod Totality
mod Tests
use skills_sdk.Json.{Hash, Json, text, array, texts, optional}
use skills_sdk.Prelude.{
  ◌&&◌, Bool, true, false, ◌==◌, if◌then◌else◌, String, List, [], ◌∷◌, Option, none, some,
}
use skills_sdk.Packaging.{
  PackageCandidateIdentity, PackageManifest, PackageReceipt, BuildStatus, built, candidate_json,
}
use skills_sdk.Packaging.Validation.{receipt_ok}
use skills_sdk.Registry.Validation.{preparation_ok}
use skills_sdk.Registry.Models.{
  RegistryPreparationBlocker, RegistryPreparationReceipt, registry_json, blocker_json,
}
use skills_sdk.Lifecycle.PublicText.{lifecycle_text_is_public_safe}
use skills_sdk.Lifecycle.Identity.{identity_blocker, was_built}
use skills_sdk.Lifecycle.{RuntimeTarget, RuntimeLockEntry, RuntimeLock, lock_ok}
use skills_sdk.Lifecycle.Planning.{planned_entry, proposed_lock, planned_operation}
use skills_sdk.Lifecycle.Plan.{
  InstallPlan, PlanStatus, planned, blocked, operation_text, target_json, entry_json, target_ok,
  entry_ok, runtime_lock_ok, lock_digest, plan_id_of, validated,
}

-- The name, version and digest that a blocked plan carries.
abbrev pub blocked_name : PackageReceipt → RegistryPreparationReceipt → String
blocked_name pkg registered = elim pkg.candidate [
  | none ↦ registered.package_name
  | some c ↦ c.package_id
]

abbrev pub blocked_version : PackageReceipt → RegistryPreparationReceipt → String
blocked_version pkg registered = elim pkg.manifest [
  | none ↦ registered.version
  | some m ↦ m.version
]

abbrev pub blocked_digest : PackageReceipt → Option String
blocked_digest pkg = if was_built pkg.status then pkg.package_digest else none

module _ (h : Hash) (pkg : PackageReceipt) (registered : RegistryPreparationReceipt)
    (lock : RuntimeLock) (target : RuntimeTarget) (evidence : List String) where
  abbrev blocked_identity : RegistryPreparationBlocker → List (String × Json)
  blocked_identity blocker =
      ("candidate", optional candidate_json pkg.candidate)
      ∷ ("package_name", text (blocked_name pkg registered))
      ∷ ("version", text (blocked_version pkg registered))
      ∷ ("package_digest", optional text (blocked_digest pkg))
      ∷ ("package_receipt_id", text pkg.receipt_id)
      ∷ ("registry", registry_json registered.registry)
      ∷ ("registry_preparation_receipt_id", text registered.receipt_id)
      ∷ ("registry_input_receipt_id", text registered.input_receipt_id)
      ∷ ("current_lock_sha256", text (lock_digest h lock))
      ∷ ("rollback_lock_sha256", text (lock_digest h lock))
      ∷ ("target", target_json target)
      ∷ ("status", text "blocked")
      ∷ ("evidence", array (texts evidence))
      ∷ ("blocker", blocker_json blocker)
      ∷ []

  unfoldable pub blocked_plan : RegistryPreparationBlocker → InstallPlan
  blocked_plan blocker = record {
    plan_id = plan_id_of h (blocked_identity blocker);
    candidate = pkg.candidate;
    package_name = blocked_name pkg registered;
    version = blocked_version pkg registered;
    package_digest = blocked_digest pkg;
    package_receipt_id = pkg.receipt_id;
    status = blocked;
    operation = none;
    target = target;
    registry = registered.registry;
    registry_preparation_receipt_id = registered.receipt_id;
    registry_input_receipt_id = registered.input_receipt_id;
    current_lock_sha256 = lock_digest h lock;
    rollback_lock_sha256 = lock_digest h lock;
    proposed_lock_sha256 = none;
    proposed_entry = none;
    evidence = evidence;
    blocker = some blocker;
  }

  abbrev planned_identity :
      PackageCandidateIdentity → String → RuntimeLockEntry → List (String × Json)
  planned_identity candidate digest entry =
      ("candidate", candidate_json candidate)
      ∷ ("package_name", text registered.package_name)
      ∷ ("version", text registered.version)
      ∷ ("package_digest", text digest)
      ∷ ("package_receipt_id", text pkg.receipt_id)
      ∷ ("registry", registry_json registered.registry)
      ∷ ("registry_preparation_receipt_id", text registered.receipt_id)
      ∷ ("registry_input_receipt_id", text registered.input_receipt_id)
      ∷ ("current_lock_sha256", text (lock_digest h lock))
      ∷ ("rollback_lock_sha256", text (lock_digest h lock))
      ∷ ("proposed_lock_sha256", text (lock_digest h (proposed_lock entry lock)))
      ∷ ("target", target_json target)
      ∷ ("status", text "planned")
      ∷ ("operation", text (operation_text (planned_operation entry lock)))
      ∷ ("proposed_entry", entry_json entry)
      ∷ ("evidence", array (texts evidence))
      ∷ []

  unfoldable pub planned_plan : PackageCandidateIdentity → String → RuntimeLockEntry → InstallPlan
  planned_plan candidate digest entry = record {
    plan_id = plan_id_of h (planned_identity candidate digest entry);
    candidate = some candidate;
    package_name = registered.package_name;
    version = registered.version;
    package_digest = some digest;
    package_receipt_id = pkg.receipt_id;
    status = planned;
    operation = some (planned_operation entry lock);
    target = target;
    registry = registered.registry;
    registry_preparation_receipt_id = registered.receipt_id;
    registry_input_receipt_id = registered.input_receipt_id;
    current_lock_sha256 = lock_digest h lock;
    rollback_lock_sha256 = lock_digest h lock;
    proposed_lock_sha256 = some (lock_digest h (proposed_lock entry lock));
    proposed_entry = some entry;
    evidence = evidence;
    blocker = none;
  }

  -- The entry and the lock are models too, and refuse what their validators refuse.
  unfoldable pub plan_entry :
      PackageCandidateIdentity → String → RuntimeLockEntry → Option InstallPlan
  plan_entry candidate digest entry =
      if entry_ok h entry && lock_ok (proposed_lock entry lock)
      then validated h (planned_plan candidate digest entry)
      else none

  unfoldable pub planned_transition : Option InstallPlan
  planned_transition = elim pkg.candidate [
    | none ↦ none
    | some candidate ↦ elim pkg.manifest [
      | none ↦ none
      | some manifest ↦ elim pkg.package_digest [
        | none ↦ none
        | some digest ↦
            plan_entry candidate digest
              (planned_entry pkg registered target candidate manifest digest)
      ]
    ]
  ]

  -- The arguments are validated again first.
  unfoldable pub arguments_ok : Bool
  arguments_ok =
      receipt_ok h pkg && preparation_ok registered && runtime_lock_ok h lock && target_ok target

  unfoldable pub plan_runtime_install : Option InstallPlan
  plan_runtime_install =
      if arguments_ok
      then elim (identity_blocker lifecycle_text_is_public_safe pkg registered) [
        | none ↦ none
        | some found ↦ elim found [
          | some blocker ↦ validated h (blocked_plan blocker)
          | none ↦ planned_transition
        ]
      ]
      else none
