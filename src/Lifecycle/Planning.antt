-- ===== src/Lifecycle/Planning.antt =====
-- The transition of a runtime lock in `_planned_transition` of src/skills_sdk/lifecycle/planning.py.
use skills_sdk.Prelude.{◌==◌, [], ◌++◌, ◌∷◌, filter, if◌then◌else◌, String, List}
use skills_sdk.Packaging.{
  PackageCandidateIdentity, PackageManifest, PackageManifestFile, PackageReceipt, list_beq,
}
use skills_sdk.Packaging.Validation.{is_empty}
use skills_sdk.Registry.Models.{RegistryPreparationReceipt}
use skills_sdk.Lifecycle.{
  RuntimeTarget, RuntimeFile, RuntimeLockEntry, RuntimeLock, Operation, install, update, no_change,
  lock_entry_eq, key_eq, entry_key,
}

-- `RuntimeFile(path=item.path, sha256=item.sha256)` of every file of the manifest.
unfoldable pub runtime_files : List PackageManifestFile → List RuntimeFile
runtime_files [] = []
runtime_files (f ∷ fs) = record { path = f.path; sha256 = f.sha256 } ∷ runtime_files fs

-- The entry that is planned, from the fields the function has asserted to be present.
unfoldable pub planned_entry :
    PackageReceipt
    → RegistryPreparationReceipt
    → RuntimeTarget
    → PackageCandidateIdentity
    → PackageManifest
    → String
    → RuntimeLockEntry
unfolding runtime_files
planned_entry pkg registry_receipt target candidate manifest digest = record {
  package_name = registry_receipt.package_name;
  version = registry_receipt.version;
  candidate = candidate;
  package_digest = digest;
  registry = registry_receipt.registry;
  package_receipt_id = pkg.receipt_id;
  registry_preparation_receipt_id = registry_receipt.receipt_id;
  target = target;
  files = runtime_files manifest.files;
}

unfoldable pub matching : RuntimeLockEntry → List RuntimeLockEntry → List RuntimeLockEntry
matching entry items = filter (λ item. entry_key item == entry_key entry) items

unfoldable pub operation_of : RuntimeLockEntry → List RuntimeLockEntry → Operation
operation_of entry found =
    if list_beq found (entry ∷ []) then no_change else if is_empty found then install else update

unfoldable pub replaced : RuntimeLockEntry → List RuntimeLockEntry → List RuntimeLockEntry
replaced entry [] = []
replaced entry (item ∷ items) =
    (if entry_key item == entry_key entry then entry else item) ∷ replaced entry items

unfoldable pub proposed_entries : RuntimeLockEntry → List RuntimeLockEntry → List RuntimeLockEntry
unfolding matching replaced
proposed_entries entry items =
    if is_empty (matching entry items)
    then replaced entry items ++ entry ∷ []
    else replaced entry items

-- The lock that the plan proposes, and the operation that leads to it.
unfoldable pub proposed_lock : RuntimeLockEntry → RuntimeLock → RuntimeLock
unfolding proposed_entries
proposed_lock entry lock = record { entries = proposed_entries entry lock.entries }

unfoldable pub planned_operation : RuntimeLockEntry → RuntimeLock → Operation
unfolding operation_of matching
planned_operation entry lock = operation_of entry (matching entry lock.entries)
