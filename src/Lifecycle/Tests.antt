-- ===== src/Lifecycle/Tests.antt =====
-- A lock with one package, and a plan for another one.
use skills_sdk.Packaging.{PackageManifest, PackageReceipt, built, skill_md}
use skills_sdk.Registry.Models.{RegistryPreparationReceipt, prepared}
use skills_sdk.Lifecycle.{
  RuntimeLockEntry, RuntimeLock, RuntimeTarget, user, install, update, no_change, entry_key,
  lock_ok, lock_entry_eq, key_eq,
}
use skills_sdk.Lifecycle.Planning.{planned_entry, proposed_lock, planned_operation}
use skills_sdk.Lifecycle.Identity.{identity_blocker, IsBound, identity_blocker_iff}
use skills_sdk.Lifecycle.Laws.{
  find, lock_ok-proposed_lock, find-proposed_lock, planned_operation-proposed_lock,
  planned_operation_iff,
}
use skills_sdk.Prelude.{
  Bool, In, ◌↔◌, true, if◌then◌else◌, refl, String, ◌≡◌, [], ◌∷◌, none, some, ◌==◌,
}

abbrev manifest_named : String → String → PackageManifest
manifest_named name version = record {
  candidate = record { package_id = name; source_revision = "r"; content_sha256 = "digest" };
  version = version;
  files = record { path = "SKILL.md"; sha256 = "digest"; size_bytes = 3; role = skill_md } ∷ [];
  provenance = record { source = "SKILL.md" ∷ []; builder = "skills-sdk.packaging.manifest/v1" };
}

abbrev built_named : String → String → PackageReceipt
built_named name version = record {
  receipt_id = "package-1";
  candidate = some (manifest_named name version).candidate;
  status = built;
  started_at = 1;
  finished_at = 2;
  evidence = "SKILL.md" ∷ [];
  blocker = none;
  package_digest = some "package";
  manifest = some (manifest_named name version);
  included_files = "SKILL.md" ∷ [];
  excluded_files = [];
}

abbrev registered : String → String → RegistryPreparationReceipt
registered name version = record {
  receipt_id = "registry-1";
  candidate = some (manifest_named name version).candidate;
  registry = record { registry_id = "home"; namespace = "team" };
  package_name = name;
  version = version;
  input_receipt_id = "package-1";
  package_digest = some "package";
  manifest_digest = some "manifest";
  hardening_receipt_sha256 = some "hardening";
  status = prepared;
  evidence = "SKILL.md" ∷ [];
  blocker = none;
  blockers = [];
  warnings = [];
}

abbrev target : RuntimeTarget
target = record { scope = user; target_id = "codex" }

abbrev entry_named : String → String → RuntimeLockEntry
unfolding planned_entry
entry_named name version =
    planned_entry (built_named name version) (registered name version) target
      (manifest_named name version).candidate (manifest_named name version) "package"

abbrev lock : RuntimeLock
lock = record { entries = entry_named "demo" "1.0.0" ∷ [] }

operations :
    (planned_operation (entry_named "demo" "1.0.0") lock ≡ no_change)
    × (planned_operation (entry_named "demo" "1.1.0") lock ≡ update)
    × (planned_operation (entry_named "other" "1.0.0") lock ≡ install)
unfolding planned_operation entry_named
operations = (refl, refl, refl)

lock_is_ok : lock_ok lock ≡ true
unfolding lock_ok
lock_is_ok = refl

lock_ok-proposed_lock_example : lock_ok (proposed_lock (entry_named "demo" "1.1.0") lock) ≡ true
lock_ok-proposed_lock_example = lock_ok-proposed_lock (entry_named "demo" "1.1.0") lock lock_is_ok

find-proposed_lock_example :
    find
      (entry_key (entry_named "demo" "1.0.0"))
      (proposed_lock (entry_named "demo" "1.1.0") lock).entries
    ≡ (if entry_key (entry_named "demo" "1.1.0") == entry_key (entry_named "demo" "1.0.0")
        then some (entry_named "demo" "1.1.0")
        else find (entry_key (entry_named "demo" "1.0.0")) lock.entries)
find-proposed_lock_example =
    find-proposed_lock (entry_named "demo" "1.1.0") lock (entry_key (entry_named "demo" "1.0.0"))

planned_operation-proposed_lock_example :
    (planned_operation
        (entry_named "demo" "1.1.0")
        (proposed_lock (entry_named "demo" "1.1.0") lock)
      ≡ no_change)
    × (proposed_lock (entry_named "demo" "1.1.0") (proposed_lock (entry_named "demo" "1.1.0") lock)
        ≡ proposed_lock (entry_named "demo" "1.1.0") lock)
planned_operation-proposed_lock_example =
    planned_operation-proposed_lock (entry_named "demo" "1.1.0") lock lock_is_ok

planned_operation_example :
    (planned_operation (entry_named "demo" "1.0.0") lock ≡ no_change)
    ↔ In (entry_named "demo" "1.0.0") lock.entries
planned_operation_example = planned_operation_iff (entry_named "demo" "1.0.0") lock lock_is_ok

abbrev any_text : String → Bool
any_text t = true

demo_is_bound :
    identity_blocker any_text (built_named "demo" "1.0.0") (registered "demo" "1.0.0") ≡ some none
unfolding identity_blocker
demo_is_bound = refl

identity_blocker_example :
    (identity_blocker any_text (built_named "demo" "1.0.0") (registered "demo" "1.0.0") ≡ some none)
    ↔ IsBound (built_named "demo" "1.0.0") (registered "demo" "1.0.0")
identity_blocker_example =
    identity_blocker_iff any_text (built_named "demo" "1.0.0") (registered "demo" "1.0.0")
