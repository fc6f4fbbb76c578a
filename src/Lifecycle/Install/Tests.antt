-- ===== src/Lifecycle/Install/Tests.antt =====
-- The installation of one package on an empty lock.
use skills_sdk.Registry.Redaction.{components_are_redaction_safe}
use skills_sdk.Prelude.{
  ℕ, true, ◌≡◌, ◌↔◌, refl, String, List, [], ◌∷◌, none, some, all_distinct, string_eq,
}
use skills_sdk.Json.{Hash, Json, arr, obj, nil, end, member, text, content_bytes}
use skills_sdk.Packaging.{PackageManifest, PackageReceipt, built, skill_md, manifest_json}
use skills_sdk.Packaging.Validation.{receipt_ok, paths_ok, manifest_ok, is_subset, meets}
use skills_sdk.Registry.Models.{RegistryPreparationReceipt, prepared, refs_ok}
use skills_sdk.Lifecycle.{RuntimeTarget, RuntimeLock, RuntimeLockEntry, user, lock_ok}
use skills_sdk.Lifecycle.Identity.{IsBound}
use skills_sdk.Lifecycle.Planning.{proposed_lock, proposed_entries, replaced, matching}
use skills_sdk.Paths.{is_portable}
use mathlib.Core.Bool.{false≢true}
use skills_sdk.Lifecycle.Plan.{
  InstallPlan, planned, plan_ok, evidence_ok, lock_digest, target_ok, runtime_lock_ok,
  is_public_path,
}
use skills_sdk.Registry.Validation.{
  identity_ok, preparation_ok, fields_ok, is_stripped, prepared_ok,
}
use skills_sdk.Registry.Version.{is_registry_version}
use skills_sdk.Lifecycle.PublicText.{lifecycle_text_is_public_safe, credential_pattern}
use skills_sdk.Lifecycle.Install.{arguments_ok, plan_runtime_install}
use skills_sdk.Lifecycle.Install.Planned.{HasPublicTexts}
use skills_sdk.Lifecycle.Install.Laws.{IsTransition, plan_runtime_install-IsTransition}
use skills_sdk.Lifecycle.Install.Totality.{plan_runtime_install_total}

-- A digest that tells the empty lock from other values.
abbrev dumped : Json → List ℕ
dumped (obj (member k (text s) (member l (arr nil) end))) = []
dumped j = 1 ∷ []

abbrev digest_of : List ℕ → String
digest_of [] = "empty"
digest_of (b ∷ bs) = "digest"

abbrev hash : Hash
hash = record { sha256 = digest_of; dumps = dumped }

abbrev manifest : PackageManifest
manifest = record {
  candidate = record { package_id = "demo"; source_revision = "r"; content_sha256 = "digest" };
  version = "1.0.0";
  files = record { path = "SKILL.md"; sha256 = "f"; size_bytes = 3; role = skill_md } ∷ [];
  provenance = record { source = "SKILL.md" ∷ []; builder = "skills-sdk.packaging.manifest/v1" };
}

abbrev pkg : PackageReceipt
pkg = record {
  receipt_id = "package-1";
  candidate = some manifest.candidate;
  status = built;
  started_at = 1;
  finished_at = 2;
  evidence = "SKILL.md" ∷ [];
  blocker = none;
  package_digest = some "digest";
  manifest = some manifest;
  included_files = "SKILL.md" ∷ [];
  excluded_files = [];
}

abbrev registered : RegistryPreparationReceipt
registered = record {
  receipt_id = "registry-1";
  candidate = some manifest.candidate;
  registry = record { registry_id = "home"; namespace = "team" };
  package_name = "demo";
  version = "1.0.0";
  input_receipt_id = "package-1";
  package_digest = some "digest";
  manifest_digest = some "digest";
  hardening_receipt_sha256 = some "hardening";
  status = prepared;
  evidence = "SKILL.md" ∷ [];
  blocker = none;
  blockers = [];
  warnings = [];
}

abbrev target : RuntimeTarget
target = record { scope = user; target_id = "codex" }

abbrev empty_lock : RuntimeLock
empty_lock = record { entries = [] }

receipt_accepted : receipt_ok hash pkg ≡ true
unfolding receipt_ok paths_ok manifest_ok is_subset meets content_bytes manifest_json
receipt_accepted = refl

preparation_accepted : preparation_ok registered ≡ true
unfolding preparation_ok fields_ok is_stripped refs_ok prepared_ok is_registry_version identity_ok
    components_are_redaction_safe
preparation_accepted = refl

lock_accepted : runtime_lock_ok hash empty_lock ≡ true
unfolding runtime_lock_ok lock_ok
lock_accepted = refl

target_accepted : target_ok target ≡ true
unfolding target_ok lifecycle_text_is_public_safe credential_pattern
target_accepted = refl

accepted : arguments_ok hash pkg registered empty_lock target ("SKILL.md" ∷ []) ≡ true
unfolding arguments_ok
accepted = rw (receipt_accepted, preparation_accepted, lock_accepted, target_accepted) refl

public_texts : HasPublicTexts pkg registered
unfolding lifecycle_text_is_public_safe credential_pattern is_public_path is_portable
public_texts = record {
  name = refl;
  version = refl;
  own_name = refl;
  own_version = refl;
  receipt = refl;
  preparation = refl;
  input = refl;
  files = refl;
}

listed : evidence_ok ("SKILL.md" ∷ []) ≡ true
unfolding evidence_ok is_public_path lifecycle_text_is_public_safe credential_pattern all_distinct
    is_portable
listed = refl

tells_apart :
    (entry : RuntimeLockEntry)
    → lock_digest hash (proposed_lock entry empty_lock) ≡ lock_digest hash empty_lock
    → proposed_lock entry empty_lock ≡ empty_lock
unfolding proposed_lock proposed_entries replaced matching
tells_apart entry e = absurd (false≢true ((string_eq.eqb_iff "digest" "empty").1 e))

plan_runtime_install_total_example :
    (plan : InstallPlan) × (plan_runtime_install hash pkg registered empty_lock target
        ("SKILL.md" ∷ [])
      ≡ some plan)
    × (plan_ok hash plan ≡ true)
    × ((plan.status ≡ planned) ↔ IsBound pkg registered)
plan_runtime_install_total_example =
    plan_runtime_install_total hash pkg registered empty_lock target ("SKILL.md" ∷ []) accepted
      public_texts listed tells_apart

planned_once :
    (plan : InstallPlan) × (plan_runtime_install hash pkg registered empty_lock target
        ("SKILL.md" ∷ [])
      ≡ some plan)
    × (plan_ok hash plan ≡ true)
    × ((plan.status ≡ planned) ↔ IsBound pkg registered)
planned_once =
    plan_runtime_install_total hash pkg registered empty_lock target ("SKILL.md" ∷ []) accepted
      public_texts listed tells_apart

bound : IsBound pkg registered
bound = record {
  same_receipt = refl;
  preparation = refl;
  build = refl;
  same_candidate = refl;
  same_digest = refl;
  manifest = manifest;
  has_manifest = refl;
  same_version = refl;
}

plan_runtime_install-IsTransition_example :
    IsTransition hash pkg registered empty_lock planned_once.0
plan_runtime_install-IsTransition_example =
    plan_runtime_install-IsTransition hash pkg registered empty_lock target ("SKILL.md" ∷ [])
      planned_once.0 planned_once.1 (planned_once.3.1 bound)
