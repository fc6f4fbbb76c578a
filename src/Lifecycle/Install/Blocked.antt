-- ===== src/Lifecycle/Install/Blocked.antt =====
-- The blocked plan: its blocker is public, and its model accepts it.
use skills_sdk.Json.{Hash}
use skills_sdk.Prelude.{
  Option-cases, ◌&&◌, option_eq, string_eq, inr, inl, ◌==◌, Bool-cases, Bool, true, ◌≡◌, refl, all,
  arith, some, none, Option, List, String,
}
use skills_sdk.Packaging.{PackageReceipt}
use skills_sdk.Registry.Models.{RegistryPreparationBlocker, RegistryPreparationReceipt}
use skills_sdk.Registry.Prepare.{plain_blocker}
use skills_sdk.Registry.Validation.{preparation_ok, stopped_ok}
use skills_sdk.Lifecycle.{RuntimeLock, RuntimeTarget}
use skills_sdk.Lifecycle.PublicText.{lifecycle_text_is_public_safe, credential_pattern}
use skills_sdk.Lifecycle.Identity.{identity_blocker, projected_blocker, is_prepared}
use skills_sdk.Lifecycle.Plan.{
  sorted_members, lock_digest, plan_ok, plan_id_of, identity_payload, evidence_ok, blocked_state_ok,
}
use skills_sdk.Lifecycle.Install.{blocked_plan, blocked_name, blocked_version}

abbrev public_blocker : RegistryPreparationBlocker → Bool
public_blocker b =
    lifecycle_text_is_public_safe b.code
    && lifecycle_text_is_public_safe b.message
    && all lifecycle_text_is_public_safe b.evidence_refs

input_is_public :
    public_blocker (
      plain_blocker "installation_input_receipt_mismatch"
        "Registry preparation must identify the exact package receipt used for planning.")
    ≡ true
unfolding lifecycle_text_is_public_safe credential_pattern
input_is_public = refl

portable_is_public :
    public_blocker (
      plain_blocker "installation_registry_blocker_not_portable"
        "Registry preparation blocker cannot be projected into a portable install plan.")
    ≡ true
unfolding lifecycle_text_is_public_safe credential_pattern
portable_is_public = refl

identity_is_public :
    public_blocker (
      plain_blocker "installation_identity_mismatch"
        "Package and registry preparation must bind the same built candidate and digest.")
    ≡ true
unfolding lifecycle_text_is_public_safe credential_pattern
identity_is_public = refl

version_is_public :
    public_blocker (
      plain_blocker "installation_version_mismatch"
        "Package manifest and registry preparation must bind the same version.")
    ≡ true
unfolding lifecycle_text_is_public_safe credential_pattern
version_is_public = refl

projected_is_public :
    (b : RegistryPreparationBlocker)
    → public_blocker (projected_blocker lifecycle_text_is_public_safe b) ≡ true
unfolding projected_blocker
projected_is_public b = elim (Bool-cases (public_blocker b)) [
  | inl safe ↦ rw (safe, safe) refl
  | inr unsafe ↦ rw unsafe portable_is_public
]

module _ (pkg : PackageReceipt) (registered : RegistryPreparationReceipt) where
  -- Every blocker that is found can be published.
  pub identity_blocker_public :
      (b : RegistryPreparationBlocker)
      → identity_blocker lifecycle_text_is_public_safe pkg registered ≡ some (some b)
      → public_blocker b ≡ true
  unfolding identity_blocker
  identity_blocker_public b e = elim (Bool-cases (registered.input_receipt_id == pkg.receipt_id)) [
    | inr other ↦ ground (arith, input_is_public)
    | inl same ↦ elim (Bool-cases (is_prepared registered.status)) [
      | inr stopped ↦ grind (arith, projected_is_public)
      | inl ready ↦ ground (arith, identity_is_public, version_is_public)
    ]
  ]

  blocker_given :
      preparation_ok registered ≡ true
      → identity_blocker lifecycle_text_is_public_safe pkg registered ≡ none
      → ⊥
  unfolding identity_blocker preparation_ok stopped_ok
  blocker_given ok e = ground arith

  -- A preparation receipt that its model accepts has a blocker if it is blocked.
  pub identity_blocker-some :
      preparation_ok registered ≡ true
      → (found : Option RegistryPreparationBlocker) × (identity_blocker
            lifecycle_text_is_public_safe pkg registered
          ≡ some found)
  identity_blocker-some ok = go (identity_blocker lifecycle_text_is_public_safe pkg registered) refl
    where
      go :
          (found : Option (Option RegistryPreparationBlocker))
          → identity_blocker lifecycle_text_is_public_safe pkg registered ≡ found
          → (b : Option RegistryPreparationBlocker) × (identity_blocker
                lifecycle_text_is_public_safe pkg registered
              ≡ some b)
      go (some b) e = (b, e)
      go none e = absurd (blocker_given ok e)

module _ (h : Hash) (pkg : PackageReceipt) (registered : RegistryPreparationReceipt)
    (lock : RuntimeLock) (target : RuntimeTarget) (evidence : List String) where
  blocked_plan_id :
      (b : RegistryPreparationBlocker)
      → (blocked_plan h pkg registered lock target evidence b).plan_id
        ≡ plan_id_of h (identity_payload (blocked_plan h pkg registered lock target evidence b))
  unfolding blocked_plan identity_payload plan_id_of sorted_members
  blocked_plan_id b = refl

  blocked_plan_state :
      (b : RegistryPreparationBlocker)
      → public_blocker b ≡ true
      → blocked_state_ok (blocked_plan h pkg registered lock target evidence b) ≡ true
  unfolding blocked_state_ok blocked_plan
  blocked_plan_state b safe = elim (Option-cases pkg.candidate) [
    | inl none_left ↦ rw (safe, none_left) refl
    | inr (c, named) ↦
        let same : (blocked_name pkg registered == c.package_id) ≡ true =
          (string_eq.eqb_iff _ _).1 (rw named refl) in
        rw (safe, named, same) refl
  ]

  pub blocked_plan_ok :
      (b : RegistryPreparationBlocker)
      → public_blocker b ≡ true
      → lifecycle_text_is_public_safe (blocked_name pkg registered) ≡ true
      → lifecycle_text_is_public_safe (blocked_version pkg registered) ≡ true
      → lifecycle_text_is_public_safe pkg.receipt_id ≡ true
      → lifecycle_text_is_public_safe registered.receipt_id ≡ true
      → lifecycle_text_is_public_safe registered.input_receipt_id ≡ true
      → evidence_ok evidence ≡ true
      → plan_ok h (blocked_plan h pkg registered lock target evidence b) ≡ true
  unfolding plan_ok blocked_plan
  blocked_plan_ok b safe name version own prepared input listed =
      let digests = (string_eq.eqb_iff (lock_digest h lock) (lock_digest h lock)).1 refl in
      let state = blocked_plan_state b safe in
      let id = (string_eq.eqb_iff _ _).1 (blocked_plan_id b) in
      rw (name, version, own, prepared, input, listed, digests, state, id) refl
