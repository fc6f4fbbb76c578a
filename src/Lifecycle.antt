-- ===== src/Lifecycle.antt =====
-- The contracts of src/skills_sdk/models/lifecycle.py: runtime locks and install plans.
pub mod Patterns
pub mod PublicText
pub mod Planning
pub mod Identity
pub mod Plan
pub mod Install
pub mod Laws
mod Tests
use skills_sdk.Prelude.{
  [], string_eq, arith, ◌↔◌, false, ◌∷◌, Comparable, ◌==◌, true, ◌&&◌, List, all_distinct, ◌≡◌,
  Bool, String,
}
use skills_sdk.Packaging.{
  PackageCandidateIdentity, candidate_beq, candidate_beq_iff, candidate_json, list_beq,
  list_beq_iff,
}
use skills_sdk.Registry.Models.{RegistryIdentity, RegistryPreparationBlocker, registry_json}

pub data Scope : Type 0 where
  user project : Scope

pub record RuntimeTarget : Type 0 where
  pub scope : Scope
  pub target_id : String

pub record RuntimeFile : Type 0 where
  pub path : String
  pub sha256 : String

pub record RuntimeLockEntry : Type 0 where
  pub package_name : String
  pub version : String
  pub candidate : PackageCandidateIdentity
  pub package_digest : String
  pub registry : RegistryIdentity
  pub package_receipt_id : String
  pub registry_preparation_receipt_id : String
  pub target : RuntimeTarget
  pub files : List RuntimeFile

pub record RuntimeLock : Type 0 where
  pub entries : List RuntimeLockEntry

pub data Operation : Type 0 where
  install update no_change : Operation

-- Equality of the models, field by field.
abbrev pub scope_beq : Scope → Scope → Bool
scope_beq user user = true
scope_beq project project = true
scope_beq _ _ = false

scope_beq_iff : (a b : Scope) → (scope_beq a b ≡ true) ↔ (a ≡ b)
scope_beq_iff a b = ground arith

abbrev pub target_beq : RuntimeTarget → RuntimeTarget → Bool
target_beq a b = scope_beq a.scope b.scope && a.target_id == b.target_id

pub target_beq_iff : (a b : RuntimeTarget) → (target_beq a b ≡ true) ↔ (a ≡ b)
target_beq_iff a b =
    ground (arith, scope_beq_iff a.scope b.scope, string_eq.eqb_iff a.target_id b.target_id)

abbrev pub runtime_file_beq : RuntimeFile → RuntimeFile → Bool
runtime_file_beq a b = a.path == b.path && a.sha256 == b.sha256

pub runtime_file_beq_iff : (a b : RuntimeFile) → (runtime_file_beq a b ≡ true) ↔ (a ≡ b)
runtime_file_beq_iff a b =
    ground (arith, string_eq.eqb_iff a.path b.path, string_eq.eqb_iff a.sha256 b.sha256)

instance abbrev pub runtime_file_eq : Comparable RuntimeFile
runtime_file_eq = record { eqb = runtime_file_beq; eqb_iff = runtime_file_beq_iff }

abbrev pub registry_beq : RegistryIdentity → RegistryIdentity → Bool
registry_beq a b = a.registry_id == b.registry_id && a.namespace == b.namespace

pub registry_beq_iff : (a b : RegistryIdentity) → (registry_beq a b ≡ true) ↔ (a ≡ b)
registry_beq_iff a b = ground (
  arith,
  string_eq.eqb_iff a.registry_id b.registry_id,
  string_eq.eqb_iff a.namespace b.namespace,
)

abbrev pub lock_entry_beq : RuntimeLockEntry → RuntimeLockEntry → Bool
lock_entry_beq a b =
    (a.package_name == b.package_name
      && a.version == b.version
      && candidate_beq a.candidate b.candidate
      && a.package_digest == b.package_digest)
    && (registry_beq a.registry b.registry
        && a.package_receipt_id == b.package_receipt_id
        && a.registry_preparation_receipt_id == b.registry_preparation_receipt_id)
    && (target_beq a.target b.target && list_beq a.files b.files)

pub lock_entry_beq_iff : (a b : RuntimeLockEntry) → (lock_entry_beq a b ≡ true) ↔ (a ≡ b)
lock_entry_beq_iff a b = ground (
  arith,
  string_eq.eqb_iff a.package_name b.package_name,
  string_eq.eqb_iff a.version b.version,
  candidate_beq_iff a.candidate b.candidate,
  string_eq.eqb_iff a.package_digest b.package_digest,
  registry_beq_iff a.registry b.registry,
  string_eq.eqb_iff a.package_receipt_id b.package_receipt_id,
  string_eq.eqb_iff a.registry_preparation_receipt_id b.registry_preparation_receipt_id,
  target_beq_iff a.target b.target,
  list_beq_iff a.files b.files,
)

instance abbrev pub lock_entry_eq : Comparable RuntimeLockEntry
lock_entry_eq = record { eqb = lock_entry_beq; eqb_iff = lock_entry_beq_iff }

-- The triple of `_entry_key`, by which the entries of a lock are told apart.
pub record EntryKey : Type 0 where
  pub scope : Scope
  pub target_id : String
  pub package_name : String

abbrev pub entry_key : RuntimeLockEntry → EntryKey
entry_key e = record {
  scope = e.target.scope;
  target_id = e.target.target_id;
  package_name = e.package_name;
}

abbrev pub key_beq : EntryKey → EntryKey → Bool
key_beq a b =
    scope_beq a.scope b.scope && a.target_id == b.target_id && a.package_name == b.package_name

pub key_beq_iff : (a b : EntryKey) → (key_beq a b ≡ true) ↔ (a ≡ b)
key_beq_iff a b = ground (
  arith,
  scope_beq_iff a.scope b.scope,
  string_eq.eqb_iff a.target_id b.target_id,
  string_eq.eqb_iff a.package_name b.package_name,
)

instance abbrev pub key_eq : Comparable EntryKey
key_eq = record { eqb = key_beq; eqb_iff = key_beq_iff }

abbrev pub entry_keys : List RuntimeLockEntry → List EntryKey
entry_keys [] = []
entry_keys (e ∷ es) = entry_key e ∷ entry_keys es

-- The validator of `RuntimeLock`: no two entries share a key.
unfoldable pub lock_ok : RuntimeLock → Bool
unfolding all_distinct
lock_ok lock = all_distinct (entry_keys lock.entries)
