-- ===== src/Packaging.antt =====
-- Manifests and receipts: src/skills_sdk/models/packaging.py, with the candidate identity of
-- src/skills_sdk/models/package.py. `schema_version` and the other fields with one literal value
-- are left out of the records and stand in their JSON form.
pub mod Validation
pub mod Build
use skills_sdk.Prelude.{
  ℕ, ◌≡◌, ◌↔◌, refl, Bool, true, false, not, ◌&&◌, ◌||◌, Option, none, some, List, [], ◌∷◌, map,
  String, codes, contains, all, any, all_distinct, length, Comparable, ◌==◌, string_eq, ℕ_eq,
  option_eq, nat_eq, nat_eq_iff, eq_lem, arith, if◌then◌else◌,
}
use skills_sdk.Json.{
  Json, null, boolean, number, text, array, object, texts, optional, Hash, canonical_json_sha256,
  content_bytes,
}

pub record PackageCandidateIdentity : Type 0 where
  pub package_id : String
  pub source_revision : String
  pub content_sha256 : String

pub data PackageFileRole : Type 0 where
  skill_md readme reference script asset eval : PackageFileRole

abbrev pub role_value : PackageFileRole → String
role_value skill_md = "skill_md"
role_value readme = "readme"
role_value reference = "reference"
role_value script = "script"
role_value asset = "asset"
role_value eval = "eval"

pub record PackageManifestFile : Type 0 where
  pub path : String
  pub sha256 : String
  pub size_bytes : ℕ
  pub role : PackageFileRole

pub record PackageManifestProvenance : Type 0 where
  pub source : List String
  pub builder : String

pub record PackageManifest : Type 0 where
  pub candidate : PackageCandidateIdentity
  pub version : String
  pub files : List PackageManifestFile
  pub provenance : PackageManifestProvenance

pub record PackageReceiptBlocker : Type 0 where
  pub code : String
  pub message : String
  pub evidence_refs : List String

pub data BuildStatus : Type 0 where
  built blocked : BuildStatus

-- `PackageReceiptV2`; the times are counted in one unit from one origin.
pub record PackageReceipt : Type 0 where
  pub receipt_id : String
  pub candidate : Option PackageCandidateIdentity
  pub status : BuildStatus
  pub started_at : ℕ
  pub finished_at : ℕ
  pub evidence : List String
  pub blocker : Option PackageReceiptBlocker
  pub package_digest : Option String
  pub manifest : Option PackageManifest
  pub included_files : List String
  pub excluded_files : List String

abbrev pub file_paths : List PackageManifestFile → List String
file_paths [] = []
file_paths (f ∷ fs) = f.path ∷ file_paths fs

abbrev pub content_pairs : List PackageManifestFile → List (String × String)
content_pairs [] = []
content_pairs (f ∷ fs) = (f.path, f.sha256) ∷ content_pairs fs

-- The files of a manifest under `core/digests.py`.
abbrev pub candidate_content_sha256 : Hash → List PackageManifestFile → String
candidate_content_sha256 h files = h.sha256 (content_bytes (content_pairs files))

-- `model_dump(mode="json")` of the models.
abbrev pub candidate_json : PackageCandidateIdentity → Json
candidate_json c = object (
    ("schema_version", text "package-candidate/v1")
    ∷ ("package_id", text c.package_id)
    ∷ ("source_revision", text c.source_revision)
    ∷ ("content_sha256", text c.content_sha256)
    ∷ [])

abbrev pub file_json : PackageManifestFile → Json
file_json f = object (
    ("path", text f.path)
    ∷ ("sha256", text f.sha256)
    ∷ ("size_bytes", number f.size_bytes)
    ∷ ("role", text (role_value f.role))
    ∷ [])

abbrev pub files_json : List PackageManifestFile → List Json
files_json [] = []
files_json (f ∷ fs) = file_json f ∷ files_json fs

abbrev pub provenance_json : PackageManifestProvenance → Json
provenance_json p = object (("source", array (texts p.source)) ∷ ("builder", text p.builder) ∷ [])

unfoldable pub manifest_json : PackageManifest → Json
manifest_json m = object (
    ("schema_version", text "package-manifest/v1")
    ∷ ("candidate", candidate_json m.candidate)
    ∷ ("version", text m.version)
    ∷ ("files", array (files_json m.files))
    ∷ ("provenance", provenance_json m.provenance)
    ∷ [])

abbrev pub manifest_digest : Hash → PackageManifest → String
manifest_digest h m = canonical_json_sha256 h (manifest_json m)

-- Equality of the models, field by field.
abbrev pub candidate_beq : PackageCandidateIdentity → PackageCandidateIdentity → Bool
candidate_beq a b =
    a.package_id == b.package_id
    && a.source_revision == b.source_revision
    && a.content_sha256 == b.content_sha256

pub candidate_beq_iff : (a b : PackageCandidateIdentity) → (candidate_beq a b ≡ true) ↔ (a ≡ b)
candidate_beq_iff a b = ground (
  arith,
  string_eq.eqb_iff a.package_id b.package_id,
  string_eq.eqb_iff a.source_revision b.source_revision,
  string_eq.eqb_iff a.content_sha256 b.content_sha256,
)

instance abbrev pub candidate_eq : Comparable PackageCandidateIdentity
candidate_eq = record { eqb = candidate_beq; eqb_iff = candidate_beq_iff }

abbrev pub role_beq : PackageFileRole → PackageFileRole → Bool
role_beq skill_md skill_md = true
role_beq readme readme = true
role_beq reference reference = true
role_beq script script = true
role_beq asset asset = true
role_beq eval eval = true
role_beq _ _ = false

role_beq_iff : (a b : PackageFileRole) → (role_beq a b ≡ true) ↔ (a ≡ b)
role_beq_iff a b = ground arith

abbrev pub file_beq : PackageManifestFile → PackageManifestFile → Bool
file_beq a b =
    a.path == b.path
    && a.sha256 == b.sha256
    && nat_eq a.size_bytes b.size_bytes
    && role_beq a.role b.role

pub file_beq_iff : (a b : PackageManifestFile) → (file_beq a b ≡ true) ↔ (a ≡ b)
file_beq_iff a b = ground (
  arith,
  string_eq.eqb_iff a.path b.path,
  string_eq.eqb_iff a.sha256 b.sha256,
  role_beq_iff a.role b.role,
)

instance abbrev pub file_eq : Comparable PackageManifestFile
file_eq = record { eqb = file_beq; eqb_iff = file_beq_iff }

module _ {A : Type 0} ⦃e : Comparable A⦄ where
  abbrev pub list_beq : List A → List A → Bool
  list_beq [] [] = true
  list_beq [] (y ∷ ys) = false
  list_beq (x ∷ xs) [] = false
  list_beq (x ∷ xs) (y ∷ ys) = x == y && list_beq xs ys

  pub list_beq_iff : (xs ys : List A) → (list_beq xs ys ≡ true) ↔ (xs ≡ ys)
  list_beq_iff [] [] = (λ _. refl, λ _. refl)
  list_beq_iff [] (y ∷ ys) = (λ h. cc, λ h. cc)
  list_beq_iff (x ∷ xs) [] = (λ h. cc, λ h. cc)
  list_beq_iff (x ∷ xs) (y ∷ ys) = ground (arith, e.eqb_iff x y, list_beq_iff xs ys)

abbrev pub manifest_beq : PackageManifest → PackageManifest → Bool
manifest_beq a b =
    candidate_beq a.candidate b.candidate
    && a.version == b.version
    && list_beq a.files b.files
    && (list_beq a.provenance.source b.provenance.source
        && a.provenance.builder == b.provenance.builder)

pub manifest_beq_iff : (a b : PackageManifest) → (manifest_beq a b ≡ true) ↔ (a ≡ b)
manifest_beq_iff a b = ground (
  arith,
  candidate_beq_iff a.candidate b.candidate,
  string_eq.eqb_iff a.version b.version,
  list_beq_iff a.files b.files,
  list_beq_iff a.provenance.source b.provenance.source,
  string_eq.eqb_iff a.provenance.builder b.provenance.builder,
)

instance abbrev pub manifest_eq : Comparable PackageManifest
manifest_eq = record { eqb = manifest_beq; eqb_iff = manifest_beq_iff }
