-- ===== src/Archive/Receipts.antt =====
-- The verification receipt, `_blocked`, and the archive library as a parameter.
use skills_sdk.Prelude.{
  ℕ, Bool, false, not, ◌&&◌, Option, none, some, List, [], String, ◌==◌, string_eq, option_eq,
}
use skills_sdk.Json.{Hash}
use skills_sdk.Packaging.{
  PackageCandidateIdentity, PackageManifest, PackageReceiptBlocker, file_paths,
  candidate_content_sha256, manifest_digest, candidate_eq,
}
use skills_sdk.Packaging.Validation.{paths_ok, is_subset, is_none, is_empty}

pub data VerificationStatus : Type 0 where
  pass blocked : VerificationStatus

-- `PackageArchiveVerificationReceipt`
pub record VerificationReceipt : Type 0 where
  pub status : VerificationStatus
  pub archive_sha256 : Option String
  pub candidate : Option PackageCandidateIdentity
  pub package_digest : Option String
  pub manifest : Option PackageManifest
  pub verified_files : List String
  pub blocker : Option PackageReceiptBlocker

abbrev pub block : String → String → List String → VerificationReceipt
block code message evidence = record {
  status = blocked;
  archive_sha256 = none;
  candidate = none;
  package_digest = none;
  manifest = none;
  verified_files = [];
  blocker = some (record { code = code; message = message; evidence_refs = evidence });
}

-- What `zipfile` gives for one entry.
pub record ZipInfo : Type 0 where
  pub filename : String
  pub orig_filename : String
  pub file_size : ℕ
  pub flag_bits : ℕ
  pub compress_type : ℕ
  pub header_offset : ℕ
  pub external_attr : ℕ

-- What a call of `zipfile` ends in: a value, `RuntimeError`, one of `BadZipFile`, `OSError`,
-- `EOFError` and `zlib.error`, or `UnicodeDecodeError`, for an entry's name.
pub data Outcome (A : Type 0) : Type 0 where
  value : A → Outcome A
  runtime_error : Outcome A
  zip_error : Outcome A
  decode_error : Outcome A

infixl 5 ◌>>=◌
abbrev pub ◌>>=◌ : {A B : Type 0} → Outcome A → (A → Outcome B) → Outcome B
value a >>= f = f a
runtime_error >>= f = runtime_error
zip_error >>= f = zip_error
decode_error >>= f = decode_error

-- `zipfile` and the JSON and schema libraries: the entries of an archive, the data of an entry, and
-- the manifest model that a manifest's bytes are parsed to, before the model's own validators.
pub record ZipReader : Type 0 where
  pub infolist : List ℕ → Outcome (List ZipInfo)
  pub open_entry : List ℕ → ZipInfo → Outcome (List ℕ)
  pub parse_manifest : List ℕ → Option PackageManifest

-- `status_matches_proof` and the validator of `verified_files`.
pass_ok : Hash → VerificationReceipt → Bool
pass_ok h r = not (is_none r.archive_sha256) && is_none r.blocker && elim r.manifest [
  | none ↦ false
  | some m ↦
      r.candidate == some m.candidate
      && m.candidate.content_sha256 == candidate_content_sha256 h m.files
      && r.package_digest == some (manifest_digest h m)
      && is_subset r.verified_files (file_paths m.files)
      && is_subset (file_paths m.files) r.verified_files
]

blocked_ok : VerificationReceipt → Bool
blocked_ok r =
    not (is_none r.blocker)
    && is_none r.archive_sha256
    && is_none r.candidate
    && is_none r.package_digest
    && is_none r.manifest
    && is_empty r.verified_files

unfoldable pub verification_ok : Hash → VerificationReceipt → Bool
unfolding pass_ok blocked_ok paths_ok
verification_ok h r =
    paths_ok r.verified_files && elim r.status [ pass ↦ pass_ok h r | blocked ↦ blocked_ok r ]
