-- ===== src/Archive/Verify/Bindings.antt =====
-- What `_verify_bindings` of src/skills_sdk/packaging/archive_verification.py lets pass.
use skills_sdk.Prelude.{eq_lem, ◌≡◌, true, Option, none, some, ◌==◌, string_eq, option_eq, arith}
use skills_sdk.Json.{Hash}
use skills_sdk.Packaging.{
  PackageManifest, PackageReceipt, built, candidate_content_sha256, manifest_digest, candidate_eq,
  manifest_eq,
}
use skills_sdk.Packaging.Validation.{receipt_ok}
use skills_sdk.Archive.Receipts.{ZipReader}
use skills_sdk.Archive.Verify.{receipt_binds, receipt_failure, bindings_failure}

module _ (h : Hash) (zip : ZipReader) where
  -- What an expected receipt must be.
  abbrev pub Matches : PackageManifest → Option PackageReceipt → Type 0
  Matches manifest none = Unit
  Matches manifest (some receipt) =
      (receipt_ok h receipt ≡ true)
      × (receipt.status ≡ built)
      × (receipt.candidate ≡ some manifest.candidate)
      × (receipt.manifest ≡ some manifest)
      × (receipt.package_digest ≡ some (manifest_digest h manifest))

  receipt_tests :
      (m : PackageManifest) (receipt : PackageReceipt)
      → receipt_failure h zip m receipt ≡ none
      → (receipt_ok h receipt ≡ true)
        × (receipt_binds h zip m receipt ≡ true)
        × ((receipt.package_digest == some (manifest_digest h m)) ≡ true)
  unfolding receipt_failure
  receipt_tests m receipt e = ground arith

  binds_lem :
      (m : PackageManifest) (receipt : PackageReceipt)
      → receipt_binds h zip m receipt ≡ true
      → (receipt.status ≡ built)
        × ((receipt.candidate == some m.candidate) ≡ true)
        × ((receipt.manifest == some m) ≡ true)
  binds_lem m receipt e = ground arith

  bindings_tests :
      (m : PackageManifest) (expected : Option PackageReceipt)
      → bindings_failure h zip m expected ≡ none
      → ((candidate_content_sha256 h m.files == m.candidate.content_sha256) ≡ true)
        × (elim expected [ none ↦ none | some receipt ↦ receipt_failure h zip m receipt ] ≡ none)
  unfolding bindings_failure
  bindings_tests m expected e = ground arith

  pub bindings-none :
      (m : PackageManifest) (expected : Option PackageReceipt)
      → bindings_failure h zip m expected ≡ none
      → (candidate_content_sha256 h m.files ≡ m.candidate.content_sha256) × Matches m expected
  bindings-none m none e = ((string_eq.eqb_iff _ _).0 (bindings_tests m none e).0, tt)
  bindings-none m (some receipt) e =
      let (content, passed) = bindings_tests m (some receipt) e in
      let (valid_receipt, binds, digest) = receipt_tests m receipt passed in
      let (status, candidate, manifest) = binds_lem m receipt binds in
      (
        (string_eq.eqb_iff _ _).0 content,
        (
          valid_receipt,
          status,
          (eq_lem receipt.candidate (some m.candidate)).0 candidate,
          (eq_lem receipt.manifest (some m)).0 manifest,
          (eq_lem receipt.package_digest (some (manifest_digest h m))).0 digest,
        ),
      )
