-- ===== src/Archive/Verify.antt =====
-- `_read_snapshot`, `_read_manifest`, `_verify_bindings` and `verify_package_archive`.
pub mod Reading
pub mod Bindings
pub mod Proof
use skills_sdk.Prelude.{
  ◌-◌, ℕ, ◌+◌, ◌≡◌, Bool, true, false, not, ◌&&◌, ◌||◌, Option, none, some, List, [], ◌∷◌, ◌++◌,
  String, length, take, ◌==◌, string_eq, option_eq, ltb, nat_eq, if◌then◌else◌,
}
use skills_sdk.Json.{Hash}
use skills_sdk.Packaging.{
  PackageManifest, PackageReceipt, built, blocked, file_paths, candidate_content_sha256,
  manifest_digest, candidate_eq, manifest_eq,
}
use skills_sdk.Packaging.Validation.{manifest_ok, receipt_ok}
use skills_sdk.Archive.Bytes.{read_bounded_bytes}
use skills_sdk.Archive.Directory.{
  PackageArchiveVerificationPolicy, eocd_size, preflight_central_directory,
}
use skills_sdk.Archive.Receipts.{
  decode_error, VerificationReceipt, pass, block, ZipInfo, ZipReader, Outcome, value, runtime_error,
  zip_error, ◌>>=◌,
}
use skills_sdk.Archive.Entries.{
  Entries, entry, manifest_path, Validated, valid, failure, validate_entries,
}
use skills_sdk.Archive.Payload.{verify_payload}

-- What the file system answers: `open` fails in one of three ways, or gives a descriptor with the
-- answer of `fstat`, and then the stream, or an error while it is read.
pub data ArchiveFile : Type 0 where
  not_found is_directory open_error : ArchiveFile
  opened : (regular : Bool) → (st_size : ℕ) → (stream : Option (List ℕ)) → ArchiveFile

pub data Snapshot : Type 0 where
  bytes : List ℕ → Snapshot
  stopped : VerificationReceipt → Snapshot

unfoldable pub read_opened :
    PackageArchiveVerificationPolicy → Bool → ℕ → Option (List ℕ) → Snapshot
read_opened policy regular st_size stream =
    if not regular
    then stopped (block "archive_not_regular_file" "package archive is not a regular file" [])
    else if ltb policy.max_archive_bytes st_size
    then stopped (block "archive_invalid_zip" "archive exceeds configured verification bounds" [])
    else elim stream [
      | none ↦ stopped (block "archive_unreadable" "package archive cannot be read" [])
      | some data_bytes ↦ elim (read_bounded_bytes data_bytes policy.max_archive_bytes) [
        | none ↦ stopped (block "archive_unreadable" "package archive cannot be read" [])
        | some kept ↦ bytes kept
      ]
    ]

unfoldable pub read_snapshot : ArchiveFile → PackageArchiveVerificationPolicy → Snapshot
unfolding read_opened read_bounded_bytes
read_snapshot not_found policy =
    stopped (block "archive_missing" "package archive does not exist" [])
read_snapshot is_directory policy =
    stopped (block "archive_not_regular_file" "package archive is not a regular file" [])
read_snapshot open_error policy =
    stopped (block "archive_unreadable" "package archive cannot be read" [])
read_snapshot (opened regular st_size stream) policy = read_opened policy regular st_size stream

-- The archive bytes that `zipfile` is given: the comment is cut off.
abbrev pub without_comment : List ℕ → ℕ → List ℕ
without_comment snapshot offset = take (offset + eocd_size - 2) snapshot ++ 0 ∷ 0 ∷ []

module _ (h : Hash) (zip : ZipReader) where
  -- The model after its own validators.
  unfoldable pub validated_manifest : Option PackageManifest → Option PackageManifest
  validated_manifest none = none
  validated_manifest (some m) = if manifest_ok m then some m else none

  unfoldable pub read_data : ZipInfo → List ℕ → Option PackageManifest
  unfolding validated_manifest
  read_data info stream = elim (read_bounded_bytes stream info.file_size) [
    | none ↦ none
    | some kept ↦
        if nat_eq (length kept) info.file_size
        then validated_manifest (zip.parse_manifest kept)
        else none
  ]

  -- A manifest's entry whose name cannot be decoded is a manifest that cannot be used.
  abbrev pub decoded : Outcome (Option PackageManifest) → Outcome (Option PackageManifest)
  decoded (value found) = value found
  decoded runtime_error = runtime_error
  decoded zip_error = zip_error
  decoded decode_error = value none

  -- `none` inside the outcome is a manifest that cannot be used.
  unfoldable pub read_manifest : List ℕ → ZipInfo → Outcome (Option PackageManifest)
  unfolding read_data
  read_manifest archive info =
      decoded (do stream ← zip.open_entry archive info; value (read_data info stream))

  abbrev pub receipt_binds : PackageManifest → PackageReceipt → Bool
  receipt_binds manifest receipt =
      elim receipt.status [ built ↦ true | blocked ↦ false ]
      && receipt.candidate == some manifest.candidate
      && receipt.manifest == some manifest

  -- The tests on the expected receipt; `none` lets it pass.
  unfoldable pub receipt_failure : PackageManifest → PackageReceipt → Option VerificationReceipt
  receipt_failure manifest receipt =
      if not (receipt_ok h receipt)
      then some (block "archive_receipt_invalid" "expected receipt violates its contract" [])
      else if not (receipt_binds manifest receipt)
      then some (
          block "archive_receipt_mismatch" "expected receipt does not bind this package archive" [])
      else if not (receipt.package_digest == some (manifest_digest h manifest))
      then some (
          block "archive_package_digest_mismatch"
            "package digest does not match the expected receipt" [])
      else none

  -- The failure of `_verify_bindings`; without one it returns the digest of the manifest.
  unfoldable pub bindings_failure :
      PackageManifest → Option PackageReceipt → Option VerificationReceipt
  unfolding receipt_failure
  bindings_failure manifest expected =
      if not (candidate_content_sha256 h manifest.files == manifest.candidate.content_sha256)
      then some (
          block "archive_candidate_digest_mismatch"
            "manifest files do not match the candidate digest" [])
      else elim expected [ none ↦ none | some receipt ↦ receipt_failure manifest receipt ]

  abbrev pub pass_receipt : String → PackageManifest → VerificationReceipt
  pass_receipt archive_digest manifest = record {
    status = pass;
    archive_sha256 = some archive_digest;
    candidate = some manifest.candidate;
    package_digest = some (manifest_digest h manifest);
    manifest = some manifest;
    verified_files = file_paths manifest.files;
    blocker = none;
  }

  -- The part of the `try` block after the manifest is read.
  unfoldable pub check_contents :
      String
      → Option PackageReceipt
      → Entries
      → List ℕ
      → PackageManifest
      → Outcome VerificationReceipt
  unfolding bindings_failure
  check_contents digest expected entries archive manifest = do
    payload ← verify_payload h (zip.open_entry archive) entries manifest
    elim payload [
      | some receipt ↦ value receipt
      | none ↦ elim (bindings_failure manifest expected) [
        | some receipt ↦ value receipt
        | none ↦ value (pass_receipt digest manifest)
      ]
    ]

  unfoldable pub check_manifest :
      String → Option PackageReceipt → Entries → List ℕ → Outcome VerificationReceipt
  unfolding check_contents read_manifest
  check_manifest digest expected entries archive = elim (entry manifest_path entries) [
    | none ↦ value (block "archive_manifest_missing" "canonical package manifest is missing" [])
    | some info ↦ do
      found ← read_manifest archive info
      elim found [
        | none ↦ value (
            block "archive_manifest_invalid" "canonical package manifest is invalid"
              (manifest_path ∷ []))
        | some manifest ↦ check_contents digest expected entries archive manifest
      ]
  ]

  unfoldable pub check_archive :
      PackageArchiveVerificationPolicy
      → String
      → Option PackageReceipt
      → List ℕ
      → List ℕ
      → Outcome VerificationReceipt
  unfolding check_manifest
  check_archive policy digest expected snapshot archive = do
    infos ← zip.infolist archive
    elim (validate_entries infos policy snapshot) [
      | failure receipt ↦ value receipt
      | valid entries ↦ check_manifest digest expected entries archive
    ]

  -- The handlers of the `try` block.
  abbrev pub caught : Outcome VerificationReceipt → VerificationReceipt
  caught (value receipt) = receipt
  caught runtime_error =
      block "archive_unreadable" "package archive contains an unreadable entry" []
  caught zip_error = block "archive_invalid_zip" "package archive is not a readable ZIP" []
  caught decode_error = block "archive_invalid_zip" "package archive is not a readable ZIP" []

  unfoldable pub digest_matches : Option String → String → Bool
  digest_matches none digest = true
  digest_matches (some expected) digest = digest == expected

  unfoldable pub verify_snapshot :
      PackageArchiveVerificationPolicy
      → Option String
      → Option PackageReceipt
      → List ℕ
      → VerificationReceipt
  unfolding check_archive digest_matches
  verify_snapshot policy expected_sha256 expected_receipt snapshot =
      if ltb policy.max_archive_bytes (length snapshot)
      then block "archive_invalid_zip" "archive exceeds configured verification bounds" []
      else elim (preflight_central_directory snapshot policy) [
        | none ↦
            block "archive_invalid_zip" "archive central directory violates verification bounds" []
        | some offset ↦
            if digest_matches expected_sha256 (h.sha256 snapshot)
            then caught (
                check_archive policy (h.sha256 snapshot) expected_receipt snapshot
                  (without_comment snapshot offset))
            else block "archive_digest_mismatch" "archive digest does not match the expected digest"
                []
      ]

  unfoldable pub verify_read :
      Option String
      → Option PackageReceipt
      → PackageArchiveVerificationPolicy
      → Snapshot
      → VerificationReceipt
  unfolding verify_snapshot
  verify_read expected_sha256 expected_receipt policy (stopped receipt) = receipt
  verify_read expected_sha256 expected_receipt policy (bytes snapshot) =
      verify_snapshot policy expected_sha256 expected_receipt snapshot

  unfoldable pub verify_package_archive :
      ArchiveFile
      → Option String
      → Option PackageReceipt
      → PackageArchiveVerificationPolicy
      → VerificationReceipt
  unfolding verify_read read_snapshot
  verify_package_archive file expected_sha256 expected_receipt policy =
      verify_read expected_sha256 expected_receipt policy (read_snapshot file policy)
