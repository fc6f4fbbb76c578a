-- ===== src/Archive/Payload.antt =====
-- `_sha256_stream` and `_verify_payload`.
pub mod Laws
use skills_sdk.Prelude.{
  ℕ, ◌≡◌, Bool, true, false, not, ◌&&◌, ◌||◌, Option, none, some, List, [], ◌∷◌, String, contains,
  to_set, filter, sorted, length, ◌==◌, string_eq, ℕ_eq, nat_eq, if◌then◌else◌,
}
use skills_sdk.Json.{Hash}
use skills_sdk.Packaging.{PackageManifest, PackageManifestFile, file_paths}
use skills_sdk.Archive.Receipts.{VerificationReceipt, block, ZipInfo, Outcome, value, ◌>>=◌}
use skills_sdk.Archive.Entries.{Entries, entry_names, entry, manifest_path}

-- The digest of a stream and its length; the chunks of the loop are the whole stream together.
abbrev pub sha256_stream : Hash → List ℕ → String × ℕ
sha256_stream h stream = (h.sha256 stream, length stream)

-- `sorted(xs - ys)`
unfoldable pub difference : List String → List String → List String
unfolding contains to_set sorted
difference xs ys = sorted (to_set (filter (λ x. not (contains x ys)) xs))

-- `records[path]`: a later file of the same path would replace an earlier one.
unfoldable pub record_of : String → List PackageManifestFile → Option PackageManifestFile
record_of path [] = none
record_of path (f ∷ fs) = elim (record_of path fs) [
  | some r ↦ some r
  | none ↦ if f.path == path then some f else none
]

module _ (h : Hash) (open_entry : ZipInfo → Outcome (List ℕ)) where
  -- The tests on what the stream of one payload gave.
  unfoldable pub payload_failure :
      String → ZipInfo → PackageManifestFile → String × ℕ → Option VerificationReceipt
  payload_failure path info file (digest, observed_size) =
      if not (nat_eq observed_size info.file_size) || not (nat_eq observed_size file.size_bytes)
      then some (
          block "archive_payload_size_mismatch" "payload size does not match the manifest"
            (path ∷ []))
      else if not (digest == file.sha256)
      then some (
          block "archive_payload_digest_mismatch" "payload digest does not match the manifest"
            (path ∷ []))
      else none

  unfoldable pub verify_file :
      String → ZipInfo → PackageManifestFile → Outcome (Option VerificationReceipt)
  unfolding payload_failure
  verify_file path info file =
      if not (nat_eq info.file_size file.size_bytes)
      then value (
          some (
            block "archive_payload_size_mismatch" "payload size does not match the manifest"
              (path ∷ [])))
      else do
        stream ← open_entry info
        value (payload_failure path info file (sha256_stream h stream))

  -- One path of the loop; a path of both sets is a key of both dictionaries.
  unfoldable pub verify_path :
      Entries → List PackageManifestFile → String → Outcome (Option VerificationReceipt)
  unfolding verify_file entry record_of
  verify_path entries files path = elim (entry path entries) [
    | none ↦ value none
    | some info ↦ elim (record_of path files) [
      | none ↦ value none
      | some file ↦ verify_file path info file
    ]
  ]

  -- The loop stops at the first receipt.
  unfoldable pub verify_paths :
      Entries → List PackageManifestFile → List String → Outcome (Option VerificationReceipt)
  verify_paths entries files [] = value none
  verify_paths entries files (path ∷ paths) = do
    result ← verify_path entries files path
    elim result [ some receipt ↦ value (some receipt) | none ↦ verify_paths entries files paths ]

  unfoldable pub verify_sets :
      List String
      → List String
      → Outcome (Option VerificationReceipt)
      → Outcome (Option VerificationReceipt)
  verify_sets (missing ∷ _) undeclared rest = value (
      some (block "archive_payload_missing" "archive is missing a declared payload" (missing ∷ [])))
  verify_sets [] (undeclared ∷ _) rest = value (
      some (
        block "archive_payload_undeclared" "archive contains an undeclared payload"
          (undeclared ∷ [])))
  verify_sets [] [] rest = rest

  unfoldable pub verify_payload : Entries → PackageManifest → Outcome (Option VerificationReceipt)
  unfolding difference verify_sets verify_paths verify_path to_set sorted
  verify_payload entries manifest =
      let payload = filter (λ p. not (p == manifest_path)) (entry_names entries) in
      let declared = file_paths manifest.files in
      verify_sets (difference declared payload) (difference payload declared)
        (verify_paths entries manifest.files (sorted (to_set declared)))
