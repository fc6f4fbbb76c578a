-- ===== src/Archive/Tests.antt =====
-- A small archive: one file and its manifest, two central headers and the end record.
use skills_sdk.Prelude.{
  ℕ, ◌≡◌, ◌↔◌, refl, true, none, some, List, [], ◌∷◌, ◌++◌, String, take, ◌==◌, string_eq,
  if◌then◌else◌,
}
use skills_sdk.Json.{Hash}
use skills_sdk.Packaging.{PackageManifest, skill_md}
use skills_sdk.Packaging.Validation.{manifest_ok}
use skills_sdk.Archive.Bytes.{read_bounded_bytes, read_bounded_bytes_lem}
use skills_sdk.Archive.Directory.{
  header_at, header_end, default_policy, valid_central_directory_at, preflight_central_directory,
}
use skills_sdk.Archive.Directory.Headers.{IsDirectory, valid_central_directory_at_iff}
use skills_sdk.Archive.Directory.Preflight.{Verdict, preflight_central_directory_lem}
use skills_sdk.Archive.Receipts.{pass, ZipInfo, ZipReader, Outcome, value}
use skills_sdk.Archive.Entries.{entry, valid, validate_entries}
use skills_sdk.Archive.Entries.Laws.{IsAdmitted, named, validate_entries_iff}
use skills_sdk.Archive.Payload.{verify_payload}
use skills_sdk.Archive.Payload.Laws.{IsPayload, verify_payload_iff}
use skills_sdk.Archive.Verify.{opened, verify_package_archive}
use skills_sdk.Archive.Verify.Proof.{IsVerified, verify_package_archive-IsVerified}

abbrev zeros_16 : List ℕ
zeros_16 = 0 ∷ 0 ∷ 0 ∷ 0 ∷ 0 ∷ 0 ∷ 0 ∷ 0 ∷ 0 ∷ 0 ∷ 0 ∷ 0 ∷ 0 ∷ 0 ∷ 0 ∷ 0 ∷ []

abbrev zeros_10 : List ℕ
zeros_10 = 0 ∷ 0 ∷ 0 ∷ 0 ∷ 0 ∷ 0 ∷ 0 ∷ 0 ∷ 0 ∷ 0 ∷ []

abbrev local_header : List ℕ
local_header = (0x50 ∷ 0x4b ∷ 3 ∷ 4 ∷ []) ++ zeros_16 ++ zeros_10

abbrev central_header : List ℕ
central_header = (0x50 ∷ 0x4b ∷ 1 ∷ 2 ∷ []) ++ zeros_16 ++ zeros_16 ++ zeros_10

abbrev end_bytes : List ℕ
end_bytes =
    0x50 ∷ 0x4b ∷ 5 ∷ 6 ∷ 0 ∷ 0 ∷ 0 ∷ 0 ∷ 2 ∷ 0 ∷ 2 ∷ 0 ∷ 92 ∷ 0 ∷ 0 ∷ 0 ∷ 30 ∷ 0 ∷ 0 ∷ 0 ∷ 0 ∷ 0
    ∷ []

abbrev small_archive : List ℕ
small_archive = local_header ++ central_header ++ central_header ++ end_bytes

abbrev info_of : String → ℕ → ZipInfo
info_of name size = record {
  filename = name;
  orig_filename = name;
  file_size = size;
  flag_bits = 0;
  compress_type = 0;
  header_offset = 0;
  external_attr = 0;
}

abbrev infos : List ZipInfo
infos = info_of "package-manifest.json" 2 ∷ info_of "SKILL.md" 3 ∷ []

abbrev manifest : PackageManifest
manifest = record {
  candidate = record { package_id = "demo"; source_revision = "r"; content_sha256 = "digest" };
  version = "1.0.0";
  files = record { path = "SKILL.md"; sha256 = "digest"; size_bytes = 3; role = skill_md } ∷ [];
  provenance = record { source = "SKILL.md" ∷ []; builder = "skills-sdk.packaging.manifest/v1" };
}

abbrev hash : Hash
hash = record { sha256 = λ _. "digest"; dumps = λ _. [] }

abbrev stream_of : ZipInfo → Outcome (List ℕ)
stream_of info =
    if info.filename == "SKILL.md" then value (1 ∷ 2 ∷ 3 ∷ []) else value (b'{' ∷ b'}' ∷ [])

abbrev reader : ZipReader
reader = record {
  infolist = λ _. value infos;
  open_entry = λ _ info. stream_of info;
  parse_manifest = λ _. some manifest;
}

found_end : preflight_central_directory small_archive default_policy ≡ some 122
unfolding preflight_central_directory header_at header_end
found_end = refl

passes :
    (verify_package_archive hash reader
      (opened true 144 (some small_archive))
      (some "digest")
      none
      default_policy).status
    ≡ pass
unfolding verify_package_archive preflight_central_directory header_at header_end validate_entries
    entry manifest_ok verify_payload
passes = refl

admitted : validate_entries infos default_policy small_archive ≡ valid (named infos)
unfolding validate_entries
admitted = refl

verify_package_archive-IsVerified_example :
    IsVerified hash reader
      (opened true 144 (some small_archive))
      (some "digest")
      none
      default_policy
      (verify_package_archive hash reader
        (opened true 144 (some small_archive))
        (some "digest")
        none
        default_policy)
verify_package_archive-IsVerified_example =
    verify_package_archive-IsVerified hash reader (opened true 144 (some small_archive))
      (some "digest") none default_policy passes

preflight_central_directory_example :
    Verdict small_archive default_policy (preflight_central_directory small_archive default_policy)
preflight_central_directory_example = preflight_central_directory_lem small_archive default_policy

valid_central_directory_at_example :
    (valid_central_directory_at small_archive default_policy 122 ≡ true)
    ↔ IsDirectory small_archive default_policy 122
valid_central_directory_at_example = valid_central_directory_at_iff small_archive default_policy 122

read_bounded_bytes_example : read_bounded_bytes small_archive 40 ≡ some (take 41 small_archive)
read_bounded_bytes_example = read_bounded_bytes_lem small_archive 40

validate_entries_example :
    (validate_entries infos default_policy small_archive ≡ valid (named infos))
    ↔ (IsAdmitted infos default_policy small_archive × (named infos ≡ named infos))
validate_entries_example = validate_entries_iff infos default_policy small_archive (named infos)

verify_payload_example :
    (verify_payload hash stream_of (named infos) manifest ≡ value none)
    ↔ IsPayload hash stream_of (named infos) manifest
verify_payload_example = verify_payload_iff hash stream_of (named infos) manifest
