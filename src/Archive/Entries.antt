-- ===== src/Archive/Entries.antt =====
-- `_entry_path`, `_is_symlink`, `_local_compression_matches` and `_validate_entries`.
pub mod Laws
use skills_sdk.Prelude.{
  ℕ, ◌+◌, ◌/◌, ◌%◌, ◌≡◌, Bool, true, false, not, ◌&&◌, ◌||◌, Option, none, some, List, [], ◌∷◌,
  ◌++◌, String, codes, contains, ends_with, length, ◌==◌, string_eq, ℕ_eq, nat_eq, leb, ltb,
  codes_beq, if◌then◌else◌,
}
use skills_sdk.Paths.{is_portable}
use skills_sdk.Archive.Bytes.{read_u16, four_at}
use skills_sdk.Archive.Directory.{PackageArchiveVerificationPolicy}
use skills_sdk.Archive.Receipts.{VerificationReceipt, block, ZipInfo}

abbrev pub manifest_path : String
manifest_path = "package-manifest.json"

-- `ZIP_STORED` and `ZIP_DEFLATED`
abbrev pub zip_stored : ℕ
zip_stored = 0

abbrev pub zip_deflated : ℕ
zip_deflated = 8

-- `ZipInfo.is_dir` of the library: the name ends in a slash.
abbrev is_dir : ZipInfo → Bool
is_dir info = ends_with b'/' (codes info.filename)

unfoldable pub entry_path : ZipInfo → Option String
unfolding contains ends_with is_portable
entry_path info =
    if contains 0 (codes info.orig_filename)
      || not (info.orig_filename == info.filename)
      || is_dir info
    then none
    else if is_portable info.filename
    then some info.filename
    else none

-- `stat.S_ISLNK(info.external_attr >> 16)`
unfoldable pub is_symlink : ZipInfo → Bool
is_symlink info = nat_eq (info.external_attr / 0x10000 / 0x1000 % 0x10) 0xa

-- `PK\x03\x04`
abbrev local_signature : List ℕ
local_signature = 0x50 ∷ 0x4b ∷ 3 ∷ 4 ∷ []

unfoldable pub local_compression_matches : List ℕ → ZipInfo → Bool
local_compression_matches snapshot info =
    leb (info.header_offset + 30) (length snapshot)
    && codes_beq (four_at snapshot info.header_offset) local_signature
    && nat_eq (read_u16 snapshot (info.header_offset + 8)) info.compress_type

-- The dictionary `entries`, in the order of insertion.
abbrev pub Entries : Type 0
Entries = List (String × ZipInfo)

abbrev pub entry_names : Entries → List String
entry_names [] = []
entry_names ((path, info) ∷ rest) = path ∷ entry_names rest

unfoldable pub entry : String → Entries → Option ZipInfo
entry path [] = none
entry path ((p, info) ∷ rest) = if p == path then some info else entry path rest

abbrev pub total_size : List ZipInfo → ℕ
total_size [] = 0
total_size (info ∷ infos) = info.file_size + total_size infos

pub data Validated : Type 0 where
  valid : Entries → Validated
  failure : VerificationReceipt → Validated

-- The tests on one entry, in the order of the loop's body; `none` lets the entry in.
unfoldable pub entry_failure : List ℕ → Entries → String → ZipInfo → Option VerificationReceipt
unfolding local_compression_matches is_symlink contains
entry_failure snapshot entries path info =
    if contains path (entry_names entries)
    then some (
        block
          (if path == manifest_path
            then "archive_manifest_duplicate"
            else "archive_entry_duplicate")
          "archive entry path is duplicated" (path ∷ []))
    else if not (nat_eq (info.flag_bits % 2) 0)
    then some (block "archive_unreadable" "encrypted archive entries are not supported" (path ∷ []))
    else if not (nat_eq info.compress_type zip_stored || nat_eq info.compress_type zip_deflated)
    then some
        (block "archive_invalid_zip" "archive compression method is not supported" (path ∷ []))
    else if not (local_compression_matches snapshot info)
    then some (block "archive_invalid_zip" "archive compression headers disagree" (path ∷ []))
    else if is_symlink info
    then some
        (block "archive_symlink_forbidden" "archive symlink entries are forbidden" (path ∷ []))
    else none

unfoldable pub validate_loop : List ℕ → Entries → List ZipInfo → Validated
validate_loop snapshot entries [] = valid entries
validate_loop snapshot entries (info ∷ infos) = elim (entry_path info) [
  | none ↦ failure (block "archive_path_invalid" "archive entry path is not portable" [])
  | some path ↦ elim (entry_failure snapshot entries path info) [
    | some receipt ↦ failure receipt
    | none ↦ validate_loop snapshot (entries ++ (path, info) ∷ []) infos
  ]
]

unfoldable pub validate_entries :
    List ZipInfo → PackageArchiveVerificationPolicy → List ℕ → Validated
unfolding validate_loop entry_failure entry_path
validate_entries infos policy snapshot =
    if ltb policy.max_entry_count (length infos)
      || ltb policy.max_total_uncompressed_bytes (total_size infos)
    then failure (block "archive_invalid_zip" "archive exceeds configured verification bounds" [])
    else validate_loop snapshot [] infos
