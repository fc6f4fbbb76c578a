-- ===== src/Archive/Directory.antt =====
-- `_valid_central_directory_at` and `_preflight_central_directory`.
pub mod Headers
pub mod Signature
pub mod Preflight
use skills_sdk.Prelude.{
  ℕ, zero, suc, ◌+◌, ◌-◌, ◌*◌, ◌≤◌, ◌<◌, ◌≡◌, Bool, true, false, not, ◌&&◌, ◌||◌, List, [], ◌∷◌,
  length, nat_eq, ltb, leb, codes_beq, Option, none, some, if◌then◌else◌,
}
use skills_sdk.Archive.Bytes.{byte_at, read_u16, read_u32, four_at}

pub record PackageArchiveVerificationPolicy : Type 0 where
  pub max_archive_bytes : ℕ
  pub max_entry_count : ℕ
  pub max_total_uncompressed_bytes : ℕ

-- The defaults of the policy's fields.
abbrev pub default_policy : PackageArchiveVerificationPolicy
default_policy = record {
  max_archive_bytes = 25 * 1024 * 1024;
  max_entry_count = 500;
  max_total_uncompressed_bytes = 20 * 1024 * 1024;
}

-- `PK\x05\x06` and `PK\x01\x02`
abbrev pub eocd_signature : List ℕ
eocd_signature = 0x50 ∷ 0x4b ∷ 5 ∷ 6 ∷ []

abbrev pub central_signature : List ℕ
central_signature = 0x50 ∷ 0x4b ∷ 1 ∷ 2 ∷ []

abbrev pub eocd_size : ℕ
eocd_size = 22

abbrev pub central_header_size : ℕ
central_header_size = 46

abbrev pub max_zip_comment_bytes : ℕ
max_zip_comment_bytes = 65535

-- The fields that `struct.unpack_from("<HHHHIIH", snapshot, offset + 4)` gives.
pub record EndRecord : Type 0 where
  pub disk : ℕ
  pub central_disk : ℕ
  pub disk_entries : ℕ
  pub total_entries : ℕ
  pub size : ℕ
  pub directory_offset : ℕ
  pub comment_size : ℕ

abbrev pub end_record : List ℕ → ℕ → EndRecord
end_record snapshot offset = record {
  disk = read_u16 snapshot (offset + 4);
  central_disk = read_u16 snapshot (offset + 6);
  disk_entries = read_u16 snapshot (offset + 8);
  total_entries = read_u16 snapshot (offset + 10);
  size = read_u32 snapshot (offset + 12);
  directory_offset = read_u32 snapshot (offset + 16);
  comment_size = read_u16 snapshot (offset + 20);
}

-- Where the header at the cursor ends, with its name, extra field and comment.
unfoldable pub header_end : List ℕ → ℕ → ℕ
header_end snapshot cursor =
    cursor
    + (central_header_size
        + read_u16 snapshot (cursor + 28)
        + read_u16 snapshot (cursor + 30)
        + read_u16 snapshot (cursor + 32))

unfoldable pub header_at : List ℕ → ℕ → Bool
header_at snapshot cursor = codes_beq (four_at snapshot cursor) central_signature

-- The `while` loop over the headers; `none` is a loop that ran out of rounds.
walk_headers : ℕ → List ℕ → ℕ → ℕ → ℕ → ℕ → ℕ → Option Bool
walk_headers zero snapshot most offset total cursor observed = none
walk_headers (suc fuel) snapshot most offset total cursor observed =
    let next = header_end snapshot cursor in
    let rest = walk_headers fuel snapshot most offset total next (observed + 1) in
    if ltb cursor offset
    then (if ltb offset (cursor + central_header_size) || not (header_at snapshot cursor)
        then some false
        else if ltb offset next || ltb most (observed + 1)
        then some false
        else rest)
    else some (nat_eq cursor offset && nat_eq observed total)

-- The tests on the end record, up to the loop.
end_record_ok : EndRecord → ℕ → ℕ → ℕ → Bool
end_record_ok r most len offset =
    nat_eq (offset + eocd_size + r.comment_size) len
    && (nat_eq r.disk 0 && nat_eq r.central_disk 0 && nat_eq r.disk_entries r.total_entries)
    && not (
        nat_eq r.total_entries 0xffff
        || nat_eq r.size 0xffffffff
        || nat_eq r.directory_offset 0xffffffff)
    && not
        (ltb most r.total_entries || ltb offset r.size || ltb (offset - r.size) r.directory_offset)

-- A header takes 46 bytes or more, so `offset + 1` rounds are enough.
directory_walk : List ℕ → PackageArchiveVerificationPolicy → ℕ → Option Bool
unfolding walk_headers
directory_walk snapshot policy offset =
    let r = end_record snapshot offset in
    walk_headers (offset + 1) snapshot policy.max_entry_count offset r.total_entries
      (offset - r.size) 0

abbrev holds : Option Bool → Bool
holds none = false
holds (some b) = b

pub valid_central_directory_at : List ℕ → PackageArchiveVerificationPolicy → ℕ → Bool
unfolding directory_walk end_record_ok
valid_central_directory_at snapshot policy offset =
    if ltb (length snapshot) (offset + eocd_size)
    then false
    else if end_record_ok (end_record snapshot offset) policy.max_entry_count (length snapshot)
        offset
    then holds (directory_walk snapshot policy offset)
    else false

abbrev pub signature_at : List ℕ → ℕ → Bool
signature_at snapshot i = codes_beq (four_at snapshot i) eocd_signature

-- The last position below `stop`, and not below `start`, where the signature stands.
pub rfind_below : List ℕ → ℕ → ℕ → Option ℕ
rfind_below snapshot start zero = none
rfind_below snapshot start (suc i) =
    let rest = rfind_below snapshot start i in
    if ltb i start then none else if signature_at snapshot i then some i else rest

-- `snapshot.rfind(_EOCD_SIGNATURE, start, stop)`; a match lies within the slice.
pub rfind : List ℕ → ℕ → ℕ → Option ℕ
unfolding rfind_below
rfind snapshot start stop = rfind_below snapshot start (stop - 3)

-- The local variables of the search.
pub record Found : Type 0 where
  pub nonempty_offset : Option ℕ
  pub empty_offset : Option ℕ

-- What the search ends in: `None` for two directories with entries, or its variables.
pub data Search : Type 0 where
  exhausted : Search
  ambiguous : Search
  finished : Found → Search

-- A candidate that is a valid directory is recorded by whether it has entries.
record_candidate : List ℕ → ℕ → Found → Option Found
record_candidate snapshot offset found =
    if nat_eq (read_u16 snapshot (offset + 10)) 0
    then some (record found { empty_offset = some offset })
    else elim found.nonempty_offset [
      | some _ ↦ none
      | none ↦ some (record found { nonempty_offset = some offset })
    ]

visit : List ℕ → PackageArchiveVerificationPolicy → ℕ → Found → Option Found
unfolding record_candidate
visit snapshot policy offset found =
    if valid_central_directory_at snapshot policy offset
    then record_candidate snapshot offset found
    else some found

-- The `while` loop over the candidates, from the last one backwards.
search_loop : ℕ → List ℕ → PackageArchiveVerificationPolicy → ℕ → Option ℕ → Found → Search
search_loop zero snapshot policy start candidate found = exhausted
search_loop (suc fuel) snapshot policy start none found = finished found
search_loop (suc fuel) snapshot policy start (some offset) found =
    elim (visit snapshot policy offset found) [
      | none ↦ ambiguous
      | some found' ↦ search_loop fuel snapshot policy start (rfind snapshot start offset) found'
    ]

unfoldable pub search_start : List ℕ → ℕ
search_start snapshot = length snapshot - eocd_size - max_zip_comment_bytes

-- Each round moves to a lower offset, so one round more than the snapshot's bytes is enough.
scan_candidates : List ℕ → PackageArchiveVerificationPolicy → Search
unfolding search_loop rfind visit search_start
scan_candidates snapshot policy =
    search_loop (length snapshot + 2) snapshot policy (search_start snapshot)
      (rfind snapshot (search_start snapshot) (length snapshot))
      (record { nonempty_offset = none; empty_offset = none })

abbrev chosen : Search → Option ℕ
chosen exhausted = none
chosen ambiguous = none
chosen (finished found) = elim found.nonempty_offset [
  | some offset ↦ some offset
  | none ↦ found.empty_offset
]

unfoldable pub preflight_central_directory : List ℕ → PackageArchiveVerificationPolicy → Option ℕ
unfolding scan_candidates valid_central_directory_at
preflight_central_directory snapshot policy = chosen (scan_candidates snapshot policy)
