-- ===== src/Archive/Directory/Headers.antt =====
-- What the header loop accepts: headers that follow one another without a gap.
use skills_sdk.Prelude.{
  subst, ℕ, zero, suc, ◌+◌, ◌-◌, ◌≤◌, ◌<◌, ◌≡◌, ◌≢◌, ◌↔◌, Bool, true, false, List, length, ltb,
  Option, none, some, arith, Bool-cases, inl, inr,
}
use skills_sdk.Archive.Directory.{
  PackageArchiveVerificationPolicy, EndRecord, end_record, eocd_size, central_header_size,
  header_end, header_at, walk_headers, end_record_ok, directory_walk, holds,
  valid_central_directory_at,
}

-- `count` headers stand from the cursor to `stop`, each with its signature, one after the other.
pub data Headers (snapshot : List ℕ) (stop : ℕ) : ℕ → ℕ → Type 0 where
  finish : {cursor : ℕ} → cursor ≡ stop → Headers snapshot stop cursor 0
  header :
      {cursor count : ℕ}
      → cursor + central_header_size ≤ stop
      → header_at snapshot cursor ≡ true
      → header_end snapshot cursor ≤ stop
      → Headers snapshot stop (header_end snapshot cursor) count
      → Headers snapshot stop cursor (suc count)

header_end_grows :
    (snapshot : List ℕ) (cursor : ℕ) → cursor + central_header_size ≤ header_end snapshot cursor
unfolding header_end
header_end_grows snapshot cursor = omega arith

module _ (snapshot : List ℕ) (most stop total : ℕ) where
  -- The loop ends within its rounds.
  walk_ends :
      (fuel cursor observed : ℕ)
      → stop - cursor < fuel
      → walk_headers fuel snapshot most stop total cursor observed ≢ none
  unfolding walk_headers
  walk_ends zero cursor observed f = absurd (omega arith)
  walk_ends (suc fuel) cursor observed f = ground (
    arith,
    header_end_grows snapshot cursor,
    walk_ends fuel (header_end snapshot cursor) (observed + 1),
  )

module _ (snapshot : List ℕ) (most stop total : ℕ) (within : total ≤ most) where
  walk_sound :
      (fuel cursor observed : ℕ)
      → walk_headers fuel snapshot most stop total cursor observed ≡ some true
      → (count : ℕ) × Headers snapshot stop cursor count × (observed + count ≡ total)
  unfolding walk_headers
  walk_sound zero cursor observed h = cc
  walk_sound (suc fuel) cursor observed h = elim (Bool-cases (ltb cursor stop)) [
    | inr last ↦ (0, finish (ground arith), ground arith)
    | inl more ↦
        let (count, headers, same) =
          walk_sound fuel (header_end snapshot cursor) (observed + 1) (ground arith) in
        (suc count, header (ground arith) (ground arith) (ground arith) headers, omega arith)
  ]

  walk_complete :
      (fuel cursor observed count : ℕ)
      → stop - cursor < fuel
      → Headers snapshot stop cursor count
      → observed + count ≡ total
      → walk_headers fuel snapshot most stop total cursor observed ≡ some true
  unfolding walk_headers
  walk_complete zero cursor observed count f hs e = absurd (omega arith)
  walk_complete (suc fuel) cursor observed zero f (finish p) e = ground arith
  walk_complete (suc fuel) cursor observed (suc count) f (header fits sign next hs) e = ground (
    arith,
    header_end_grows snapshot cursor,
    walk_complete fuel (header_end snapshot cursor) (observed + 1) count
        (omega (arith, header_end_grows snapshot cursor)) hs (omega arith),
  )

-- A central directory that ends at `offset`, as the program wants it.
pub record IsDirectory (snapshot : List ℕ) (policy : PackageArchiveVerificationPolicy) (offset : ℕ)
    : Type 0 where
  pub ends_snapshot :
      offset + eocd_size + (end_record snapshot offset).comment_size ≡ length snapshot
  pub one_disk :
      ((end_record snapshot offset).disk ≡ 0)
      × ((end_record snapshot offset).central_disk ≡ 0)
      × ((end_record snapshot offset).disk_entries ≡ (end_record snapshot offset).total_entries)
  pub not_zip64 :
      ((end_record snapshot offset).total_entries ≢ 0xffff)
      × ((end_record snapshot offset).size ≢ 0xffffffff)
      × ((end_record snapshot offset).directory_offset ≢ 0xffffffff)
  pub bounded : (end_record snapshot offset).total_entries ≤ policy.max_entry_count
  pub starts_inside : (end_record snapshot offset).size ≤ offset
  pub declared_start :
      (end_record snapshot offset).directory_offset ≤ offset - (end_record snapshot offset).size
  pub headers :
      Headers snapshot offset
        (offset - (end_record snapshot offset).size)
        (end_record snapshot offset).total_entries

-- The test of a candidate ends, whatever the bytes.
directory_walk-ne-none :
    (snapshot : List ℕ) (policy : PackageArchiveVerificationPolicy) (offset : ℕ)
    → directory_walk snapshot policy offset ≢ none
unfolding directory_walk
directory_walk-ne-none snapshot policy offset =
    walk_ends snapshot policy.max_entry_count offset (end_record snapshot offset).total_entries
      (offset + 1) (offset - (end_record snapshot offset).size) 0 (omega arith)

holds_iff : (o : Option Bool) → (holds o ≡ true) ↔ (o ≡ some true)
holds_iff none = ground arith
holds_iff (some b) = ground arith

valid_inversion :
    (snapshot : List ℕ) (policy : PackageArchiveVerificationPolicy) (offset : ℕ)
    → valid_central_directory_at snapshot policy offset ≡ true
    → (end_record_ok (end_record snapshot offset) policy.max_entry_count (length snapshot) offset
        ≡ true)
      × (directory_walk snapshot policy offset ≡ some true)
unfolding valid_central_directory_at
valid_inversion snapshot policy offset h =
    ground (arith, holds_iff (directory_walk snapshot policy offset))

record_ok_inversion :
    (r : EndRecord) (most len offset : ℕ)
    → end_record_ok r most len offset ≡ true
    → (offset + eocd_size + r.comment_size ≡ len)
      × ((r.disk ≡ 0) × (r.central_disk ≡ 0) × (r.disk_entries ≡ r.total_entries))
      × ((r.total_entries ≢ 0xffff) × (r.size ≢ 0xffffffff) × (r.directory_offset ≢ 0xffffffff))
      × (r.total_entries ≤ most)
      × (r.size ≤ offset)
      × (r.directory_offset ≤ offset - r.size)
unfolding end_record_ok
record_ok_inversion r most len offset h = ground arith

record_ok_build :
    (r : EndRecord) (most len offset : ℕ)
    → offset + eocd_size + r.comment_size ≡ len
    → (r.disk ≡ 0) × (r.central_disk ≡ 0) × (r.disk_entries ≡ r.total_entries)
    → (r.total_entries ≢ 0xffff) × (r.size ≢ 0xffffffff) × (r.directory_offset ≢ 0xffffffff)
    → r.total_entries ≤ most
    → r.size ≤ offset
    → r.directory_offset ≤ offset - r.size
    → end_record_ok r most len offset ≡ true
unfolding end_record_ok
record_ok_build r most len offset a b c d e f = ground arith

valid_sound :
    (snapshot : List ℕ) (policy : PackageArchiveVerificationPolicy) (offset : ℕ)
    → valid_central_directory_at snapshot policy offset ≡ true
    → IsDirectory snapshot policy offset
unfolding directory_walk
valid_sound snapshot policy offset h =
    let (fields, walked) = valid_inversion snapshot policy offset h in
    let (ends, one, zip, most, inside, start) =
      record_ok_inversion (end_record snapshot offset) _ _ offset fields in
    let (count, headers, same) =
      walk_sound snapshot policy.max_entry_count offset (end_record snapshot offset).total_entries
        most (offset + 1) (offset - (end_record snapshot offset).size) 0 walked in
    record {
      ends_snapshot = ends;
      one_disk = one;
      not_zip64 = zip;
      bounded = most;
      starts_inside = inside;
      declared_start = start;
      headers = subst (Headers snapshot offset _) (omega arith) headers;
    }

valid_complete :
    (snapshot : List ℕ) (policy : PackageArchiveVerificationPolicy) (offset : ℕ)
    → IsDirectory snapshot policy offset
    → valid_central_directory_at snapshot policy offset ≡ true
unfolding valid_central_directory_at
valid_complete snapshot policy offset d =
    let walked : directory_walk snapshot policy offset ≡ some true =
      unfold directory_walk in
      walk_complete snapshot policy.max_entry_count offset
        (end_record snapshot offset).total_entries d.bounded (offset + 1)
        (offset - (end_record snapshot offset).size) 0 (end_record snapshot offset).total_entries
        (omega arith) d.headers (omega arith) in
    let fields =
      record_ok_build (end_record snapshot offset) policy.max_entry_count (length snapshot) offset
        d.ends_snapshot d.one_disk d.not_zip64 d.bounded d.starts_inside d.declared_start in
    let short : ltb (length snapshot) (offset + eocd_size) ≡ false =
      ground (arith, d.ends_snapshot) in
    rw (short, fields, walked)

-- The test accepts an offset exactly when the end record there closes the snapshot, belongs to a
-- single disk, is no ZIP64 record, stays within the policy, and as many headers as it declares fill
-- the bytes before it without a gap.
pub valid_central_directory_at_iff :
    (snapshot : List ℕ) (policy : PackageArchiveVerificationPolicy) (offset : ℕ)
    → (valid_central_directory_at snapshot policy offset ≡ true)
      ↔ IsDirectory snapshot policy offset
valid_central_directory_at_iff snapshot policy offset =
    (valid_sound snapshot policy offset, valid_complete snapshot policy offset)
