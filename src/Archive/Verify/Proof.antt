-- ===== src/Archive/Verify/Proof.antt =====
-- What a receipt with the status `pass` proves.
use skills_sdk.Prelude.{
  ◌⊎◌, ℕ, ◌≤◌, ◌≡◌, refl, sym, ap, subst, ◌∙◌, inl, inr, true, Option, none, some, List, String,
  length, string_eq, option_eq, arith, Option-cases,
}
use skills_sdk.Json.{Hash}
use skills_sdk.Packaging.{
  PackageManifest, PackageReceipt, candidate_content_sha256, candidate_eq, manifest_eq,
}
use skills_sdk.Archive.Directory.{PackageArchiveVerificationPolicy, preflight_central_directory}
use skills_sdk.Archive.Receipts.{
  decode_error, VerificationReceipt, pass, blocked, ZipInfo, ZipReader, Outcome, value,
  runtime_error, zip_error,
}
use skills_sdk.Archive.Entries.{
  Entries, entry, manifest_path, Validated, valid, failure, validate_entries,
}
use skills_sdk.Archive.Entries.Laws.{IsAdmitted, named, validate_entries_iff}
use skills_sdk.Archive.Payload.{verify_payload}
use skills_sdk.Archive.Payload.Laws.{IsPayload, verify_payload_iff}
use skills_sdk.Archive.Blocks.{
  Blocks, BlocksWith, BlocksEntries, validate_entries-Blocks, verify_payload-Blocks,
  bindings_failure-Blocks,
}
use skills_sdk.Archive.Verify.Reading.{
  Outcome-cases, IsRead, read_manifest-some, IsWhole, read_snapshot-IsWhole,
}
use skills_sdk.Archive.Verify.Bindings.{Matches, bindings-none}
use skills_sdk.Archive.Verify.{
  verify_read, ArchiveFile, Snapshot, bytes, stopped, read_opened, read_snapshot, without_comment,
  read_manifest, bindings_failure, pass_receipt, check_contents, check_manifest, check_archive,
  caught, digest_matches, verify_snapshot, verify_package_archive,
}

Validated-cases :
    (v : Validated)
    → ((es : Entries) × (v ≡ valid es)) ⊎ ((r : VerificationReceipt) × (v ≡ failure r))
Validated-cases (valid es) = inl (es, refl)
Validated-cases (failure r) = inr (r, refl)

passed-blocked : (r : VerificationReceipt) → r.status ≡ pass → r.status ≡ blocked → ⊥
passed-blocked r p b = cc

module _ (h : Hash) (zip : ZipReader) where
  -- The manifest's part of the proof.
  pub record IsBound (digest : String) (expected : Option PackageReceipt) (entries : Entries)
      (archive : List ℕ) (r : VerificationReceipt) (manifest : PackageManifest) : Type 0 where
    pub payload : IsPayload h (zip.open_entry archive) entries manifest
    pub bindings : bindings_failure h zip manifest expected ≡ none
    pub receipt : r ≡ pass_receipt h zip digest manifest

  contents_pass :
      (digest : String) (expected : Option PackageReceipt) (entries : Entries) (archive : List ℕ)
      (manifest : PackageManifest) (r : VerificationReceipt)
      → check_contents h zip digest expected entries archive manifest ≡ value r
      → r.status ≡ pass
      → IsBound digest expected entries archive r manifest
  unfolding check_contents
  contents_pass digest expected entries archive manifest r e p =
      elim (Outcome-cases (verify_payload h (zip.open_entry archive) entries manifest)) [
        | inr (inl x) ↦ absurd (ground arith)
        | inr (inr x) ↦ absurd (ground arith)
        | inl (some f, x) ↦ absurd (
            ground (
              arith,
              x,
              subst BlocksWith x
                  (verify_payload-Blocks h (zip.open_entry archive) entries manifest),
            ))
        | inl (none, x) ↦ elim (Option-cases (bindings_failure h zip manifest expected)) [
          | inr (f, y) ↦ absurd (
              ground
                (arith, x, y, subst Blocks y (bindings_failure-Blocks h zip manifest expected)))
          | inl y ↦ record {
            payload = (verify_payload_iff h (zip.open_entry archive) entries manifest).0 x;
            bindings = y;
            receipt = ground (arith, x, y);
          }
        ]
      ]

  manifest_pass :
      (digest : String) (expected : Option PackageReceipt) (entries : Entries) (archive : List ℕ)
      (r : VerificationReceipt)
      → check_manifest h zip digest expected entries archive ≡ value r
      → r.status ≡ pass
      → (info : ZipInfo) × (manifest : PackageManifest) × (entry manifest_path entries ≡ some info)
        × IsRead h zip archive info manifest
        × IsBound digest expected entries archive r manifest
  unfolding check_manifest
  manifest_pass digest expected entries archive r e p =
      elim (Option-cases (entry manifest_path entries)) [
        | inl x ↦ absurd (ground arith)
        | inr (info, x) ↦ elim (Outcome-cases (read_manifest h zip archive info)) [
          | inr (inl y) ↦ absurd (ground arith)
          | inr (inr y) ↦ absurd (ground arith)
          | inl (none, y) ↦ absurd (ground arith)
          | inl (some m, y) ↦ (
            info,
            m,
            x,
            read_manifest-some h zip archive info m y,
            contents_pass digest expected entries archive m r (ground arith) p,
          )
        ]
      ]

  -- The whole of what a passing receipt stands for.
  pub record IsVerified (file : ArchiveFile) (sha : Option String)
      (expected : Option PackageReceipt) (policy : PackageArchiveVerificationPolicy)
      (r : VerificationReceipt) : Type 0 where
    pub snapshot : List ℕ
    pub offset : ℕ
    pub infos : List ZipInfo
    pub manifest : PackageManifest
    pub read : read_snapshot file policy ≡ bytes snapshot
    pub whole : IsWhole file policy snapshot
    pub bounded : length snapshot ≤ policy.max_archive_bytes
    pub located : preflight_central_directory snapshot policy ≡ some offset
    pub sha_matches :
        (expected_sha : String) → sha ≡ some expected_sha → h.sha256 snapshot ≡ expected_sha
    pub listed : zip.infolist (without_comment snapshot offset) ≡ value infos
    pub admitted : IsAdmitted infos policy snapshot
    pub info : ZipInfo
    pub entry_found : entry manifest_path (named infos) ≡ some info
    pub from_entry : IsRead h zip (without_comment snapshot offset) info manifest
    pub payload :
        IsPayload h (zip.open_entry (without_comment snapshot offset)) (named infos) manifest
    pub content : candidate_content_sha256 h manifest.files ≡ manifest.candidate.content_sha256
    pub matches : Matches h zip manifest expected
    pub receipt : r ≡ pass_receipt h zip (h.sha256 snapshot) manifest

  archive_pass :
      (policy : PackageArchiveVerificationPolicy) (digest : String)
      (expected : Option PackageReceipt) (snapshot archive : List ℕ) (r : VerificationReceipt)
      → check_archive h zip policy digest expected snapshot archive ≡ value r
      → r.status ≡ pass
      → (infos : List ZipInfo) × (zip.infolist archive ≡ value infos)
        × IsAdmitted infos policy snapshot
        × (check_manifest h zip digest expected (named infos) archive ≡ value r)
  unfolding check_archive
  archive_pass policy digest expected snapshot archive r e p =
      elim (Outcome-cases (zip.infolist archive)) [
        | inr (inl x) ↦ absurd (ground arith)
        | inr (inr x) ↦ absurd (ground arith)
        | inl (infos, x) ↦ elim (Validated-cases (validate_entries infos policy snapshot)) [
          | inr (f, y) ↦ absurd (
              ground (
                arith,
                x,
                y,
                subst BlocksEntries y (validate_entries-Blocks infos policy snapshot),
              ))
          | inl (entries, y) ↦
              let (admitted, same) = (validate_entries_iff infos policy snapshot entries).0 y in
              (
                infos,
                x,
                admitted,
                subst (λ t. check_manifest h zip digest expected t archive ≡ value r) same
                    (ground (arith, x, y)),
              )
        ]
      ]

  caught-pass :
      (o : Outcome VerificationReceipt)
      → (caught h zip o).status ≡ pass
      → o ≡ value (caught h zip o)
  caught-pass (value r) p = refl
  caught-pass runtime_error p = cc
  caught-pass zip_error p = cc
  caught-pass decode_error p = cc

  snapshot_tests :
      (policy : PackageArchiveVerificationPolicy) (sha : Option String)
      (expected : Option PackageReceipt) (snapshot : List ℕ)
      → (verify_snapshot h zip policy sha expected snapshot).status ≡ pass
      → (offset : ℕ) × (length snapshot ≤ policy.max_archive_bytes)
        × (preflight_central_directory snapshot policy ≡ some offset)
        × (digest_matches h zip sha (h.sha256 snapshot) ≡ true)
        × (verify_snapshot h zip policy sha expected snapshot
            ≡ caught h zip (
                check_archive h zip policy
                  (h.sha256 snapshot)
                  expected
                  snapshot
                  (without_comment snapshot offset)))
  unfolding verify_snapshot
  snapshot_tests policy sha expected snapshot p =
      elim (Option-cases (preflight_central_directory snapshot policy)) [
        | inl x ↦ absurd (ground arith)
        | inr (offset, x) ↦ (offset, ground arith, x, ground arith, ground arith)
      ]

  digest_matches_lem :
      (sha : Option String) (digest : String)
      → digest_matches h zip sha digest ≡ true
      → (expected : String) → sha ≡ some expected
      → digest ≡ expected
  unfolding digest_matches
  digest_matches_lem none digest e expected s = cc
  digest_matches_lem (some x) digest e expected s =
      let t : x ≡ expected = ground arith in (string_eq.eqb_iff digest x).0 e ∙ t

  snapshot_pass :
      (file : ArchiveFile) (sha : Option String) (expected : Option PackageReceipt)
      (policy : PackageArchiveVerificationPolicy) (snapshot : List ℕ)
      → read_snapshot file policy ≡ bytes snapshot
      → (verify_snapshot h zip policy sha expected snapshot).status ≡ pass
      → IsVerified file sha expected policy (verify_snapshot h zip policy sha expected snapshot)
  snapshot_pass file sha expected policy snapshot read p =
      let (offset, bounded, located, shas, caught_e) =
        snapshot_tests policy sha expected snapshot p in
      let r = verify_snapshot h zip policy sha expected snapshot in
      let archive = without_comment snapshot offset in
      let outcome = check_archive h zip policy (h.sha256 snapshot) expected snapshot archive in
      let e : outcome ≡ value r =
        caught-pass outcome (subst (λ t. t.status ≡ pass) caught_e p) ∙ ap value (sym caught_e) in
      let (infos, listed, admitted, manifest_e) =
        archive_pass policy (h.sha256 snapshot) expected snapshot archive r e p in
      let (info, manifest, entry_found, from_entry, bound) =
        manifest_pass (h.sha256 snapshot) expected (named infos) archive r manifest_e p in
      let (content, matches) = bindings-none h zip manifest expected bound.bindings in
      record {
        snapshot = snapshot;
        offset = offset;
        infos = infos;
        manifest = manifest;
        read = read;
        whole = read_snapshot-IsWhole file policy snapshot read bounded;
        bounded = bounded;
        located = located;
        sha_matches = digest_matches_lem sha (h.sha256 snapshot) shas;
        listed = listed;
        admitted = admitted;
        info = info;
        entry_found = entry_found;
        from_entry = from_entry;
        payload = bound.payload;
        content = content;
        matches = matches;
        receipt = bound.receipt;
      }

  read_snapshot-stopped :
      (file : ArchiveFile) (policy : PackageArchiveVerificationPolicy) (r : VerificationReceipt)
      → read_snapshot file policy ≡ stopped r
      → r.status ≡ blocked
  unfolding read_snapshot read_opened
  read_snapshot-stopped file policy r e = ground arith

  -- A receipt passes only for a snapshot that is the whole of a regular file within the bounds, of
  -- the expected digest, whose central directory was found and whose entries are all admitted. Its manifest is parsed from the whole
  -- content of the archive's own manifest entry, which is as long as the entry declares; it is well
  -- formed, names the candidate by the digest of its files, and agrees with the payload file by
  -- file; and the expected receipt, if one is given, binds it. The receipt names exactly that
  -- manifest.
  pub verify_package_archive-IsVerified :
      (file : ArchiveFile) (sha : Option String) (expected : Option PackageReceipt)
      (policy : PackageArchiveVerificationPolicy)
      → (verify_package_archive h zip file sha expected policy).status ≡ pass
      → IsVerified file sha expected policy (verify_package_archive h zip file sha expected policy)
  unfolding verify_package_archive verify_read
  verify_package_archive-IsVerified file sha expected policy = go (read_snapshot file policy) refl
    where
      go :
          (s : Snapshot)
          → read_snapshot file policy ≡ s
          → (verify_read h zip sha expected policy s).status ≡ pass
          → IsVerified file sha expected policy (verify_read h zip sha expected policy s)
      go (bytes snapshot) e p = snapshot_pass file sha expected policy snapshot e p
      go (stopped r) e p = absurd (passed-blocked r p (read_snapshot-stopped file policy r e))
