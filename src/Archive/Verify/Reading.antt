-- ===== src/Archive/Verify/Reading.antt =====
-- What `_read_snapshot` and `_read_manifest` of
-- src/skills_sdk/packaging/archive_verification.py have read when they succeed.
use skills_sdk.Archive.Bytes.{read_bounded_bytes_lem}
use skills_sdk.Prelude.{
  Bool, ◌<◌, zero, [], nat_eq_iff, nat_eq, suc, ◌∷◌, Bool-cases, ◌+◌, take, ◌⊎◌, ℕ, ◌≤◌, ◌≡◌, refl,
  sym, ap, ◌∙◌, inl, inr, true, Option, none, some, List, length, string_eq, option_eq, arith,
}
use skills_sdk.Json.{Hash}
use skills_sdk.Packaging.{PackageManifest, candidate_eq, manifest_eq}
use skills_sdk.Packaging.Validation.{manifest_ok}
use skills_sdk.Archive.Directory.{PackageArchiveVerificationPolicy}
use skills_sdk.Archive.Receipts.{
  decode_error, ZipInfo, ZipReader, Outcome, value, runtime_error, zip_error,
}
use skills_sdk.Archive.Verify.{
  opened, open_error, is_directory, not_found, ArchiveFile, bytes, read_opened, read_snapshot,
  read_data, read_manifest, validated_manifest,
}

pub Outcome-cases :
    {A : Type 0} (o : Outcome A)
    → ((a : A) × (o ≡ value a)) ⊎ ((o ≡ runtime_error) ⊎ ((o ≡ zip_error) ⊎ (o ≡ decode_error)))
Outcome-cases (value a) = inl (a, refl)
Outcome-cases runtime_error = inr (inl refl)
Outcome-cases zip_error = inr (inr (inl refl))
Outcome-cases decode_error = inr (inr (inr refl))

take_all : (n : ℕ) (xs : List ℕ) → length (take n xs) < n → take n xs ≡ xs
take_all zero xs e = absurd (omega arith)
take_all (suc n) [] e = refl
take_all (suc n) (x ∷ xs) e = ap (λ t. x ∷ t) (take_all n xs (omega arith))

-- A snapshot is the whole content of a regular file within the bounds.
pub record IsWhole (file : ArchiveFile) (policy : PackageArchiveVerificationPolicy)
    (snapshot : List ℕ) : Type 0 where
  pub st_size : ℕ
  pub regular : file ≡ opened true st_size (some snapshot)
  pub within : st_size ≤ policy.max_archive_bytes

read_opened-some :
    (policy : PackageArchiveVerificationPolicy) (regular : Bool) (st_size : ℕ)
    (stream : Option (List ℕ)) (snapshot : List ℕ)
    → read_opened policy regular st_size stream ≡ bytes snapshot
    → length snapshot ≤ policy.max_archive_bytes
    → (regular ≡ true) × (stream ≡ some snapshot) × (st_size ≤ policy.max_archive_bytes)
unfolding read_opened
read_opened-some policy regular st_size none snapshot e bounded = absurd (ground arith)
read_opened-some policy regular st_size (some stream) snapshot e bounded =
    let limit = policy.max_archive_bytes in
    let read = read_bounded_bytes_lem stream limit in
    let kept : take (limit + 1) stream ≡ snapshot = ground (arith, read) in
    let same = take_all (limit + 1) stream (omega (arith, ap length kept)) in
    (ground arith, ap some (sym same ∙ kept), ground arith)

pub read_snapshot-IsWhole :
    (file : ArchiveFile) (policy : PackageArchiveVerificationPolicy) (snapshot : List ℕ)
    → read_snapshot file policy ≡ bytes snapshot
    → length snapshot ≤ policy.max_archive_bytes
    → IsWhole file policy snapshot
unfolding read_snapshot
read_snapshot-IsWhole not_found policy snapshot e bounded = cc
read_snapshot-IsWhole is_directory policy snapshot e bounded = cc
read_snapshot-IsWhole open_error policy snapshot e bounded = cc
read_snapshot-IsWhole (opened regular st_size stream) policy snapshot e bounded =
    let (r, s, w) = read_opened-some policy regular st_size stream snapshot e bounded in
    record { st_size = st_size; regular = cc (r, s); within = w }

module _ (h : Hash) (zip : ZipReader) where
  -- The manifest is parsed from the whole content of its entry.
  pub record IsRead (archive : List ℕ) (info : ZipInfo) (manifest : PackageManifest) : Type 0 where
    pub stream : List ℕ
    pub opened : zip.open_entry archive info ≡ value stream
    pub complete : length stream ≡ info.file_size
    pub parsed : zip.parse_manifest stream ≡ some manifest
    pub well_formed : manifest_ok manifest ≡ true

  validated_manifest-some :
      (parsed : Option PackageManifest) (m : PackageManifest)
      → validated_manifest h zip parsed ≡ some m
      → (parsed ≡ some m) × (manifest_ok m ≡ true)
  unfolding validated_manifest
  validated_manifest-some parsed m e = ground arith

  read_data-some :
      (info : ZipInfo) (stream : List ℕ) (m : PackageManifest)
      → read_data h zip info stream ≡ some m
      → (length stream ≡ info.file_size)
        × (zip.parse_manifest stream ≡ some m)
        × (manifest_ok m ≡ true)
  unfolding read_data
  read_data-some info stream m e =
      let kept = take (info.file_size + 1) stream in
      let read = read_bounded_bytes_lem stream info.file_size in
      elim (Bool-cases (nat_eq (length kept) info.file_size)) [
        | inl same ↦
            let whole =
              take_all (info.file_size + 1) stream
                (omega (arith, (nat_eq_iff (length kept) info.file_size).0 same)) in
            let (parsed, fine) =
              validated_manifest-some (zip.parse_manifest kept) m (ground (arith, read, same)) in
            (
              ap length (sym whole) ∙ (nat_eq_iff _ _).0 same,
              ap zip.parse_manifest (sym whole) ∙ parsed,
              fine,
            )
        | inr other ↦ absurd (ground (arith, read, other))
      ]

  pub read_manifest-some :
      (archive : List ℕ) (info : ZipInfo) (m : PackageManifest)
      → read_manifest h zip archive info ≡ value (some m)
      → IsRead archive info m
  unfolding read_manifest
  read_manifest-some archive info m e = elim (Outcome-cases (zip.open_entry archive info)) [
    | inr (inl x) ↦ absurd (ground arith)
    | inr (inr x) ↦ absurd (ground arith)
    | inl (stream, x) ↦
        let (complete, parsed, fine) = read_data-some info stream m (ground arith) in
        record {
          stream = stream;
          opened = x;
          complete = complete;
          parsed = parsed;
          well_formed = fine;
        }
  ]
