-- ===== src/Archive/Blocks.antt =====
-- Every receipt that a step hands on in place of its result is a blocked one.
use skills_sdk.Prelude.{
  ℕ, ◌≡◌, filter, not, ◌==◌, string_eq, sorted, to_set, refl, inl, inr, Option, none, some, List,
  [], ◌∷◌, ◌++◌, String, arith, Option-cases,
}
use skills_sdk.Json.{Hash}
use skills_sdk.Packaging.{file_paths, PackageManifest, PackageManifestFile, PackageReceipt}
use skills_sdk.Archive.Directory.{PackageArchiveVerificationPolicy}
use skills_sdk.Archive.Receipts.{
  decode_error, VerificationReceipt, blocked, ZipInfo, ZipReader, Outcome, value, runtime_error,
  zip_error, ◌>>=◌,
}
use skills_sdk.Archive.Entries.{
  entry_names, manifest_path, Entries, entry, entry_path, entry_failure, Validated, valid, failure,
  validate_loop, validate_entries,
}
use skills_sdk.Archive.Payload.{
  record_of, difference, payload_failure, verify_file, verify_path, verify_paths, verify_sets,
  verify_payload,
}
use skills_sdk.Archive.Verify.{receipt_failure, bindings_failure}

abbrev pub Blocks : Option VerificationReceipt → Type 0
Blocks none = Unit
Blocks (some r) = r.status ≡ blocked

abbrev pub BlocksWith : Outcome (Option VerificationReceipt) → Type 0
BlocksWith (value o) = Blocks o
BlocksWith runtime_error = Unit
BlocksWith zip_error = Unit
BlocksWith decode_error = Unit

abbrev pub BlocksEntries : Validated → Type 0
BlocksEntries (valid entries) = Unit
BlocksEntries (failure r) = r.status ≡ blocked

entry_failure-Blocks :
    (snapshot : List ℕ) (entries : Entries) (path : String) (info : ZipInfo)
    → Blocks (entry_failure snapshot entries path info)
unfolding entry_failure
entry_failure-Blocks snapshot entries path info = ground arith

loop-Blocks :
    (snapshot : List ℕ) (entries : Entries) (infos : List ZipInfo)
    → BlocksEntries (validate_loop snapshot entries infos)
unfolding validate_loop
loop-Blocks snapshot entries [] = tt
loop-Blocks snapshot entries (info ∷ infos) = elim (Option-cases (entry_path info)) [
  | inl bad ↦ rw (bad, validate_loop) refl
  | inr (path, good) ↦ ground (
    arith,
    good,
    entry_failure-Blocks snapshot entries path info,
    loop-Blocks snapshot (entries ++ (path, info) ∷ []) infos,
  )
]

pub validate_entries-Blocks :
    (infos : List ZipInfo) (policy : PackageArchiveVerificationPolicy) (snapshot : List ℕ)
    → BlocksEntries (validate_entries infos policy snapshot)
unfolding validate_entries
validate_entries-Blocks infos policy snapshot = ground (arith, loop-Blocks snapshot [] infos)

module _ (h : Hash) (open_entry : ZipInfo → Outcome (List ℕ)) where
  verify_file-Blocks :
      (path : String) (info : ZipInfo) (file : PackageManifestFile)
      → BlocksWith (verify_file h open_entry path info file)
  unfolding verify_file payload_failure
  verify_file-Blocks path info file = ground arith

  verify_path-Blocks :
      (entries : Entries) (files : List PackageManifestFile) (path : String)
      → BlocksWith (verify_path h open_entry entries files path)
  unfolding verify_path
  verify_path-Blocks entries files path = go (entry path entries) (record_of path files)
    where
      go :
          (i : Option ZipInfo) (f : Option PackageManifestFile)
          → BlocksWith (elim i [
            | none ↦ value none
            | some info ↦ elim f [
              | none ↦ value none
              | some file ↦ verify_file h open_entry path info file
            ]
          ])
      go none f = tt
      go (some info) none = tt
      go (some info) (some file) = verify_file-Blocks path info file

  bind-Blocks :
      (o rest : Outcome (Option VerificationReceipt))
      → BlocksWith o
      → BlocksWith rest
      → BlocksWith
          (o >>= λ result. elim result [ some receipt ↦ value (some receipt) | none ↦ rest ])
  bind-Blocks (value none) rest a b = b
  bind-Blocks (value (some r)) rest a b = a
  bind-Blocks runtime_error rest a b = tt
  bind-Blocks zip_error rest a b = tt
  bind-Blocks decode_error rest a b = tt

  verify_paths-Blocks :
      (entries : Entries) (files : List PackageManifestFile) (paths : List String)
      → BlocksWith (verify_paths h open_entry entries files paths)
  unfolding verify_paths
  verify_paths-Blocks entries files [] = tt
  verify_paths-Blocks entries files (p ∷ ps) =
      bind-Blocks _ _ (verify_path-Blocks entries files p) (verify_paths-Blocks entries files ps)

  sets-Blocks :
      (missing undeclared : List String) (rest : Outcome (Option VerificationReceipt))
      → BlocksWith rest
      → BlocksWith (verify_sets h open_entry missing undeclared rest)
  unfolding verify_sets
  sets-Blocks (m ∷ ms) undeclared rest b = refl
  sets-Blocks [] (u ∷ us) rest b = refl
  sets-Blocks [] [] rest b = b

  pub verify_payload-Blocks :
      (entries : Entries) (manifest : PackageManifest)
      → BlocksWith (verify_payload h open_entry entries manifest)
  unfolding verify_payload
  verify_payload-Blocks entries manifest =
      let payload = filter (λ p. not (p == manifest_path)) (entry_names entries) in
      let declared = file_paths manifest.files in
      let paths = sorted (to_set declared) in
      sets-Blocks (difference declared payload) (difference payload declared)
        (verify_paths h open_entry entries manifest.files paths)
        (verify_paths-Blocks entries manifest.files paths)

module _ (h : Hash) (zip : ZipReader) where
  receipt_failure-Blocks :
      (m : PackageManifest) (r : PackageReceipt) → Blocks (receipt_failure h zip m r)
  unfolding receipt_failure
  receipt_failure-Blocks m r = ground arith

  pub bindings_failure-Blocks :
      (m : PackageManifest) (expected : Option PackageReceipt)
      → Blocks (bindings_failure h zip m expected)
  unfolding bindings_failure
  bindings_failure-Blocks m none = ground arith
  bindings_failure-Blocks m (some r) = ground (arith, receipt_failure-Blocks m r)
