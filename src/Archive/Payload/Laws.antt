-- ===== src/Archive/Payload/Laws.antt =====
-- What a payload without a failure receipt has shown.
use mathlib.Core.Bool.{false≢true}
use skills_sdk.Prelude.{
  ℕ, ◌≡◌, ◌≢◌, ◌↔◌, refl, sym, ap, subst, ◌∙◌, inl, inr, true, not, Option, none, some, List, [],
  ◌∷◌, String, contains, contains_iff, In, All, All-In, All_of_In, In-filter, In-to_set, In-sorted,
  filter, length, ◌==◌, string_eq, ℕ_eq, arith, Bool-cases, Option-cases,
}
use skills_sdk.Json.{Hash}
use skills_sdk.Packaging.{PackageManifest, PackageManifestFile, file_paths}
use skills_sdk.Archive.Receipts.{
  decode_error, VerificationReceipt, ZipInfo, Outcome, value, runtime_error, zip_error, ◌>>=◌,
}
use skills_sdk.Archive.Entries.{Entries, entry_names, entry, manifest_path}
use skills_sdk.Archive.Payload.{
  difference, record_of, payload_failure, verify_file, verify_path, verify_paths, verify_sets,
  verify_payload,
}

entry_of_In :
    (path : String) (entries : Entries)
    → In path (entry_names entries)
    → (info : ZipInfo) × (entry path entries ≡ some info)
unfolding entry
entry_of_In path [] m = absurd m
entry_of_In path ((p, info) ∷ rest) m = elim (Bool-cases (p == path)) [
  | inl same ↦ (info, rw same)
  | inr other ↦
      let rest_m : In path (entry_names rest) = elim m [
        | inl e ↦ absurd (false≢true (sym other ∙ (string_eq.eqb_iff p path).1 (sym e)))
        | inr n ↦ n
      ] in
      let (found, e) = entry_of_In path rest rest_m in (found, rw other e)
]

record_of-In :
    (path : String) (files : List PackageManifestFile)
    → In path (file_paths files)
    → (f : PackageManifestFile) × (record_of path files ≡ some f)
unfolding record_of
record_of-In path [] m = absurd m
record_of-In path (f ∷ fs) m = elim (Option-cases (record_of path fs)) [
  | inr (r, later) ↦ (r, rw (later, record_of))
  | inl last ↦ elim (Bool-cases (f.path == path)) [
    | inl same ↦ (f, rw (last, same, record_of))
    | inr other ↦ elim m [
      | inl e ↦ absurd (false≢true (sym other ∙ (string_eq.eqb_iff f.path path).1 (sym e)))
      | inr n ↦ let (r, e) = record_of-In path fs n in absurd (ground (arith, e, last))
    ]
  ]
]

-- No value is left over.
difference-nil : (xs ys : List String) → difference xs ys ≡ [] → (z : String) → In z xs → In z ys
unfolding difference
difference-nil xs ys h z m = elim (Bool-cases (contains z ys)) [
  | inl found ↦ (contains_iff z ys).0 found
  | inr lost ↦
      let left = (In-sorted z _).1 ((In-to_set z _).1 ((In-filter _ z xs).1 (m, ap not lost))) in
      absurd (subst (In z) h left)
]

nil_of_empty : (xs : List String) → ((z : String) → ¬ In z xs) → xs ≡ []
nil_of_empty [] h = refl
nil_of_empty (x ∷ xs) h = absurd (h x (inl refl))

difference_of_subset :
    (xs ys : List String) → ((z : String) → In z xs → In z ys) → difference xs ys ≡ []
unfolding difference
difference_of_subset xs ys h = nil_of_empty _ λ z m.
    let (inside, out) = (In-filter _ z xs).0 ((In-to_set z _).0 ((In-sorted z _).0 m)) in
    absurd (false≢true (sym (ap not ((contains_iff z ys).1 (h z inside))) ∙ out))

module _ (h : Hash) (open_entry : ZipInfo → Outcome (List ℕ)) where
  sets_lem :
      (missing undeclared : List String) (rest : Outcome (Option VerificationReceipt))
      → verify_sets h open_entry missing undeclared rest ≡ value none
      → (missing ≡ []) × (undeclared ≡ []) × (rest ≡ value none)
  unfolding verify_sets
  sets_lem [] [] rest e = (refl, refl, e)
  sets_lem (m ∷ ms) undeclared rest e = cc
  sets_lem [] (u ∷ us) rest e = cc

  -- The entry of a path and the manifest's record of it agree, and so does the entry's data.
  pub record IsDelivered (entries : Entries) (files : List PackageManifestFile) (path : String)
      : Type 0 where
    pub info : ZipInfo
    pub file : PackageManifestFile
    pub stream : List ℕ
    pub entry_found : entry path entries ≡ some info
    pub file_found : record_of path files ≡ some file
    pub opened : open_entry info ≡ value stream
    pub sizes : (info.file_size ≡ file.size_bytes) × (length stream ≡ file.size_bytes)
    pub digest : h.sha256 stream ≡ file.sha256

  verify_file-none :
      (path : String) (info : ZipInfo) (file : PackageManifestFile)
      → verify_file h open_entry path info file ≡ value none
      → (stream : List ℕ) × (open_entry info ≡ value stream)
        × (info.file_size ≡ file.size_bytes)
        × (length stream ≡ file.size_bytes)
        × (h.sha256 stream ≡ file.sha256)
  unfolding verify_file payload_failure
  verify_file-none path info file e = go (open_entry info) refl
    where
      go :
          (o : Outcome (List ℕ))
          → open_entry info ≡ o
          → (stream : List ℕ) × (open_entry info ≡ value stream)
            × (info.file_size ≡ file.size_bytes)
            × (length stream ≡ file.size_bytes)
            × (h.sha256 stream ≡ file.sha256)
      go (value stream) o = (
        stream,
        o,
        ground arith,
        ground arith,
        (string_eq.eqb_iff (h.sha256 stream) file.sha256).0 (ground arith),
      )
      go runtime_error o = absurd (ground arith)
      go zip_error o = absurd (ground arith)
      go decode_error o = absurd (ground arith)

  verify_file_of :
      (path : String) (info : ZipInfo) (file : PackageManifestFile) (stream : List ℕ)
      → open_entry info ≡ value stream
      → info.file_size ≡ file.size_bytes
      → length stream ≡ file.size_bytes
      → h.sha256 stream ≡ file.sha256
      → verify_file h open_entry path info file ≡ value none
  unfolding verify_file payload_failure
  verify_file_of path info file stream o a b c =
      ground (arith, string_eq.eqb_iff (h.sha256 stream) file.sha256)

  verify_path_iff :
      (entries : Entries) (files : List PackageManifestFile) (path : String)
      → In path (entry_names entries)
      → In path (file_paths files)
      → (verify_path h open_entry entries files path ≡ value none) ↔ IsDelivered entries files path
  unfolding verify_path
  verify_path_iff entries files path m n =
      let (info, found) = entry_of_In path entries m in
      let (file, known) = record_of-In path files n in
      (
        λ e.
            let (stream, opened, size, len, sha) =
              verify_file-none path info file (rw (found, known, verify_path) at e) in
            record {
              info = info;
              file = file;
              stream = stream;
              entry_found = found;
              file_found = known;
              opened = opened;
              sizes = (size, len);
              digest = sha;
            },
        λ d.
            rw (d.entry_found, d.file_found, verify_path)
              (verify_file_of path d.info d.file d.stream d.opened d.sizes.0 d.sizes.1 d.digest),
      )

  first_failure :
      (o rest : Outcome (Option VerificationReceipt))
      → (o >>= λ result. elim result [ some receipt ↦ value (some receipt) | none ↦ rest ])
        ≡ value none
      → (o ≡ value none) × (rest ≡ value none)
  first_failure (value none) rest e = (refl, e)
  first_failure (value (some r)) rest e = cc
  first_failure runtime_error rest e = cc
  first_failure zip_error rest e = cc
  first_failure decode_error rest e = cc

  verify_paths_iff :
      (entries : Entries) (files : List PackageManifestFile) (paths : List String)
      → (verify_paths h open_entry entries files paths ≡ value none)
        ↔ All (λ p. verify_path h open_entry entries files p ≡ value none) paths
  unfolding verify_paths
  verify_paths_iff entries files [] = (λ e. tt, λ e. refl)
  verify_paths_iff entries files (p ∷ ps) = (
    λ e.
        let (here, later) = first_failure _ _ e in
        (here, (verify_paths_iff entries files ps).0 later),
    λ a. rw (a.0, verify_paths) ((verify_paths_iff entries files ps).1 a.1),
  )

  -- The archive's payload and the manifest's files are the same, name by name and byte by byte.
  pub record IsPayload (entries : Entries) (manifest : PackageManifest) : Type 0 where
    pub declared :
        (p : String)
        → In p (file_paths manifest.files) ↔ (In p (entry_names entries) × (p ≢ manifest_path))
    pub delivered :
        (p : String) → In p (file_paths manifest.files) → IsDelivered entries manifest.files p

  payload_names :
      (entries : Entries) (p : String)
      → In p (filter (λ q. not (q == manifest_path)) (entry_names entries))
        ↔ (In p (entry_names entries) × (p ≢ manifest_path))
  payload_names entries p = (
    λ m.
        let (inside, other) = (In-filter _ p (entry_names entries)).0 m in
        (inside, λ e. false≢true (sym (ap not ((string_eq.eqb_iff p manifest_path).1 e)) ∙ other)),
    λ m. (In-filter _ p (entry_names entries)).1 (m.0, not_eq p m.1),
  )
    where
      not_eq : (p : String) → p ≢ manifest_path → not (p == manifest_path) ≡ true
      not_eq p n = elim (Bool-cases (p == manifest_path)) [
        | inl e ↦ absurd (n ((string_eq.eqb_iff p manifest_path).0 e))
        | inr e ↦ ap not e
      ]

  IsPayload-sound :
      (entries : Entries) (manifest : PackageManifest)
      → verify_payload h open_entry entries manifest ≡ value none
      → IsPayload entries manifest
  unfolding verify_payload
  IsPayload-sound entries manifest e =
      let (missing, undeclared, rest) = sets_lem _ _ _ e in
      let present : (p : String)
          → In p (file_paths manifest.files)
          → In p (entry_names entries) × (p ≢ manifest_path) =
        λ p m. (payload_names entries p).0 (difference-nil _ _ missing p m) in
      let checked = (verify_paths_iff entries manifest.files _).0 rest in
      record {
        declared =
            λ p. (present p, λ m. difference-nil _ _ undeclared p ((payload_names entries p).1 m));
        delivered = λ p m.
            (verify_path_iff entries manifest.files p (present p m).0 m).0
              (All-In _ p _ checked ((In-sorted p _).1 ((In-to_set p _).1 m)));
      }

  IsPayload-complete :
      (entries : Entries) (manifest : PackageManifest)
      → IsPayload entries manifest
      → verify_payload h open_entry entries manifest ≡ value none
  unfolding verify_payload verify_sets
  IsPayload-complete entries manifest d =
      let missing =
        difference_of_subset (file_paths manifest.files) _
          (λ z m. (payload_names entries z).1 ((d.declared z).0 m)) in
      let undeclared =
        difference_of_subset _ (file_paths manifest.files)
          (λ z m. (d.declared z).1 ((payload_names entries z).0 m)) in
      rw (missing, undeclared)
        ((verify_paths_iff entries manifest.files _).1 (
          All_of_In _ _ λ p m.
            let inside = (In-to_set p _).0 ((In-sorted p _).0 m) in
            (verify_path_iff entries manifest.files p ((d.declared p).0 inside).0 inside).1
              (d.delivered p inside)))

  -- No failure is reported exactly when the payload and the manifest name the same files and every
  -- file has the size and the digest that the manifest gives for it.
  pub verify_payload_iff :
      (entries : Entries) (manifest : PackageManifest)
      → (verify_payload h open_entry entries manifest ≡ value none) ↔ IsPayload entries manifest
  verify_payload_iff entries manifest =
      (IsPayload-sound entries manifest, IsPayload-complete entries manifest)
