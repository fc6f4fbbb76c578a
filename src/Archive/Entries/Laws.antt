-- ===== src/Archive/Entries/Laws.antt =====
-- The entries that `_validate_entries` admits.
use mathlib.Core.List.{append_assoc, append-nil}
use skills_sdk.Prelude.{
  In-append_right, ℕ, ◌%◌, ◌≤◌, ◌≡◌, ◌⊎◌, ◌↔◌, refl, sym, ap, subst, ◌∙◌, inl, inr, true, false,
  none, some, List, [], ◌∷◌, ◌++◌, String, codes, contains, contains_iff, contains-false, In, All,
  IsUnique, IsUnique-snoc, ends_with, length, ◌==◌, string_eq, ℕ_eq, arith, Option-cases,
}
use skills_sdk.Paths.{is_portable}
use skills_sdk.Paths.Laws.{IsPortable, is_portable_iff}
use skills_sdk.Archive.Directory.{PackageArchiveVerificationPolicy}
use skills_sdk.Archive.Receipts.{ZipInfo}
use skills_sdk.Archive.Entries.{
  entry_path, is_symlink, local_compression_matches, Entries, entry_names, entry_failure,
  total_size, valid, validate_loop, validate_entries, zip_stored, zip_deflated,
}

-- An entry that the verification can use.
pub record IsUsable (snapshot : List ℕ) (info : ZipInfo) : Type 0 where
  pub portable : IsPortable (codes info.filename)
  pub is_file : ends_with b'/' (codes info.filename) ≡ false
  pub plain_name : (info.orig_filename ≡ info.filename) × (¬ In 0 (codes info.orig_filename))
  pub unencrypted : info.flag_bits % 2 ≡ 0
  pub compression : (info.compress_type ≡ zip_stored) ⊎ (info.compress_type ≡ zip_deflated)
  pub local_header : local_compression_matches snapshot info ≡ true
  pub no_symlink : is_symlink info ≡ false

abbrev pub named : List ZipInfo → Entries
named [] = []
named (info ∷ infos) = (info.filename, info) ∷ named infos

names-append : (xs ys : Entries) → entry_names (xs ++ ys) ≡ entry_names xs ++ entry_names ys
names-append [] ys = refl
names-append ((p, i) ∷ xs) ys = ap (λ t. p ∷ t) (names-append xs ys)

entry_path_tests :
    (info : ZipInfo) (path : String)
    → entry_path info ≡ some path
    → (path ≡ info.filename)
      × (is_portable info.filename ≡ true)
      × (ends_with b'/' (codes info.filename) ≡ false)
      × ((info.orig_filename == info.filename) ≡ true)
      × (contains 0 (codes info.orig_filename) ≡ false)
unfolding entry_path
entry_path_tests info path h = ground arith

entry_path-some :
    (info : ZipInfo) (path : String)
    → entry_path info ≡ some path
    → (path ≡ info.filename)
      × IsPortable (codes info.filename)
      × (ends_with b'/' (codes info.filename) ≡ false)
      × (info.orig_filename ≡ info.filename)
      × (¬ In 0 (codes info.orig_filename))
entry_path-some info path h =
    let (same, portable, file, plain, clean) = entry_path_tests info path h in
    (
      same,
      (is_portable_iff info.filename).0 portable,
      file,
      (string_eq.eqb_iff info.orig_filename info.filename).0 plain,
      contains-false 0 (codes info.orig_filename) clean,
    )

entry_path_of :
    (snapshot : List ℕ) (info : ZipInfo)
    → IsUsable snapshot info
    → entry_path info ≡ some info.filename
unfolding entry_path
entry_path_of snapshot info u = ground (
  arith,
  string_eq.eqb_iff info.orig_filename info.filename,
  contains_iff 0 (codes info.orig_filename),
  is_portable_iff info.filename,
  u,
)

entry_failure-none :
    (snapshot : List ℕ) (entries : Entries) (path : String) (info : ZipInfo)
    → entry_failure snapshot entries path info ≡ none
    → (¬ In path (entry_names entries))
      × (info.flag_bits % 2 ≡ 0)
      × ((info.compress_type ≡ zip_stored) ⊎ (info.compress_type ≡ zip_deflated))
      × (local_compression_matches snapshot info ≡ true)
      × (is_symlink info ≡ false)
unfolding entry_failure
entry_failure-none snapshot entries path info h =
    ground (arith, contains_iff path (entry_names entries))

entry_failure_of :
    (snapshot : List ℕ) (entries : Entries) (info : ZipInfo)
    → IsUsable snapshot info
    → ¬ In info.filename (entry_names entries)
    → entry_failure snapshot entries info.filename info ≡ none
unfolding entry_failure
entry_failure_of snapshot entries info u n =
    ground (arith, contains_iff info.filename (entry_names entries), u)

fresh_of : (xs : List String) (x : String) (ys : List String) → IsUnique (xs ++ x ∷ ys) → ¬ In x xs
fresh_of [] x ys u m = m
fresh_of (z ∷ zs) x ys u (inl e) = u.0 (In-append_right z zs (x ∷ ys) (inl (sym e)))
fresh_of (z ∷ zs) x ys u (inr m) = fresh_of zs x ys u.1 m

module _ (snapshot : List ℕ) where
  loop_sound :
      (done : Entries) (infos : List ZipInfo) (entries : Entries)
      → validate_loop snapshot done infos ≡ valid entries
      → IsUnique (entry_names done)
      → (entries ≡ done ++ named infos)
        × All (IsUsable snapshot) infos
        × IsUnique (entry_names entries)
  unfolding validate_loop
  loop_sound done [] entries h u =
      let e : done ≡ entries = ground arith in
      (sym e ∙ sym (append-nil done), tt, subst (λ t. IsUnique (entry_names t)) e u)
  loop_sound done (info ∷ infos) entries h u = elim (Option-cases (entry_path info)) [
    | inl bad ↦ absurd (ground arith)
    | inr (path, good) ↦ elim (Option-cases (entry_failure snapshot done path info)) [
      | inr (receipt, failed) ↦ absurd (ground arith)
      | inl admitted ↦
          let (same, portable, file, plain, clean) = entry_path-some info path good in
          let (fresh, flags, method, header, link) =
            entry_failure-none snapshot done path info admitted in
          let rest =
            loop_sound (done ++ (path, info) ∷ []) infos entries (ground arith)
              (rw names-append (IsUnique-snoc (entry_names done) path u fresh)) in
          (
            rest.0
                ∙ append_assoc done ((path, info) ∷ []) (named infos)
                ∙ ap (λ p. done ++ (p, info) ∷ named infos) same,
            (
              record {
                portable = portable;
                is_file = file;
                plain_name = (plain, clean);
                unencrypted = flags;
                compression = method;
                local_header = header;
                no_symlink = link;
              },
              rest.1,
            ),
            rest.2,
          )
    ]
  ]

  loop_complete :
      (done : Entries) (infos : List ZipInfo)
      → All (IsUsable snapshot) infos
      → IsUnique (entry_names (done ++ named infos))
      → validate_loop snapshot done infos ≡ valid (done ++ named infos)
  unfolding validate_loop
  loop_complete done [] h u = ap valid (sym (append-nil done))
  loop_complete done (info ∷ infos) h u =
      let fresh =
        fresh_of (entry_names done) info.filename (entry_names (named infos))
          (rw names-append at u) in
      let regroup = append_assoc done ((info.filename, info) ∷ []) (named infos) in
      rw
        (
          entry_path_of snapshot info h.0,
          entry_failure_of snapshot done info h.0 fresh,
          validate_loop,
        )
        (loop_complete (done ++ (info.filename, info) ∷ []) infos h.1
            (subst (λ t. IsUnique (entry_names t)) (sym regroup) u)
          ∙ ap valid regroup)

-- All that holds of an archive whose entries are admitted.
pub record IsAdmitted (infos : List ZipInfo) (policy : PackageArchiveVerificationPolicy)
    (snapshot : List ℕ) : Type 0 where
  pub few : length infos ≤ policy.max_entry_count
  pub small : total_size infos ≤ policy.max_total_uncompressed_bytes
  pub usable : All (IsUsable snapshot) infos
  pub distinct : IsUnique (entry_names (named infos))

-- The validation succeeds exactly when the archive keeps to the bounds, every entry is usable and no
-- two entries share a name; its dictionary then holds each entry once under its name, in order.
pub validate_entries_iff :
    (infos : List ZipInfo) (policy : PackageArchiveVerificationPolicy) (snapshot : List ℕ)
    (entries : Entries)
    → (validate_entries infos policy snapshot ≡ valid entries)
      ↔ (IsAdmitted infos policy snapshot × (entries ≡ named infos))
unfolding validate_entries
validate_entries_iff infos policy snapshot entries = (forward, backward)
  where
    forward :
        validate_entries infos policy snapshot ≡ valid entries
        → IsAdmitted infos policy snapshot × (entries ≡ named infos)
    forward h =
        let looped : validate_loop snapshot [] infos ≡ valid entries = ground arith in
        let (same, usable, distinct) = loop_sound snapshot [] infos entries looped tt in
        (
          record {
            few = ground arith;
            small = ground arith;
            usable = usable;
            distinct = subst (λ t. IsUnique (entry_names t)) same distinct;
          },
          same,
        )

    backward :
        IsAdmitted infos policy snapshot × (entries ≡ named infos)
        → validate_entries infos policy snapshot ≡ valid entries
    backward h =
        let looped = loop_complete snapshot [] infos h.0.usable h.0.distinct in
        ground (arith, looped, h.0.few, h.0.small)
