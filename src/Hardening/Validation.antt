-- ===== src/Hardening/Validation.antt =====
-- The hardening of a valid package receipt passes the validator of hardening receipts.
use skills_sdk.Hardening.Laws.{hardening_of_iff}
use mathlib.Core.Bool.{false≢true}
use skills_sdk.Json.{Hash}
use skills_sdk.Packaging.{
  PackageReceipt, PackageManifest, PackageManifestFile, file_paths, list_beq_iff,
}
use skills_sdk.Packaging.Validation.{
  is_empty, is_none, is_subset, paths_ok, manifest_ok, receipt_ok,
}
use skills_sdk.Hardening.Contract.{check_eq, hardening_ok, checked_ids, harden_skill_package}
use skills_sdk.Hardening.{
  total_bytes, PackageHardeningCheck, PackageHardeningReceipt, PackageHardeningPolicy, is_blocker,
  is_warning, is_built, included, hardening_checks_of, hardening_of,
}
use skills_sdk.Prelude.{
  nat_eq_iff, inr, inl, Bool-cases, ap, All-In, ℕ, ◌≤◌, ◌≡◌, true, false, not, Option, none, some,
  List, [], ◌∷◌, String, string_eq, all_distinct, all_distinct_iff, arith, refl, contains,
  contains_iff, In, All, All_of_In, IsUnique, filter, length, length-le_of_All, filter-IsUnique,
  In-filter,
}

filter-file_paths :
    (inc : List String) (files : List PackageManifestFile)
    → file_paths (filter (λ f. contains f.path inc) files)
      ≡ filter (λ p. contains p inc) (file_paths files)
filter-file_paths inc [] = refl
filter-file_paths inc (f ∷ fs) = ground (arith, filter-file_paths inc fs)

length-file_paths : (files : List PackageManifestFile) → length (file_paths files) ≡ length files
length-file_paths [] = refl
length-file_paths (f ∷ fs) = omega (arith, length-file_paths fs)

-- As many of the distinct `xs` stand in the distinct `ys` as there are `ys`, if all of those do.
length-filter_of_All :
    (xs ys : List String)
    → IsUnique xs
    → IsUnique ys
    → All (λ y. In y xs) ys
    → length (filter (λ x. contains x ys) xs) ≡ length ys
length-filter_of_All xs ys u v inside =
    let kept = filter (λ x. contains x ys) xs in
    let below : length kept ≤ length ys =
      length-le_of_All kept ys (filter-IsUnique _ xs u)
        (All_of_In _ kept λ x m. (contains_iff x ys).0 ((In-filter _ x xs).0 m).1) in
    let above : length ys ≤ length kept = length-le_of_All ys kept v (
      All_of_In _ ys
        λ y m. (In-filter _ y xs).1 (All-In _ y ys inside m, (contains_iff y ys).1 m)) in
    omega arith

module _ (lower : List ℕ → List ℕ) (show_nat : ℕ → String) (h : Hash) where
  receipt_facts :
      (r : PackageReceipt)
      → receipt_ok h r ≡ true
      → (paths_ok r.included_files ≡ true)
        × (is_built r.status ≡ true
            → (is_none r.candidate ≡ false) × (is_none r.package_digest ≡ false))
        × (is_built r.status ≡ false → is_none r.package_digest ≡ true)
  unfolding receipt_ok
  receipt_facts r ok = (ground arith, λ b. (ground arith, ground arith), λ b. ground arith)

  manifest_facts :
      (r : PackageReceipt) (m : PackageManifest)
      → receipt_ok h r ≡ true
      → r.manifest ≡ some m
      → (is_subset r.included_files (file_paths m.files) ≡ true) × (manifest_ok m ≡ true)
  unfolding receipt_ok
  manifest_facts r m ok e = (ground arith, ground arith)

  empty_facts :
      (r : PackageReceipt)
      → receipt_ok h r ≡ true
      → r.manifest ≡ none
      → is_empty r.included_files ≡ true
  unfolding receipt_ok
  empty_facts r ok e = ground arith

  paths_ok-IsUnique : (ps : List String) → paths_ok ps ≡ true → IsUnique ps
  unfolding paths_ok
  paths_ok-IsUnique ps ok = (all_distinct_iff ps).0 (ground arith)

  manifest_ok-IsUnique :
      (m : PackageManifest) → manifest_ok m ≡ true → IsUnique (file_paths m.files)
  unfolding manifest_ok
  manifest_ok-IsUnique m ok = (all_distinct_iff (file_paths m.files)).0 (ground arith)

  inside_of_subset : (xs ys : List String) → is_subset xs ys ≡ true → All (λ x. In x ys) xs
  unfolding is_subset
  inside_of_subset [] ys h = tt
  inside_of_subset (x ∷ xs) ys h =
      ((contains_iff x ys).0 (ground arith), inside_of_subset xs ys (ground arith))

  length-included :
      (r : PackageReceipt)
      → receipt_ok h r ≡ true
      → length (included lower show_nat r) ≡ length r.included_files
  unfolding included
  length-included r ok = go r.manifest refl
    where
      empty : (ps : List String) → is_empty ps ≡ true → 0 ≡ length ps
      empty [] e = refl
      empty (p ∷ ps) e = absurd (false≢true e)

      go :
          (found : Option PackageManifest)
          → r.manifest ≡ found
          → length (elim found [
            | none ↦ []
            | some m ↦ filter (λ f. contains f.path r.included_files) m.files
          ])
            ≡ length r.included_files
      go none e = empty r.included_files (empty_facts r ok e)
      go (some m) e =
          let (inside, fine) = manifest_facts r m ok e in
          let distinct = paths_ok-IsUnique r.included_files (receipt_facts r ok).0 in
          omega (
            arith,
            length-file_paths (filter (λ f. contains f.path r.included_files) m.files),
            ap length (filter-file_paths r.included_files m.files),
            length-filter_of_All (file_paths m.files) r.included_files (manifest_ok-IsUnique m fine)
                distinct (inside_of_subset r.included_files (file_paths m.files) inside),
          )

  distinct_ids :
      (r : PackageReceipt) (policy : PackageHardeningPolicy)
      → all_distinct (checked_ids (hardening_checks_of lower show_nat r policy)) ≡ true
  unfolding hardening_checks_of all_distinct
  distinct_ids r policy = refl

  -- The receipt of any checks, in place of those of the hardening.
  receipt_with :
      PackageReceipt → PackageHardeningPolicy → List PackageHardeningCheck → PackageHardeningReceipt
  receipt_with r policy checks = record {
    candidate = r.candidate;
    build_status = r.status;
    status_blocked = not (is_empty (filter is_blocker checks));
    package_digest = r.package_digest;
    effective_policy = policy;
    included_files = r.included_files;
    file_count = length (included lower show_nat r);
    total_size_bytes = total_bytes (included lower show_nat r);
    hardening_checks = checks;
    blockers = filter is_blocker checks;
    warnings = filter is_warning checks;
  }

  receipt_with-ok :
      (r : PackageReceipt) (policy : PackageHardeningPolicy) (checks : List PackageHardeningCheck)
      → receipt_ok h r ≡ true
      → is_empty checks ≡ false
      → all_distinct (checked_ids checks) ≡ true
      → (is_empty (filter is_blocker checks) ≡ true → is_built r.status ≡ true)
      → hardening_ok (receipt_with r policy checks) ≡ true
  unfolding hardening_ok receipt_with
  receipt_with-ok r policy checks ok filled distinct clear =
      let (paths, built_facts, blocked_facts) = receipt_facts r ok in
      let blockers = (list_beq_iff (filter is_blocker checks) (filter is_blocker checks)).1 refl in
      let warnings = (list_beq_iff (filter is_warning checks) (filter is_warning checks)).1 refl in
      let count = length-included r ok in
      elim (Bool-cases (is_empty (filter is_blocker checks))) [
        | inl none_left ↦
            let (candidate, digest) = built_facts (clear none_left) in
            rw
              (
                filled,
                paths,
                distinct,
                blockers,
                warnings,
                (nat_eq_iff _ _).1 count,
                none_left,
                clear none_left,
                candidate,
                digest,
              )
              refl
        | inr stopped ↦ elim (Bool-cases (is_built r.status)) [
          | inl was_built ↦
              let (candidate, digest) = built_facts was_built in
              rw
                (
                  filled,
                  paths,
                  distinct,
                  blockers,
                  warnings,
                  (nat_eq_iff _ _).1 count,
                  stopped,
                  was_built,
                  candidate,
                  digest,
                )
                refl
          | inr not_built ↦
              rw
                (
                  filled,
                  paths,
                  distinct,
                  blockers,
                  warnings,
                  (nat_eq_iff _ _).1 count,
                  stopped,
                  not_built,
                  blocked_facts not_built,
                )
                refl
        ]
      ]

  hardening_of-ok :
      (r : PackageReceipt) (policy : PackageHardeningPolicy)
      → receipt_ok h r ≡ true
      → hardening_ok (hardening_of lower show_nat r policy) ≡ true
  unfolding hardening_of receipt_with
  hardening_of-ok r policy ok =
      receipt_with-ok r policy (hardening_checks_of lower show_nat r policy) ok refl
        (distinct_ids r policy)
        (λ e.
          ap is_built ((hardening_of_iff lower show_nat r policy).0 (rw e refl)).is_built_package)

  -- The hardening of a valid package receipt returns, and its receipt is a valid hardening receipt:
  -- it is blocked exactly by its blocking checks, and it counts the files that the package includes.
  pub harden_skill_package-ok :
      (r : PackageReceipt) (policy : PackageHardeningPolicy)
      → receipt_ok h r ≡ true
      → (harden_skill_package lower show_nat h r policy
          ≡ some (hardening_of lower show_nat r policy))
        × (hardening_ok (hardening_of lower show_nat r policy) ≡ true)
  unfolding harden_skill_package
  harden_skill_package-ok r policy ok =
      let valid = hardening_of-ok r policy ok in (rw (ok, valid) refl, valid)
