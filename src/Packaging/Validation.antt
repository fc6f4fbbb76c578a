-- ===== src/Packaging/Validation.antt =====
-- The validators of src/skills_sdk/models/packaging.py, as tests: a model that pydantic refuses is
-- `false`. The patterns of single fields (digests, identifiers) are not modelled.
use skills_sdk.Prelude.{
  refl, arith, contains_iff, In, All, ◌↔◌, ◌≡◌, Bool, true, false, not, ◌&&◌, Option, none, some,
  List, [], ◌∷◌, String, contains, all, any, all_distinct, ◌==◌, string_eq, option_eq, leb,
}
use skills_sdk.Json.{Hash}
use skills_sdk.Paths.{is_portable}
use skills_sdk.Packaging.{
  PackageManifest, PackageReceipt, built, blocked, file_paths, candidate_content_sha256,
  manifest_digest, candidate_eq,
}

-- `set(xs) <= set(ys)`
unfoldable pub is_subset : List String → List String → Bool
unfolding contains
is_subset xs ys = all (λ x. contains x ys) xs

-- `set(xs) & set(ys)` is not empty.
unfoldable pub meets : List String → List String → Bool
unfolding contains
meets xs ys = any (λ x. contains x ys) xs

abbrev pub is_empty {ℓ} : {A : Type ℓ} → List A → Bool
is_empty [] = true
is_empty (x ∷ xs) = false

abbrev pub is_none {ℓ} : {A : Type ℓ} → Option A → Bool
is_none none = true
is_none (some a) = false

-- `PackageManifest` and its files and provenance.
unfoldable pub manifest_ok : PackageManifest → Bool
unfolding is_portable all_distinct
manifest_ok m =
    not (is_empty m.files)
    && all is_portable (file_paths m.files)
    && not (is_empty m.provenance.source)
    && all is_portable m.provenance.source
    && all_distinct (file_paths m.files)

unfoldable pub paths_ok : List String → Bool
unfolding is_portable all_distinct
paths_ok values = all_distinct values && all is_portable values

-- The part of `receipt_matches_manifest` on a built receipt, with that of `PackageReceiptV2`.
abbrev pub built_ok : Hash → PackageReceipt → Bool
built_ok h r = elim r.candidate [
  | none ↦ false
  | some candidate ↦ elim r.package_digest [
    | none ↦ false
    | some digest ↦ elim r.manifest [
      | none ↦ false
      | some manifest ↦
          not (is_empty r.included_files)
          && is_subset r.included_files (file_paths manifest.files)
          && is_subset (file_paths manifest.files) r.included_files
          && is_none r.blocker
          && candidate.content_sha256 == candidate_content_sha256 h manifest.files
          && digest == manifest_digest h manifest
    ]
  ]
]

abbrev pub manifest_paths : PackageReceipt → List String
manifest_paths r = elim r.manifest [ none ↦ [] | some m ↦ file_paths m.files ]

abbrev pub blocked_ok : PackageReceipt → Bool
blocked_ok r =
    not (is_none r.blocker)
    && is_none r.package_digest
    && not (is_none r.manifest && not (is_empty r.included_files && is_empty r.excluded_files))
    && is_subset r.included_files (manifest_paths r)
    && not (meets r.excluded_files (manifest_paths r))

abbrev pub nested_ok : PackageReceipt → Bool
nested_ok r =
    elim r.manifest [ none ↦ true | some m ↦ manifest_ok m && some m.candidate == r.candidate ]
    && elim r.blocker [ none ↦ true | some b ↦ all is_portable b.evidence_refs ]

-- `PackageReceiptV2`
unfoldable pub receipt_ok : Hash → PackageReceipt → Bool
receipt_ok h r =
    not (is_empty r.evidence)
    && (paths_ok r.evidence && paths_ok r.included_files && paths_ok r.excluded_files)
    && leb r.started_at r.finished_at
    && nested_ok r
    && elim r.status [ built ↦ built_ok h r | blocked ↦ blocked_ok r ]
    && not (meets r.included_files r.excluded_files)

pub is_subset_iff : (xs ys : List String) → (is_subset xs ys ≡ true) ↔ All (λ x. In x ys) xs
unfolding is_subset
is_subset_iff [] ys = (λ h. tt, λ h. refl)
is_subset_iff (x ∷ xs) ys = ground (arith, contains_iff x ys, is_subset_iff xs ys)
