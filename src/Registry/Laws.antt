-- ===== src/Registry/Laws.antt =====
-- When a registry candidate is prepared.
use skills_sdk.Prelude.{
  filter, ◌∙◌, ◌≡◌, ◌≤◌, ◌↔◌, refl, ap, true, false, Option, none, some, List, [], ◌∷◌, String,
  codes, length, ◌==◌, string_eq, option_eq, eq_lem, arith, Bool-cases, Option-cases, inl, inr,
}
use skills_sdk.Json.{Hash}
use skills_sdk.Packaging.{
  PackageCandidateIdentity, PackageManifest, PackageReceipt, built, candidate_eq, list_beq,
  list_beq_iff,
}
use skills_sdk.Packaging.Validation.{is_empty, receipt_ok}
use skills_sdk.Hardening.{is_blocker, PackageHardeningCheck, PackageHardeningReceipt}
use skills_sdk.Registry.Version.{is_registry_version}
use skills_sdk.Registry.Models.{
  RegistryPreparationRequest, RegistryPreparationBlocker, RegistryPreparationReceipt, prepared,
  registry_package_name_max_length,
}
use skills_sdk.Registry.Evidence.{hardening_blockers}
use skills_sdk.Registry.Candidate.{prepare_private_registry_candidate, validated_preparation}
use skills_sdk.Registry.Validation.{request_ok}
use skills_sdk.Hardening.Contract.{hardening_ok, check_eq}
use skills_sdk.Registry.Prepare.{
  kept_warnings, blocked_input, name_blockers, version_blockers, input_blockers, blocked_receipt,
  prepared_with, prepared_receipt, preparation_of,
}

module _ (h : Hash) where
  -- What a package, its hardening and a request have to show.
  pub record IsPreparable (pkg : PackageReceipt) (hardening : PackageHardeningReceipt)
      (request : RegistryPreparationRequest) : Type 0 where
    pub candidate : PackageCandidateIdentity
    pub manifest : PackageManifest
    pub digest : String
    pub built_package : pkg.status ≡ built
    pub has_candidate : pkg.candidate ≡ some candidate
    pub has_manifest : pkg.manifest ≡ some manifest
    pub has_digest : pkg.package_digest ≡ some digest
    pub same_candidate : hardening.candidate ≡ pkg.candidate
    pub same_digest : hardening.package_digest ≡ pkg.package_digest
    pub hardened : hardening.status_blocked ≡ false
    pub version : request.version ≡ manifest.version
    pub name : request.package_name ≡ candidate.package_id
    pub short_name : length (codes request.package_name) ≤ registry_package_name_max_length
    pub semantic_version : is_registry_version request.version ≡ true

  name_blockers-nil :
      (c : PackageCandidateIdentity) (request : RegistryPreparationRequest)
      → (name_blockers h c request ≡ []) ↔ (
          ((request.package_name == c.package_id) ≡ true)
          × (length (codes request.package_name) ≤ registry_package_name_max_length)
          × (is_registry_version request.version ≡ true))
  unfolding name_blockers
  name_blockers-nil c request = ground arith

  hardening_blockers-nil :
      (cs : List PackageHardeningCheck) → is_empty cs ≡ false → hardening_blockers h cs ≡ [] → ⊥
  unfolding hardening_blockers
  hardening_blockers-nil [] e f = cc
  hardening_blockers-nil (c ∷ cs) e f = cc

  version_blockers-nil :
      (m : PackageManifest) (pkg : PackageReceipt) (hardening : PackageHardeningReceipt)
      (request : RegistryPreparationRequest)
      → (hardening.status_blocked ≡ true → is_empty hardening.blockers ≡ false)
      → version_blockers h m pkg hardening request ≡ some []
      → ((request.version == m.version) ≡ true)
        × (hardening.status_blocked ≡ false)
        × ((c : PackageCandidateIdentity) × (pkg.candidate ≡ some c)
            × (name_blockers h c request ≡ []))
  unfolding version_blockers
  version_blockers-nil m pkg hardening request ok e = elim (Bool-cases hardening.status_blocked) [
    | inl x ↦ absurd (hardening_blockers-nil hardening.blockers (ok x) (ground arith))
    | inr x ↦ elim (Option-cases pkg.candidate) [
      | inl y ↦ absurd (ground arith)
      | inr (c, y) ↦ (ground arith, x, (c, y, ground arith))
    ]
  ]

  input_blockers-nil :
      (pkg : PackageReceipt) (hardening : PackageHardeningReceipt)
      (request : RegistryPreparationRequest)
      → input_blockers h pkg hardening request ≡ some []
      → (pkg.status ≡ built)
        × ((hardening.candidate == pkg.candidate) ≡ true)
        × ((hardening.package_digest == pkg.package_digest) ≡ true)
        × ((m : PackageManifest) × (pkg.manifest ≡ some m)
            × (version_blockers h m pkg hardening request ≡ some []))
  unfolding input_blockers blocked_input
  input_blockers-nil pkg hardening request e = elim (Option-cases pkg.manifest) [
    | inl x ↦ absurd (ground arith)
    | inr (m, x) ↦ (ground arith, ground arith, ground arith, (m, x, ground arith))
  ]

  prepared_receipt-some :
      (pkg : PackageReceipt) (hardening : PackageHardeningReceipt)
      (request : RegistryPreparationRequest) (r : RegistryPreparationReceipt)
      → prepared_receipt h pkg hardening request ≡ some r
      → (digest : String) × (pkg.package_digest ≡ some digest)
  unfolding prepared_receipt
  prepared_receipt-some pkg hardening request r e = elim (Option-cases pkg.package_digest) [
    | inl x ↦ absurd (ground arith)
    | inr (d, x) ↦ (d, x)
  ]

  preparation_tests :
      (pkg : PackageReceipt) (hardening : PackageHardeningReceipt)
      (request : RegistryPreparationRequest) (r : RegistryPreparationReceipt)
      → preparation_of h pkg hardening request ≡ some r
      → r.status ≡ prepared
      → (input_blockers h pkg hardening request ≡ some [])
        × (prepared_receipt h pkg hardening request ≡ some r)
  unfolding preparation_of
  preparation_tests pkg hardening request r e p = go (input_blockers h pkg hardening request) refl e
    where
      go :
          (o : Option (List RegistryPreparationBlocker))
          → input_blockers h pkg hardening request ≡ o
          → elim o [
            | none ↦ none
            | some [] ↦ prepared_receipt h pkg hardening request
            | some (first ∷ others) ↦ some (
                blocked_receipt h pkg hardening request first
                  (first ∷ others)
                  (kept_warnings h pkg hardening first))
          ]
            ≡ some r
          → (input_blockers h pkg hardening request ≡ some [])
            × (prepared_receipt h pkg hardening request ≡ some r)
      go none x y = cc
      go (some []) x y = (x, y)
      go (some (b ∷ bs)) x y = absurd (unfold blocked_receipt in ground arith)

  argument_tests :
      (pkg : PackageReceipt) (hardening : PackageHardeningReceipt)
      (request : RegistryPreparationRequest) (r : RegistryPreparationReceipt)
      → prepare_private_registry_candidate h pkg hardening request ≡ some r
      → (receipt_ok h pkg ≡ true)
        × (hardening_ok hardening ≡ true)
        × (request_ok request ≡ true)
        × (preparation_of h pkg hardening request ≡ some r)
  unfolding prepare_private_registry_candidate validated_preparation
  argument_tests pkg hardening request r e =
      elim (Option-cases (preparation_of h pkg hardening request)) [
        | inl x ↦ absurd (ground arith)
        | inr (out, x) ↦ (ground arith, ground arith, ground arith, ground arith)
      ]

  pub hardening_ok-explained :
      (hardening : PackageHardeningReceipt)
      → hardening_ok hardening ≡ true
      → hardening.status_blocked ≡ true
      → is_empty hardening.blockers ≡ false
  unfolding hardening_ok
  hardening_ok-explained hardening ok stopped =
      let same : list_beq hardening.blockers (filter is_blocker hardening.hardening_checks) ≡ true =
        ground arith in
      let filled : is_empty (filter is_blocker hardening.hardening_checks) ≡ false = ground arith in
      ap is_empty ((list_beq_iff _ _).0 same) ∙ filled

  pub clear_input-IsPreparable :
      (pkg : PackageReceipt) (hardening : PackageHardeningReceipt)
      (request : RegistryPreparationRequest)
      → (hardening.status_blocked ≡ true → is_empty hardening.blockers ≡ false)
      → input_blockers h pkg hardening request ≡ some []
      → (pkg.status ≡ built → (digest : String) × (pkg.package_digest ≡ some digest))
      → IsPreparable pkg hardening request
  clear_input-IsPreparable pkg hardening request ok clear digested =
      let (was_built, same_candidate, same_digest, (m, has_m, later)) =
        input_blockers-nil pkg hardening request clear in
      let (version, hardened, (c, has_c, names)) =
        version_blockers-nil m pkg hardening request ok later in
      let (name, short, semantic) = (name_blockers-nil c request).0 names in
      let (digest, has_d) = digested was_built in
      record {
        candidate = c;
        manifest = m;
        digest = digest;
        built_package = was_built;
        has_candidate = has_c;
        has_manifest = has_m;
        has_digest = has_d;
        same_candidate = (eq_lem hardening.candidate pkg.candidate).0 same_candidate;
        same_digest = (eq_lem hardening.package_digest pkg.package_digest).0 same_digest;
        hardened = hardened;
        version = (string_eq.eqb_iff request.version m.version).0 version;
        name = (string_eq.eqb_iff request.package_name c.package_id).0 name;
        short_name = short;
        semantic_version = semantic;
      }

  preparation-IsPreparable :
      (pkg : PackageReceipt) (hardening : PackageHardeningReceipt)
      (request : RegistryPreparationRequest) (r : RegistryPreparationReceipt)
      → (hardening.status_blocked ≡ true → is_empty hardening.blockers ≡ false)
      → preparation_of h pkg hardening request ≡ some r
      → r.status ≡ prepared
      → IsPreparable pkg hardening request
  preparation-IsPreparable pkg hardening request r ok e p =
      let (clear, done) = preparation_tests pkg hardening request r e p in
      clear_input-IsPreparable pkg hardening request ok clear
        (λ _. prepared_receipt-some pkg hardening request r done)

  -- A registry receipt is prepared only for a built package with its candidate, manifest and digest,
  -- bound by a hardening receipt that passes, under the manifest's version and the candidate's name,
  -- where the name fits the registry and the version is canonical.
  pub prepare-IsPreparable :
      (pkg : PackageReceipt) (hardening : PackageHardeningReceipt)
      (request : RegistryPreparationRequest) (r : RegistryPreparationReceipt)
      → prepare_private_registry_candidate h pkg hardening request ≡ some r
      → r.status ≡ prepared
      → IsPreparable pkg hardening request
  prepare-IsPreparable pkg hardening request r e p =
      let (_, valid, _, made) = argument_tests pkg hardening request r e in
      preparation-IsPreparable pkg hardening request r (hardening_ok-explained hardening valid) made
        p

  version_clear :
      (pkg : PackageReceipt) (hardening : PackageHardeningReceipt)
      (request : RegistryPreparationRequest) (d : IsPreparable pkg hardening request)
      → version_blockers h d.manifest pkg hardening request ≡ some []
  unfolding version_blockers
  version_clear pkg hardening request d =
      let names = (name_blockers-nil d.candidate request).1 (
        (string_eq.eqb_iff request.package_name d.candidate.package_id).1 d.name,
        d.short_name,
        d.semantic_version,
      ) in
      let version = (string_eq.eqb_iff request.version d.manifest.version).1 d.version in
      rw (version, d.hardened, d.has_candidate, version_blockers) (ap some names)

  pub input_clear :
      (pkg : PackageReceipt) (hardening : PackageHardeningReceipt)
      (request : RegistryPreparationRequest)
      → IsPreparable pkg hardening request
      → input_blockers h pkg hardening request ≡ some []
  unfolding input_blockers
  input_clear pkg hardening request d =
      let candidates = (eq_lem hardening.candidate pkg.candidate).1 d.same_candidate in
      let digests = (eq_lem hardening.package_digest pkg.package_digest).1 d.same_digest in
      simp (d.built_package, candidates, digests, d.has_manifest, input_blockers)
        (version_clear pkg hardening request d)

  prepared_clear :
      (pkg : PackageReceipt) (hardening : PackageHardeningReceipt)
      (request : RegistryPreparationRequest) (d : IsPreparable pkg hardening request)
      → prepared_receipt h pkg hardening request
        ≡ some (prepared_with h pkg hardening request d.candidate d.manifest d.digest)
  unfolding prepared_receipt
  prepared_clear pkg hardening request d =
      simp (d.has_candidate, d.has_manifest, d.has_digest, prepared_receipt)

  pub preparation_of-IsPreparable :
      (pkg : PackageReceipt) (hardening : PackageHardeningReceipt)
      (request : RegistryPreparationRequest)
      → (d : IsPreparable pkg hardening request)
      → preparation_of h pkg hardening request
        ≡ some (prepared_with h pkg hardening request d.candidate d.manifest d.digest)
  unfolding preparation_of
  preparation_of-IsPreparable pkg hardening request d =
      rw (input_clear pkg hardening request d, preparation_of)
        (prepared_clear pkg hardening request d)
