-- ===== src/Registry/Totality.antt =====
-- What `prepare_private_registry_candidate` of src/skills_sdk/distribution/private_registry.py
-- returns for valid arguments.
use skills_sdk.Registry.Evidence.{registry_warnings}
use mathlib.Core.Bool.{false≢true}
use skills_sdk.Prelude.{
  sym, option_eq, string_eq, ◌≡◌, ◌↔◌, refl, true, Option, none, some, List, [], ◌∷◌, arith, all,
}
use skills_sdk.Json.{Hash, canonical_json_sha256}
use skills_sdk.Packaging.{PackageManifest, PackageReceipt, manifest_digest}
use skills_sdk.Packaging.Validation.{receipt_ok}
use skills_sdk.Hardening.{PackageHardeningReceipt}
use skills_sdk.Hardening.Contract.{hardening_ok}
use skills_sdk.Registry.Models.{
  PreparationStatus, RegistryPreparationRequest, RegistryPreparationBlocker,
  RegistryPreparationReceipt, prepared, blocker_ok,
}
use skills_sdk.Registry.Validation.{request_ok, preparation_ok, prepared_ok, stopped_ok}
use skills_sdk.Registry.Prepare.{
  hardening_json, kept_warnings, input_blockers, blocked_receipt, prepared_with, preparation_of,
}
use skills_sdk.Registry.Blockers.{
  built_facts, warnings_ok, kept_warnings_ok, blockers_found, input_blockers_ok, blocker_beq_refl,
}
use skills_sdk.Registry.Candidate.{prepare_private_registry_candidate, validated_preparation}
use skills_sdk.Registry.Laws.{
  input_clear, clear_input-IsPreparable, IsPreparable, hardening_ok-explained,
  preparation_of-IsPreparable,
}

module _ (h : Hash) where
  -- A receipt that is made of a package, its hardening and a request.
  pub record IsPreparation (pkg : PackageReceipt) (hardening : PackageHardeningReceipt)
      (request : RegistryPreparationRequest) (r : RegistryPreparationReceipt) : Type 0 where
    pub valid : preparation_ok r ≡ true
    pub decision : (r.status ≡ prepared) ↔ IsPreparable h pkg hardening request
    pub candidate : r.candidate ≡ pkg.candidate
    pub input : r.input_receipt_id ≡ pkg.receipt_id
    pub registry : r.registry ≡ request.registry
    pub name : r.package_name ≡ request.package_name
    pub version : r.version ≡ request.version
    pub evidence : r.evidence ≡ request.evidence
    pub explained :
        r.status ≡ PreparationStatus.blocked
        → input_blockers h pkg hardening request ≡ some r.blockers
    pub warned : r.status ≡ prepared → r.warnings ≡ registry_warnings h hardening.warnings
    pub digest : r.status ≡ prepared → r.package_digest ≡ pkg.package_digest
    pub manifest :
        r.status ≡ prepared
        → (m : PackageManifest) → pkg.manifest ≡ some m
        → r.manifest_digest ≡ some (manifest_digest h m)
    pub hardened :
        r.status ≡ prepared
        → r.hardening_receipt_sha256 ≡ some (canonical_json_sha256 h (hardening_json hardening))

  blocked_receipt_ok :
      (pkg : PackageReceipt) (hardening : PackageHardeningReceipt)
      (request : RegistryPreparationRequest) (first : RegistryPreparationBlocker)
      (others : List RegistryPreparationBlocker)
      → request_ok request ≡ true
      → all blocker_ok (first ∷ others) ≡ true
      → preparation_ok (
          blocked_receipt h pkg hardening request first
            (first ∷ others)
            (kept_warnings h pkg hardening first))
        ≡ true
  unfolding preparation_ok request_ok stopped_ok blocked_receipt
  blocked_receipt_ok pkg hardening request first others asked good =
      let same = blocker_beq_refl h first in
      let warned = kept_warnings_ok h pkg hardening first in ground (arith, same, warned)

  prepared_receipt_ok :
      (pkg : PackageReceipt) (hardening : PackageHardeningReceipt)
      (request : RegistryPreparationRequest)
      → receipt_ok h pkg ≡ true
      → request_ok request ≡ true
      → (d : IsPreparable h pkg hardening request)
      → (d.digest ≡ manifest_digest h d.manifest)
        × (preparation_ok (prepared_with h pkg hardening request d.candidate d.manifest d.digest)
            ≡ true)
  unfolding preparation_ok request_ok prepared_ok prepared_with
  prepared_receipt_ok pkg hardening request ok asked d =
      let (c, m, named, has, bound) = built_facts h pkg ok d.built_package in
      let same : m ≡ d.manifest = ground (arith, has, d.has_manifest) in
      let digest : d.digest ≡ manifest_digest h d.manifest = cc (d.has_digest, bound, same) in
      let warned = warnings_ok h hardening.warnings in
      let digests = (string_eq.eqb_iff d.digest (manifest_digest h d.manifest)).1 digest in
      let name = (string_eq.eqb_iff request.package_name d.candidate.package_id).1 d.name in
      let semantic = d.semantic_version in
      let short = d.short_name in (digest, ground (arith, warned, digests, name, semantic, short))

  prepared_with-IsPreparation :
      (pkg : PackageReceipt) (hardening : PackageHardeningReceipt)
      (request : RegistryPreparationRequest)
      → receipt_ok h pkg ≡ true
      → request_ok request ≡ true
      → (d : IsPreparable h pkg hardening request)
      → IsPreparation pkg hardening request
          (prepared_with h pkg hardening request d.candidate d.manifest d.digest)
  unfolding prepared_with
  prepared_with-IsPreparation pkg hardening request ok asked d = record {
    valid = (prepared_receipt_ok pkg hardening request ok asked d).1;
    decision = (λ p. d, λ e. refl);
    candidate = sym d.has_candidate;
    input = refl;
    registry = refl;
    name = refl;
    version = refl;
    evidence = refl;
    explained = λ p. cc p;
    warned = λ p. refl;
    digest = λ p. sym d.has_digest;
    manifest = λ p m has. cc (d.has_manifest, has);
    hardened = λ p. refl;
  }

  blocked_receipt-IsPreparation :
      (pkg : PackageReceipt) (hardening : PackageHardeningReceipt)
      (request : RegistryPreparationRequest) (first : RegistryPreparationBlocker)
      (others : List RegistryPreparationBlocker)
      → request_ok request ≡ true
      → all blocker_ok (first ∷ others) ≡ true
      → input_blockers h pkg hardening request ≡ some (first ∷ others)
      → IsPreparation pkg hardening request (
          blocked_receipt h pkg hardening request first
            (first ∷ others)
            (kept_warnings h pkg hardening first))
  unfolding blocked_receipt
  blocked_receipt-IsPreparation pkg hardening request first others asked good e = record {
    valid = blocked_receipt_ok pkg hardening request first others asked good;
    decision = (λ p. cc p, λ d. absurd (cc (e, input_clear h pkg hardening request d)));
    candidate = refl;
    input = refl;
    registry = refl;
    name = refl;
    version = refl;
    evidence = refl;
    explained = λ p. e;
    warned = λ p. cc p;
    digest = λ p. cc p;
    manifest = λ p. cc p;
    hardened = λ p. cc p;
  }

  preparation_of-IsPreparation :
      (pkg : PackageReceipt) (hardening : PackageHardeningReceipt)
      (request : RegistryPreparationRequest)
      → receipt_ok h pkg ≡ true
      → hardening_ok hardening ≡ true
      → request_ok request ≡ true
      → (r : RegistryPreparationReceipt) × (preparation_of h pkg hardening request ≡ some r)
        × IsPreparation pkg hardening request r
  unfolding preparation_of
  preparation_of-IsPreparation pkg hardening request ok valid asked =
      go (input_blockers h pkg hardening request) refl
        (input_blockers_ok h pkg hardening request ok)
    where
      go :
          (found : Option (List RegistryPreparationBlocker))
          → input_blockers h pkg hardening request ≡ found
          → blockers_found h found ≡ true
          → (r : RegistryPreparationReceipt) × (preparation_of h pkg hardening request ≡ some r)
            × IsPreparation pkg hardening request r
      go none e good = absurd (false≢true good)
      go (some (first ∷ others)) e good = (
        _,
        rw (e, preparation_of) refl,
        blocked_receipt-IsPreparation pkg hardening request first others asked good e,
      )
      go (some []) e good =
          let d =
            clear_input-IsPreparable h pkg hardening request
              (hardening_ok-explained h hardening valid) e
              (λ was.
                let (c, m, _, _, bound) = built_facts h pkg ok was in
                (manifest_digest h m, bound)) in
          (
            prepared_with h pkg hardening request d.candidate d.manifest d.digest,
            preparation_of-IsPreparable h pkg hardening request d,
            prepared_with-IsPreparation pkg hardening request ok asked d,
          )

  -- Valid arguments have a preparation receipt, and it is a valid one. It is prepared exactly when
  -- the package is built, the hardening passes and binds it, and the request names its version and
  -- candidate in the registry's terms. It keeps the candidate, the id of the package receipt and
  -- the request, and a prepared one binds the digests of the package, the manifest and the hardening
  -- receipt, with the warnings of the hardening, while a blocked one lists the blockers found.
  pub prepare_total :
      (pkg : PackageReceipt) (hardening : PackageHardeningReceipt)
      (request : RegistryPreparationRequest)
      → receipt_ok h pkg ≡ true
      → hardening_ok hardening ≡ true
      → request_ok request ≡ true
      → (r : RegistryPreparationReceipt) × (prepare_private_registry_candidate h pkg hardening
            request
          ≡ some r)
        × IsPreparation pkg hardening request r
  unfolding prepare_private_registry_candidate validated_preparation
  prepare_total pkg hardening request ok valid asked =
      let (r, made, d) = preparation_of-IsPreparation pkg hardening request ok valid asked in
      (r, rw (ok, valid, asked, made, d.valid) refl, d)
