-- ===== src/Packaging/Build/Tests.antt =====
-- A build of one file, and one of a blocked validation.
use skills_sdk.Json.{Hash}
use skills_sdk.Packaging.{
  PackageCandidateIdentity, PackageReceipt, skill_md, candidate_content_sha256,
}
use skills_sdk.Packaging.Validation.{receipt_ok}
use skills_sdk.Packaging.Build.{SkillPackageValidation, pass, validation_ok, build_skill_package}
use skills_sdk.Packaging.Build.Laws.{build_skill_package_ok}
use skills_sdk.Prelude.{arith, ◌≡◌, refl, true, some, [], ◌∷◌}

abbrev hash : Hash
hash = record { sha256 = λ b. "digest"; dumps = λ j. [] }

abbrev validated : SkillPackageValidation
validated = record {
  candidate =
      some (record { package_id = "demo"; source_revision = "r"; content_sha256 = "digest" });
  status = pass;
  identity = some (record { package_id = "demo"; name = "demo"; version = "1.0.0" });
  files = record { path = "SKILL.md"; sha256 = "f"; size_bytes = 3; role = skill_md } ∷ [];
  findings = [];
}

validated_ok : validation_ok validated ≡ true
unfolding validation_ok
validated_ok = refl

named :
    (c : PackageCandidateIdentity)
    → validated.status ≡ pass
    → validated.candidate ≡ some c
    → c.content_sha256 ≡ candidate_content_sha256 hash validated.files
named c p e = ground arith

build_skill_package_ok_example :
    (r : PackageReceipt) × (build_skill_package hash validated 1 2 ≡ some r)
    × (receipt_ok hash r ≡ true)
build_skill_package_ok_example =
    build_skill_package_ok hash validated 1 2 validated_ok (omega arith) named
