-- ===== src/Hardening.antt =====
-- Package hardening: src/skills_sdk/packaging/hardening.py, with the models of
-- src/skills_sdk/models/packaging.py. `str.lower` and the text of
-- a number are parameters.
pub mod Contract
pub mod Laws
pub mod Validation
pub mod Decision
mod Tests
use Prim.Native.String
use skills_sdk.Prelude.{
  ◌*◌, ℕ, ◌+◌, ◌≡◌, Bool, true, false, not, ◌&&◌, ◌||◌, Option, none, some, List, [], ◌∷◌, ◌++◌,
  String, contains, sorted, to_set, filter, any, all_distinct, length, ◌==◌, string_eq, leb, nat_eq,
  if◌then◌else◌,
}
use skills_sdk.Packaging.{
  PackageCandidateIdentity, PackageFileRole, skill_md, readme, role_value, role_beq,
  PackageManifestFile, PackageManifest, BuildStatus, built, blocked, PackageReceipt, list_beq,
}
use skills_sdk.PackageSafety.{unsafe_package_path_reason}
use skills_sdk.Packaging.Validation.{is_none, is_empty}

pub record PackageHardeningPolicy : Type 0 where
  pub max_file_count : ℕ
  pub max_total_bytes : ℕ
  pub require_readme : Bool

abbrev pub default_policy : PackageHardeningPolicy
default_policy = record {
  max_file_count = 250;
  max_total_bytes = 5 * 1024 * 1024;
  require_readme = true;
}

pub data CheckStatus : Type 0 where
  pass warning blocker : CheckStatus

pub record PackageHardeningCheck : Type 0 where
  pub id : String
  pub status : CheckStatus
  pub message : String
  pub evidence : List String

pub record PackageHardeningReceipt : Type 0 where
  pub candidate : Option PackageCandidateIdentity
  pub build_status : BuildStatus
  pub status_blocked : Bool
  pub package_digest : Option String
  pub effective_policy : PackageHardeningPolicy
  pub included_files : List String
  pub file_count : ℕ
  pub total_size_bytes : ℕ
  pub hardening_checks : List PackageHardeningCheck
  pub blockers : List PackageHardeningCheck
  pub warnings : List PackageHardeningCheck

abbrev pub is_blocker : PackageHardeningCheck → Bool
is_blocker c = elim c.status [ blocker ↦ true | _ ↦ false ]

abbrev pub is_warning : PackageHardeningCheck → Bool
is_warning c = elim c.status [ warning ↦ true | _ ↦ false ]

abbrev pub is_built : BuildStatus → Bool
is_built built = true
is_built blocked = false

abbrev status_text : BuildStatus → String
status_text built = "built"
status_text blocked = "blocked"

abbrev pub total_bytes : List PackageManifestFile → ℕ
total_bytes [] = 0
total_bytes (f ∷ fs) = f.size_bytes + total_bytes fs

abbrev joined : String → String → String
joined a b = String.◌++◌ a b

package_receipt_check : PackageReceipt → PackageHardeningCheck
package_receipt_check receipt = record {
  id = "package_receipt_built";
  status = if is_built receipt.status then pass else blocker;
  message = "Package hardening requires a successful immutable package receipt.";
  evidence = joined "package_receipt_status:" (status_text receipt.status) ∷ [];
}

provenance_valid : PackageReceipt → Bool
unfolding contains
provenance_valid receipt = elim receipt.manifest [
  | none ↦ false
  | some m ↦
      m.provenance.builder == "skills-sdk.packaging.manifest/v1"
      && contains "SKILL.md" m.provenance.source
]

provenance_check : PackageReceipt → PackageHardeningCheck
unfolding provenance_valid
provenance_check receipt = record {
  id = "provenance_trace";
  status = if provenance_valid receipt then pass else blocker;
  message =
      "Package hardening requires the Skills SDK manifest builder and SKILL.md source provenance.";
  evidence = elim receipt.manifest [
    | none ↦ []
    | some m ↦ joined "builder:" m.provenance.builder ∷ m.provenance.source
  ];
}

abbrev role_values : List PackageManifestFile → List String
role_values [] = []
role_values (f ∷ fs) = role_value f.role ∷ role_values fs

-- `sorted({item.role.value for item in files})`
roles_of : List PackageManifestFile → List String
unfolding to_set sorted
roles_of files = sorted (to_set (role_values files))

abbrev pub is_readme : PackageManifestFile → Bool
is_readme f = role_beq f.role readme && f.path == "README.md"

roles_valid : List PackageManifestFile → PackageHardeningPolicy → Bool
unfolding roles_of contains
roles_valid files policy =
    contains "skill_md" (roles_of files) && (any is_readme files || not policy.require_readme)

required_role_check : List PackageManifestFile → PackageHardeningPolicy → PackageHardeningCheck
unfolding roles_valid
required_role_check files policy = record {
  id = "required_package_roles";
  status = if roles_valid files policy then pass else blocker;
  message = "Package manifest must include SKILL.md and, when required, root README.md roles.";
  evidence = roles_of files;
}

module _ (lower : List ℕ → List ℕ) (show_nat : ℕ → String) where
  forbidden_of : List String → List String
  forbidden_of [] = []
  forbidden_of (path ∷ paths) =
      let rest = forbidden_of paths in
      elim (unsafe_package_path_reason lower path) [
        | none ↦ rest
        | some reason ↦ joined path (joined ":" reason) ∷ rest
      ]

  forbidden_paths_check : PackageReceipt → PackageHardeningCheck
  unfolding forbidden_of
  forbidden_paths_check receipt =
      let forbidden = forbidden_of receipt.included_files in
      record {
        id = "forbidden_package_paths";
        status = if is_empty forbidden then pass else blocker;
        message =
            "Package contents must exclude runtime, generated, dependency, and secret-bearing paths.";
        evidence = forbidden;
      }

  within_budget : List PackageManifestFile → PackageHardeningPolicy → Bool
  within_budget files policy =
      leb (length files) policy.max_file_count && leb (total_bytes files) policy.max_total_bytes

  size_budget_check : List PackageManifestFile → PackageHardeningPolicy → PackageHardeningCheck
  unfolding within_budget
  size_budget_check files policy = record {
    id = "package_size_budget";
    status = if within_budget files policy then pass else warning;
    message = "Package contents should remain within the explicit hardening budget.";
    evidence =
        joined "files:"
          (joined (show_nat (length files)) (joined "/" (show_nat policy.max_file_count)))
        ∷ joined "total_size_bytes:"
            (joined (show_nat (total_bytes files)) (joined "/" (show_nat policy.max_total_bytes)))
        ∷ [];
  }

  -- The manifest's files that the receipt includes.
  unfoldable pub included : PackageReceipt → List PackageManifestFile
  unfolding contains
  included receipt = elim receipt.manifest [
    | none ↦ []
    | some m ↦ filter (λ f. contains f.path receipt.included_files) m.files
  ]

  unfoldable pub hardening_checks_of :
      PackageReceipt → PackageHardeningPolicy → List PackageHardeningCheck
  unfolding included package_receipt_check forbidden_paths_check size_budget_check provenance_check
      required_role_check
  hardening_checks_of receipt policy =
      package_receipt_check receipt
      ∷ forbidden_paths_check receipt
      ∷ size_budget_check (included receipt) policy
      ∷ provenance_check receipt
      ∷ required_role_check (included receipt) policy
      ∷ []

  -- The fields that `harden_skill_package` gives the receipt it returns.
  unfoldable pub hardening_of : PackageReceipt → PackageHardeningPolicy → PackageHardeningReceipt
  unfolding hardening_checks_of
  hardening_of receipt policy =
      let checks = hardening_checks_of receipt policy in
      record {
        candidate = receipt.candidate;
        build_status = receipt.status;
        status_blocked = not (is_empty (filter is_blocker checks));
        package_digest = receipt.package_digest;
        effective_policy = policy;
        included_files = receipt.included_files;
        file_count = length (included receipt);
        total_size_bytes = total_bytes (included receipt);
        hardening_checks = checks;
        blockers = filter is_blocker checks;
        warnings = filter is_warning checks;
      }
