-- ===== src/Hardening/Contract.antt =====
-- The validator of the hardening receipt, of src/skills_sdk/models/packaging.py, and
-- `harden_skill_package` of src/skills_sdk/packaging/hardening.py, which validates the receipt it is
-- given and the one it returns. `none` is the exception of a validator.
use skills_sdk.Json.{Hash}
use skills_sdk.Packaging.{PackageReceipt, list_beq, list_beq_iff}
use skills_sdk.Packaging.Validation.{is_empty, is_none, paths_ok, receipt_ok}
use skills_sdk.Hardening.{
  PackageHardeningCheck, PackageHardeningReceipt, PackageHardeningPolicy, CheckStatus, pass,
  warning, blocker, is_blocker, is_warning, is_built, hardening_of,
}
use skills_sdk.Prelude.{
  ◌==◌, ℕ, ◌≡◌, ◌↔◌, Bool, true, false, not, ◌&&◌, Option, none, some, List, [], ◌∷◌, String,
  string_eq, all_distinct, arith, Comparable, filter, length, nat_eq, if◌then◌else◌,
}

abbrev check_status_beq : CheckStatus → CheckStatus → Bool
check_status_beq pass pass = true
check_status_beq warning warning = true
check_status_beq blocker blocker = true
check_status_beq _ _ = false

check_status_beq_iff : (a b : CheckStatus) → (check_status_beq a b ≡ true) ↔ (a ≡ b)
check_status_beq_iff a b = ground arith

abbrev pub check_beq : PackageHardeningCheck → PackageHardeningCheck → Bool
check_beq a b =
    a.id == b.id
    && check_status_beq a.status b.status
    && a.message == b.message
    && list_beq a.evidence b.evidence

pub check_beq_iff : (a b : PackageHardeningCheck) → (check_beq a b ≡ true) ↔ (a ≡ b)
check_beq_iff a b = ground (
  arith,
  string_eq.eqb_iff a.id b.id,
  check_status_beq_iff a.status b.status,
  string_eq.eqb_iff a.message b.message,
  list_beq_iff a.evidence b.evidence,
)

instance abbrev pub check_eq : Comparable PackageHardeningCheck
check_eq = record { eqb = check_beq; eqb_iff = check_beq_iff }

abbrev pub checked_ids : List PackageHardeningCheck → List String
checked_ids [] = []
checked_ids (c ∷ cs) = c.id ∷ checked_ids cs

-- `PackageHardeningReceipt`
unfoldable pub hardening_ok : PackageHardeningReceipt → Bool
hardening_ok r =
    not (is_empty r.hardening_checks)
    && paths_ok r.included_files
    && all_distinct (checked_ids r.hardening_checks)
    && (list_beq r.blockers (filter is_blocker r.hardening_checks)
        && list_beq r.warnings (filter is_warning r.hardening_checks))
    && nat_eq r.file_count (length r.included_files)
    && (if r.status_blocked
        then not (is_empty (filter is_blocker r.hardening_checks))
          && (if is_built r.build_status
              then not (is_none r.candidate) && not (is_none r.package_digest)
              else is_none r.package_digest)
        else is_empty (filter is_blocker r.hardening_checks)
          && is_built r.build_status
          && not (is_none r.candidate)
          && not (is_none r.package_digest))

module _ (lower : List ℕ → List ℕ) (show_nat : ℕ → String) (h : Hash) where
  unfoldable pub validated_hardening : PackageHardeningReceipt → Option PackageHardeningReceipt
  validated_hardening r = if hardening_ok r then some r else none

  unfoldable pub harden_skill_package :
      PackageReceipt → PackageHardeningPolicy → Option PackageHardeningReceipt
  unfolding validated_hardening
  harden_skill_package receipt policy =
      if receipt_ok h receipt
      then validated_hardening (hardening_of lower show_nat receipt policy)
      else none
