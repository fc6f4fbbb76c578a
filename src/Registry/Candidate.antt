-- ===== src/Registry/Candidate.antt =====
-- `prepare_private_registry_candidate` of src/skills_sdk/distribution/private_registry.py: it
-- validates its three arguments and the receipt that it returns. `none` is the exception of a
-- validator or of an assertion.
use skills_sdk.Prelude.{◌&&◌, Option, none, some, if◌then◌else◌}
use skills_sdk.Json.{Hash}
use skills_sdk.Packaging.{PackageReceipt}
use skills_sdk.Packaging.Validation.{receipt_ok}
use skills_sdk.Hardening.{PackageHardeningReceipt}
use skills_sdk.Hardening.Contract.{hardening_ok}
use skills_sdk.Registry.Models.{RegistryPreparationRequest, RegistryPreparationReceipt}
use skills_sdk.Registry.Validation.{request_ok, preparation_ok}
use skills_sdk.Registry.Prepare.{preparation_of}

module _ (h : Hash) where
  unfoldable pub validated_preparation :
      Option RegistryPreparationReceipt → Option RegistryPreparationReceipt
  validated_preparation none = none
  validated_preparation (some r) = if preparation_ok r then some r else none

  unfoldable pub prepare_private_registry_candidate :
      PackageReceipt
      → PackageHardeningReceipt
      → RegistryPreparationRequest
      → Option RegistryPreparationReceipt
  unfolding validated_preparation
  prepare_private_registry_candidate pkg hardening request =
      if receipt_ok h pkg && hardening_ok hardening && request_ok request
      then validated_preparation (preparation_of h pkg hardening request)
      else none
