-- ===== src/Evaluation/Coverage/Laws.antt =====
-- What an audit without findings means.
use skills_sdk.Packaging.Validation.{is_empty, is_subset, is_subset_iff}
use skills_sdk.Evaluation.Coverage.{
  ScenarioCoveragePlan, ClaimCoverage, ScenarioQualityFinding, claim_ids, declared_gaps, mapped_ids,
  used_gaps, finding_if, same_set, mapping_invalid, mapping_findings, declaration_findings,
  inactive_findings, audit,
}
use skills_sdk.Prelude.{
  Bool, true, false, not, ◌&&◌, ◌||◌, List, [], ◌∷◌, ◌++◌, String, ◌≡◌, ◌↔◌, refl, In, All,
  IsUnique, all_distinct, all_distinct_iff, contains_iff, arith, string_eq,
}

-- Two lists have the same members.
abbrev pub SameMembers : List String → List String → Type 0
SameMembers xs ys = All (λ x. In x ys) xs × All (λ y. In y xs) ys

-- A mapping leads a declared claim to distinct active cases, or distinct declared gaps, or both.
pub record IsCovering (plan : ScenarioCoveragePlan) (active : List String) (m : ClaimCoverage)
    : Type 0 where
  pub leads : (is_empty m.case_ids && is_empty m.gap_ids) ≡ false
  pub declared : In m.claim_id (claim_ids plan.claims)
  pub cases : IsUnique m.case_ids
  pub gaps : IsUnique m.gap_ids
  pub known : All (λ g. In g (declared_gaps plan.gaps)) m.gap_ids
  pub running : All (λ c. In c active) m.case_ids

-- A complete plan: every claim is mapped once and every gap is used.
pub record IsComplete (plan : ScenarioCoveragePlan) (active : List String) : Type 0 where
  pub claims : IsUnique (claim_ids plan.claims)
  pub gaps : IsUnique (declared_gaps plan.gaps)
  pub mapped_once : IsUnique (mapped_ids plan.mappings)
  pub mappings : All (IsCovering plan active) plan.mappings
  pub used : SameMembers (used_gaps plan.mappings) (declared_gaps plan.gaps)
  pub mapped : SameMembers (mapped_ids plan.mappings) (claim_ids plan.claims)

same_set_iff : (xs ys : List String) → (same_set xs ys ≡ true) ↔ SameMembers xs ys
unfolding same_set
same_set_iff xs ys = ground (arith, is_subset_iff xs ys, is_subset_iff ys xs)

append-nil_iff : (xs ys : List ScenarioQualityFinding) → ((xs ++ ys) ≡ []) ↔ ((xs ≡ []) × (ys ≡ []))
append-nil_iff [] ys = (λ e. (refl, e), λ e. e.1)
append-nil_iff (x ∷ xs) ys = (λ e. cc, λ e. cc)

finding_if-nil :
    (wrong : Bool) (code message : String) → (finding_if wrong code message ≡ []) ↔ (wrong ≡ false)
finding_if-nil true code message = (λ e. cc, λ e. cc)
finding_if-nil false code message = (λ e. refl, λ e. refl)

of_not-false : (b : Bool) → not b ≡ false → b ≡ true
of_not-false b h = ground arith

module _ (plan : ScenarioCoveragePlan) (active : List String) where
  mapping_tests :
      (m : ClaimCoverage)
      → ((mapping_invalid plan m ≡ false) × (is_subset m.case_ids active ≡ true))
        ↔ IsCovering plan active m
  unfolding mapping_invalid
  mapping_tests m = (
    λ h. record {
      leads = ground arith;
      declared = (contains_iff m.claim_id (claim_ids plan.claims)).0 (ground arith);
      cases = (all_distinct_iff m.case_ids).0 (ground arith);
      gaps = (all_distinct_iff m.gap_ids).0 (ground arith);
      known = (is_subset_iff m.gap_ids (declared_gaps plan.gaps)).0 (ground arith);
      running = (is_subset_iff m.case_ids active).0 h.1;
    },
    λ c.
        let declared = (contains_iff m.claim_id (claim_ids plan.claims)).1 c.declared in
        let cases = (all_distinct_iff m.case_ids).1 c.cases in
        let gaps = (all_distinct_iff m.gap_ids).1 c.gaps in
        let known = (is_subset_iff m.gap_ids (declared_gaps plan.gaps)).1 c.known in
        (
          rw (c.leads, declared, cases, gaps, known) refl,
          (is_subset_iff m.case_ids active).1 c.running,
        ),
  )

  mappings_iff :
      (ms : List ClaimCoverage)
      → ((mapping_findings plan ms ≡ []) × (inactive_findings active ms ≡ []))
        ↔ All (IsCovering plan active) ms
  unfolding mapping_findings inactive_findings
  mappings_iff [] = (λ h. tt, λ h. (refl, refl))
  mappings_iff (m ∷ ms) = (
    λ h.
        let first = (append-nil_iff _ (mapping_findings plan ms)).0 h.0 in
        let second = (append-nil_iff _ (inactive_findings active ms)).0 h.1 in
        let valid = (finding_if-nil (mapping_invalid plan m) _ _).0 first.0 in
        let running = (finding_if-nil (not (is_subset m.case_ids active)) _ _).0 second.0 in
        (
          (mapping_tests m).0 (valid, of_not-false _ running),
          (mappings_iff ms).0 (first.1, second.1),
        ),
    λ h.
        let (valid, running) = (mapping_tests m).1 h.0 in
        let (later, active_later) = (mappings_iff ms).1 h.1 in
        (rw (valid, later) refl, rw (running, active_later) refl),
  )

  distinct_tests :
      (not (all_distinct (claim_ids plan.claims))
          || not (all_distinct (declared_gaps plan.gaps))
          || not (all_distinct (mapped_ids plan.mappings))
        ≡ false)
      ↔ (IsUnique (claim_ids plan.claims)
          × IsUnique (declared_gaps plan.gaps)
          × IsUnique (mapped_ids plan.mappings))
  distinct_tests = ground (
    arith,
    all_distinct_iff (claim_ids plan.claims),
    all_distinct_iff (declared_gaps plan.gaps),
    all_distinct_iff (mapped_ids plan.mappings),
  )

  -- An audit has no findings exactly when the plan is complete: its ids are distinct, every claim is
  -- mapped to distinct active cases or distinct declared gaps, and every gap is used.
  pub audit_iff : (audit plan active ≡ []) ↔ IsComplete plan active
  unfolding audit declaration_findings
  audit_iff = (
    λ e.
        let (before, inactive) = (append-nil_iff _ (inactive_findings active plan.mappings)).0 e in
        let (declared, unmapped) = (append-nil_iff (declaration_findings plan) _).0 before in
        let (first, unused) = (append-nil_iff _ _).0 declared in
        let (duplicate, invalid) =
          (append-nil_iff _ (mapping_findings plan plan.mappings)).0 first in
        let (claims, gaps, once) = distinct_tests.0 ((finding_if-nil _ _ _).0 duplicate) in
        record {
          claims = claims;
          gaps = gaps;
          mapped_once = once;
          mappings = (mappings_iff plan.mappings).0 (invalid, inactive);
          used = (same_set_iff _ _).0 (of_not-false _ ((finding_if-nil _ _ _).0 unused));
          mapped = (same_set_iff _ _).0 (of_not-false _ ((finding_if-nil _ _ _).0 unmapped));
        },
    λ c.
        let duplicate = distinct_tests.1 (c.claims, c.gaps, c.mapped_once) in
        let (invalid, inactive) = (mappings_iff plan.mappings).1 c.mappings in
        let used = (same_set_iff _ _).1 c.used in
        let mapped = (same_set_iff _ _).1 c.mapped in
        rw (duplicate, invalid, inactive, used, mapped) refl,
  )
