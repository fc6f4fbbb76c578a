-- ===== src/Evaluation/Receipts.antt =====
-- Every evaluation of valid inputs ends in a valid receipt.
use skills_sdk.Json.{Hash}
use mathlib.Core.Bool.{false≢true}
use skills_sdk.Packaging.{candidate_eq, list_beq, list_beq_iff}
use skills_sdk.Packaging.Validation.{is_subset_iff, is_empty, is_subset}
use skills_sdk.Evaluation.Models.{
  Doubles, ScenarioCase, ScenarioSet, ScorerProfile, ScenarioObservation, ScenarioCaseResult,
  EvaluationReceipt, case_ids, observation_ids, result_ids, is_blocked, is_deterministic,
}
use skills_sdk.Evaluation.Deterministic.{
  passed_count, evaluate_cases, observation_of, inside, completed_probes, Stop, probe_failure,
  observation_failure, is_bound_to, blocked_evaluation, scored_evaluation,
}
use skills_sdk.Evaluation.Validation.{
  observation_ok, result_ok, evaluation_ok, probes_ok, outcome_ok,
}
use skills_sdk.Evaluation.Cases.{evaluate_case_total}
use skills_sdk.Prelude.{
  length, ℕ, ◌⊎◌, subst, filter-IsUnique, all_distinct_iff, all_distinct, All-map, filter_keep,
  In-filter, Bool-cases, All_of_In, filter_same, All-In, ◌∙◌, true, false, not, ◌&&◌, ◌||◌, Option,
  none, some, List, [], ◌∷◌, String, string_eq, option_eq, contains, all, any, ◌≡◌, ◌≢◌, refl, sym,
  In, All, IsUnique, contains_iff, arith, inl, inr, all_iff, ◌==◌,
}

pub observation_of-In :
    (id : String) (os : List ScenarioObservation) (o : ScenarioObservation)
    → observation_of id os ≡ some o
    → In o os × (o.case_id ≡ id)
unfolding observation_of
observation_of-In id [] o e = cc
observation_of-In id (p ∷ os) o e =
    ground (arith, observation_of-In id os o, string_eq.eqb_iff p.case_id id)

observation_of_present :
    (id : String) (os : List ScenarioObservation)
    → In id (observation_ids os)
    → observation_of id os ≢ none
unfolding observation_of
observation_of_present id [] m = absurd m
observation_of_present id (p ∷ os) m =
    λ e. ground (arith, observation_of_present id os, string_eq.eqb_iff p.case_id id)

module _ (set : ScenarioSet) where
  abbrev pub IsResultOf : ScenarioCaseResult → Type 0
  IsResultOf r =
      (result_ok r ≡ true)
      × (r.candidate ≡ set.candidate)
      × (r.scenario_set_id ≡ set.scenario_set_id)

  abbrev pub IsUsable : ScenarioObservation → Type 0
  IsUsable o =
      (observation_ok o ≡ true)
      × (o.candidate ≡ set.candidate)
      × (o.scenario_set_id ≡ set.scenario_set_id)

module _ (set : ScenarioSet) (os : List ScenarioObservation) where
  pub evaluate_cases_total :
      (cs : List ScenarioCase)
      → All (λ id. In id (observation_ids os)) (case_ids cs)
      → All (IsUsable set) os
      → (rs : List ScenarioCaseResult) × (evaluate_cases cs os ≡ some rs)
        × (result_ids rs ≡ case_ids cs)
        × All (IsResultOf set) rs
  unfolding evaluate_cases
  evaluate_cases_total [] covered usable = ([], refl, refl, tt)
  evaluate_cases_total (c ∷ cs) covered usable =
      go (observation_of c.case_id os) refl (evaluate_cases_total cs covered.1 usable)
    where
      go :
          (found : Option ScenarioObservation)
          → observation_of c.case_id os ≡ found
          → ((rs : List ScenarioCaseResult) × (evaluate_cases cs os ≡ some rs)
              × (result_ids rs ≡ case_ids cs)
              × All (IsResultOf set) rs)
          → (rs : List ScenarioCaseResult) × (evaluate_cases (c ∷ cs) os ≡ some rs)
            × (result_ids rs ≡ case_ids (c ∷ cs))
            × All (IsResultOf set) rs
      go none e later = absurd (observation_of_present c.case_id os covered.0 e)
      go (some o) e (rs, done, named, valid) =
          let (ok, candidate, bound) =
            All-In (IsUsable set) o os usable (observation_of-In c.case_id os o e).0 in
          let (r, evaluated, fine, same, from, within) = evaluate_case_total c o ok in
          (
            r ∷ rs,
            rw (e, evaluated, done, evaluate_cases) refl,
            rw (same, named) refl,
            ((fine, from ∙ candidate, within ∙ bound), valid),
          )

inside_again : (xs ys : List String) → inside xs (inside xs ys) ≡ inside xs ys
inside_again xs ys = filter_same _ _ xs (All_of_In _ xs agree)
  where
    agree : (x : String) → In x xs → contains x (inside xs ys) ≡ contains x ys
    agree x m = elim (Bool-cases (contains x ys)) [
      | inl there ↦ (contains_iff x (inside xs ys)).1 ((In-filter _ x xs).1 (m, there)) ∙ sym there
      | inr gone ↦ elim (Bool-cases (contains x (inside xs ys))) [
        | inl kept ↦ absurd (
            false≢true
              (sym gone ∙ ((In-filter _ x xs).0 ((contains_iff x (inside xs ys)).0 kept)).1))
        | inr dropped ↦ dropped ∙ sym gone
      ]
    ]

inside_all : (xs ys : List String) → All (λ x. In x ys) xs → inside xs ys ≡ xs
inside_all xs ys h =
    filter_keep _ xs (All-map (λ x. In x ys) _ xs (λ x m. (contains_iff x ys).1 m) h)

-- What a receipt says of its probes, when they are the declared ones that were supplied.
pub probes_ok_of :
    (r : EvaluationReceipt) (supplied : List String)
    → IsUnique r.scorer.calibration_probe_ids
    → r.completed_calibration_probe_ids ≡ completed_probes r.scorer supplied
    → (is_blocked r.status ≡ false
        → r.scorer.calibration_required ≡ true
        → is_subset r.scorer.calibration_probe_ids supplied ≡ true)
    → probes_ok r ≡ true
unfolding probes_ok
probes_ok_of r supplied u same needed =
    let declared = r.scorer.calibration_probe_ids in
    let done = inside declared supplied in
    let distinct : all_distinct done ≡ true =
      (all_distinct_iff done).1 (filter-IsUnique _ declared u) in
    let declares : is_subset done declared ≡ true =
      (is_subset_iff done declared).1 (All_of_In _ done λ x m. ((In-filter _ x declared).0 m).0) in
    let ordered : list_beq done (inside declared done) ≡ true =
      (list_beq_iff done (inside declared done)).1 (sym (inside_again declared supplied)) in
    rw (same, distinct, declares, ordered)
      (elim (Bool-cases (is_blocked r.status)) [
        | inl stopped ↦ rw stopped refl
        | inr ended ↦ elim (Bool-cases r.scorer.calibration_required) [
          | inr free ↦ rw (ended, free) refl
          | inl bound ↦
              let complete : is_subset declared done ≡ true =
                subst (λ t. is_subset declared t ≡ true)
                  (sym (
                    inside_all declared supplied
                      ((is_subset_iff declared supplied).0 (needed ended bound))))
                  ((is_subset_iff declared declared).1 (All_of_In _ declared λ x m. m)) in
              rw (ended, bound, complete) refl
        ]
      ])

-- What the guards let through, and what they stop with.
pub probe_failure-some :
    (set : ScenarioSet) (scorer : ScorerProfile) (supplied : List String) (s : Stop)
    → probe_failure set scorer supplied ≡ some s
    → (((scorer.candidate == set.candidate) || (s.reason.code == "scorer_candidate_mismatch"))
        ≡ true)
      × ((s.probes ≡ []) ⊎ (s.probes ≡ completed_probes scorer supplied))
unfolding probe_failure
probe_failure-some set scorer supplied s e =
    ground (arith, string_eq.eqb_iff s.reason.code "scorer_candidate_mismatch")

pub probe_failure-none :
    (set : ScenarioSet) (scorer : ScorerProfile) (supplied : List String)
    → probe_failure set scorer supplied ≡ none
    → ((scorer.candidate == set.candidate) ≡ true)
      × (is_deterministic scorer.scorer_type ≡ true)
      × (scorer.calibration_required ≡ true
          → is_subset scorer.calibration_probe_ids supplied ≡ true)
unfolding probe_failure
probe_failure-none set scorer supplied e = (ground arith, ground arith, λ c. ground arith)

pub observation_failure-some :
    (set : ScenarioSet) (os : List ScenarioObservation) (probes : List String) (s : Stop)
    → observation_failure set os probes ≡ some s
    → s.probes ≡ probes
unfolding observation_failure
observation_failure-some set os probes s e = ground arith

pub observation_failure-none :
    (set : ScenarioSet) (os : List ScenarioObservation) (probes : List String)
    → observation_failure set os probes ≡ none
    → (is_subset (case_ids set.cases) (observation_ids os) ≡ true)
      × (any (λ o. not (is_bound_to set o)) os ≡ false)
unfolding observation_failure
observation_failure-none set os probes e = (ground arith, ground arith)

-- A receipt that a guard stops with.
pub stopped_ok :
    (h : Hash) (f : Doubles) (set : ScenarioSet) (scorer : ScorerProfile) (s : Stop)
    → ((scorer.candidate == set.candidate) || (s.reason.code == "scorer_candidate_mismatch")) ≡ true
    → probes_ok (blocked_evaluation h f set scorer s []) ≡ true
    → evaluation_ok f (blocked_evaluation h f set scorer s []) ≡ true
unfolding evaluation_ok blocked_evaluation outcome_ok all_distinct
stopped_ok h f set scorer s bound probes = ground arith

module _ (h : Hash) (f : Doubles) (set : ScenarioSet) (scorer : ScorerProfile)
    (rs : List ScenarioCaseResult) (bound : (scorer.candidate == set.candidate) ≡ true)
    (distinct : all_distinct (result_ids rs) ≡ true) (valid : All (IsResultOf set) rs) where
  bound_results :
      all (λ r. r.candidate == set.candidate && r.scenario_set_id == set.scenario_set_id) rs ≡ true
  bound_results = (all_iff _ rs).1 (
      All-map (IsResultOf set) _ rs
        (λ r v. ground (
          arith,
          candidate_eq.eqb_iff r.candidate set.candidate,
          string_eq.eqb_iff r.scenario_set_id set.scenario_set_id,
          v.1,
          v.2,
        ))
        valid)

  valid_results : all result_ok rs ≡ true
  valid_results = (all_iff result_ok rs).1 (All-map (IsResultOf set) _ rs (λ r v. v.0) valid)

  pub blocked_evaluation_ok :
      (s : Stop)
      → probes_ok (blocked_evaluation h f set scorer s rs) ≡ true
      → evaluation_ok f (blocked_evaluation h f set scorer s rs) ≡ true
  unfolding evaluation_ok blocked_evaluation outcome_ok
  blocked_evaluation_ok s fine = rw (bound, distinct, bound_results, valid_results, fine) refl

  pub scored_evaluation_ok :
      (probes : List String)
      → ((m n : ℕ) → f.equal (f.divide m n) (f.divide m n) ≡ true)
      → is_deterministic scorer.scorer_type ≡ true
      → is_empty rs ≡ false
      → any (λ r. is_blocked r.status) rs ≡ false
      → probes_ok (scored_evaluation h f set scorer rs probes) ≡ true
      → evaluation_ok f (scored_evaluation h f set scorer rs probes) ≡ true
  unfolding evaluation_ok scored_evaluation outcome_ok
  scored_evaluation_ok probes same det filled ended fine =
      rw (bound, distinct, bound_results, valid_results, fine)
        (ground (arith, same (passed_count rs) (length rs)))
