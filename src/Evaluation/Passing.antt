-- ===== src/Evaluation/Passing.antt =====
-- What a passing evaluation says of the observations.
use skills_sdk.Json.{Hash}
use skills_sdk.Packaging.{candidate_eq}
use skills_sdk.Packaging.Validation.{is_subset, is_subset_iff}
use skills_sdk.Evaluation.Models.{
  Doubles, ScenarioCase, ScenarioSet, ScorerProfile, ScorerType, deterministic, ScenarioObservation,
  ScenarioCaseResult, EvaluationReceipt, Verdict, pass, is_blocked, is_deterministic,
  observation_ids,
}
use skills_sdk.Evaluation.Deterministic.{
  is_blank_text, evaluate_case, evaluate_cases, observation_of, completed_probes, probe_failure,
  observation_failure, is_bound_to, evaluate_scenario_set, receipt_of_results, blocked_evaluation,
  scored_evaluation, passed_count,
}
use skills_sdk.Evaluation.Cases.{IsMet, evaluate_case_iff}
use skills_sdk.Evaluation.Receipts.{observation_of-In, probe_failure-none}
use mathlib.Core.Option.{some-injective}
use skills_sdk.Prelude.{
  contains, filter, any-false, all_distinct_iff, all_distinct, ◌≢◌, string_eq, true, false, not,
  Option, none, some, List, [], ◌∷◌, String, ◌≡◌, refl, In, All, IsUnique, arith, any, ◌↔◌, subst,
  length,
}

-- The relation between two lists of one length, place by place.
abbrev pub Paired : {A B : Type 0} → (A → B → Type 0) → List A → List B → Type 0
Paired P [] [] = Unit
Paired P [] (y ∷ ys) = ⊥
Paired P (x ∷ xs) [] = ⊥
Paired P (x ∷ xs) (y ∷ ys) = P x y × Paired P xs ys

-- The result of a case comes from an observation of it, and passes exactly when that meets it.
pub record IsJudged (os : List ScenarioObservation) (case : ScenarioCase) (r : ScenarioCaseResult)
    : Type 0 where
  pub observation : ScenarioObservation
  pub observed : In observation os
  pub same_case : observation.case_id ≡ case.case_id
  pub verdict : (r.status ≡ pass) ↔ IsMet case observation

module _ (os : List ScenarioObservation) where
  evaluate_cases-IsJudged :
      (cs : List ScenarioCase) (rs : List ScenarioCaseResult)
      → evaluate_cases cs os ≡ some rs
      → Paired (IsJudged os) cs rs
  unfolding evaluate_cases
  evaluate_cases-IsJudged [] rs e = subst (λ t. Paired (IsJudged os) [] t) (some-injective _ _ e) tt
  evaluate_cases-IsJudged (c ∷ cs) rs e =
      observed (observation_of c.case_id os) refl e (evaluate_cases-IsJudged cs)
    where
      Later : Type 0
      Later =
          (later : List ScenarioCaseResult)
          → evaluate_cases cs os ≡ some later
          → Paired (IsJudged os) cs later

      joined :
          (r : ScenarioCaseResult)
          → IsJudged os c r
          → (found : Option (List ScenarioCaseResult)) → evaluate_cases cs os ≡ found
          → elim found [ none ↦ none | some results ↦ some (r ∷ results) ] ≡ some rs
          → Later
          → Paired (IsJudged os) (c ∷ cs) rs
      joined r j none p e later = cc
      joined r j (some results) p e later =
          subst (λ t. Paired (IsJudged os) (c ∷ cs) t) (some-injective _ _ e) (j, later results p)

      judged :
          (o : ScenarioObservation)
          → In o os × (o.case_id ≡ c.case_id)
          → (found : Option ScenarioCaseResult) → evaluate_case c o ≡ found
          → elim found [
            | none ↦ none
            | some r ↦ elim (evaluate_cases cs os) [
              | none ↦ none
              | some results ↦ some (r ∷ results)
            ]
          ]
            ≡ some rs
          → Later
          → Paired (IsJudged os) (c ∷ cs) rs
      judged o m none p e later = cc
      judged o m (some r) p e later =
          joined r
            (record {
              observation = o;
              observed = m.0;
              same_case = m.1;
              verdict = evaluate_case_iff c o r p;
            })
            (evaluate_cases cs os) refl e later

      observed :
          (found : Option ScenarioObservation)
          → observation_of c.case_id os ≡ found
          → elim found [
            | none ↦ none
            | some o ↦ elim (evaluate_case c o) [
              | none ↦ none
              | some r ↦ elim (evaluate_cases cs os) [
                | none ↦ none
                | some results ↦ some (r ∷ results)
              ]
            ]
          ]
            ≡ some rs
          → Later
          → Paired (IsJudged os) (c ∷ cs) rs
      observed none p e later = cc
      observed (some o) p e later =
          judged o (observation_of-In c.case_id os o p) (evaluate_case c o) refl e later

-- What has to hold of an evaluation that passes.
pub record IsPassed (f : Doubles) (set : ScenarioSet) (os : List ScenarioObservation)
    (scorer : ScorerProfile) (supplied : List String) (r : EvaluationReceipt) : Type 0 where
  pub same_candidate : scorer.candidate ≡ set.candidate
  pub local : scorer.scorer_type ≡ deterministic
  pub probes_named : All (λ p. is_blank_text p ≡ false) supplied
  pub probes_distinct : IsUnique supplied
  pub probes_declared : All (λ p. In p scorer.calibration_probe_ids) supplied
  pub probes_complete :
      scorer.calibration_required ≡ true → All (λ p. In p supplied) scorer.calibration_probe_ids
  pub probes_recorded :
      r.completed_calibration_probe_ids
      ≡ filter (λ p. contains p supplied) scorer.calibration_probe_ids
  pub one_each : IsUnique (observation_ids os)
  pub bound :
      All (λ o. (o.candidate ≡ set.candidate) × (o.scenario_set_id ≡ set.scenario_set_id)) os
  pub judged : Paired (IsJudged os) set.cases r.case_results
  pub decided : All (λ c. c.status ≢ Verdict.blocked) r.case_results
  pub reached :
      f.at_least
        (f.divide (passed_count r.case_results) (length r.case_results))
        scorer.pass_threshold
      ≡ true

deterministic_of : (t : ScorerType) → is_deterministic t ≡ true → t ≡ deterministic
deterministic_of t h = ground arith

probe_tests :
    (set : ScenarioSet) (scorer : ScorerProfile) (supplied : List String)
    → probe_failure set scorer supplied ≡ none
    → (any is_blank_text supplied ≡ false)
      × (all_distinct supplied ≡ true)
      × (is_subset supplied scorer.calibration_probe_ids ≡ true)
      × (scorer.calibration_required ≡ true
          → is_subset scorer.calibration_probe_ids supplied ≡ true)
unfolding probe_failure
probe_tests set scorer supplied e =
    (ground arith, ground arith, ground arith, λ required. ground arith)

observation_tests :
    (set : ScenarioSet) (os : List ScenarioObservation) (probes : List String)
    → observation_failure set os probes ≡ none
    → (all_distinct (observation_ids os) ≡ true) × (any (λ o. not (is_bound_to set o)) os ≡ false)
unfolding observation_failure
observation_tests set os probes e = (ground arith, ground arith)

all_bound :
    (set : ScenarioSet) (os : List ScenarioObservation)
    → any (λ o. not (is_bound_to set o)) os ≡ false
    → All (λ o. (o.candidate ≡ set.candidate) × (o.scenario_set_id ≡ set.scenario_set_id)) os
all_bound set [] e = tt
all_bound set (o ∷ os) e =
    let here : is_bound_to set o ≡ true = ground arith in
    (
      (
        ground (arith, candidate_eq.eqb_iff o.candidate set.candidate),
        ground (arith, string_eq.eqb_iff o.scenario_set_id set.scenario_set_id),
      ),
      all_bound set os (ground arith),
    )

none_blocked :
    (rs : List ScenarioCaseResult)
    → any (λ r. is_blocked r.status) rs ≡ false
    → All (λ c. c.status ≢ Verdict.blocked) rs
none_blocked [] e = tt
none_blocked (r ∷ rs) e = (λ b. ground arith, none_blocked rs (ground arith))

module _ (h : Hash) (f : Doubles) (set : ScenarioSet) (os : List ScenarioObservation)
    (scorer : ScorerProfile) (supplied : List String) where
  pass_guards :
      (r : EvaluationReceipt)
      → evaluate_scenario_set h f set os scorer supplied ≡ some r
      → r.status ≡ pass
      → (probe_failure set scorer supplied ≡ none)
        × (observation_failure set os (completed_probes scorer supplied) ≡ none)
        × (evaluate_cases set.cases os ≡ some r.case_results)
        × (any (λ c. is_blocked c.status) r.case_results ≡ false)
        × (f.at_least
              (f.divide (passed_count r.case_results) (length r.case_results))
              scorer.pass_threshold
            ≡ true)
        × (r.completed_calibration_probe_ids ≡ completed_probes scorer supplied)
  unfolding evaluate_scenario_set receipt_of_results blocked_evaluation scored_evaluation
  pass_guards r e p = ground arith

  -- A receipt passes only if the scorer is deterministic and of the set's candidate; the supplied
  -- probes are named, distinct and declared by the scorer, all of the declared ones where calibration
  -- is required, and the receipt records them in the scorer's order; the observations name each case
  -- once and are bound to the set; every case has a result that passes exactly when its observation
  -- meets the case, no result is blocked, and the share of passing results reaches the threshold.
  pub evaluate_scenario_set-IsPassed :
      (r : EvaluationReceipt)
      → evaluate_scenario_set h f set os scorer supplied ≡ some r
      → r.status ≡ pass
      → IsPassed f set os scorer supplied r
  evaluate_scenario_set-IsPassed r e p =
      let (probes, observations, results, decided, reached, recorded) = pass_guards r e p in
      let (bound, det, needed) = probe_failure-none set scorer supplied probes in
      let (named, unique, declared, complete) = probe_tests set scorer supplied probes in
      let (distinct, owned) = observation_tests set os _ observations in
      record {
        same_candidate = (candidate_eq.eqb_iff scorer.candidate set.candidate).0 bound;
        local = deterministic_of scorer.scorer_type det;
        probes_named = (any-false is_blank_text supplied).0 named;
        probes_distinct = (all_distinct_iff supplied).0 unique;
        probes_declared = (is_subset_iff supplied scorer.calibration_probe_ids).0 declared;
        probes_complete =
            λ required. (is_subset_iff scorer.calibration_probe_ids supplied).0 (complete required);
        probes_recorded = recorded;
        one_each = (all_distinct_iff (observation_ids os)).0 distinct;
        bound = all_bound set os owned;
        judged = evaluate_cases-IsJudged os set.cases r.case_results results;
        decided = none_blocked r.case_results decided;
        reached = reached;
      }
