-- ===== src/Evaluation/Totality.antt =====
-- `evaluate_scenario_set` as a whole: it never raises on valid inputs, and what a pass says.
use mathlib.Core.Bool.{false≢true}
use skills_sdk.Json.{Hash}
use skills_sdk.Packaging.{candidate_eq}
use skills_sdk.Packaging.Validation.{is_empty, is_subset_iff}
use skills_sdk.Evaluation.Models.{
  Doubles, ScenarioCase, ScenarioSet, ScorerProfile, ScenarioObservation, ScenarioCaseResult,
  EvaluationReceipt, case_ids, result_ids, is_blocked,
}
use skills_sdk.Evaluation.Deterministic.{
  completed_probes, Stop, probe_failure, observation_failure, is_bound_to, evaluate_scenario_set,
  receipt_of_results, blocked_evaluation, scored_evaluation,
}
use skills_sdk.Evaluation.Validation.{
  observation_ok, scenario_set_ok, scorer_ok, evaluation_ok, probes_ok,
}
use skills_sdk.Evaluation.Receipts.{
  IsResultOf, IsUsable, evaluate_cases_total, probes_ok_of, probe_failure-some, probe_failure-none,
  observation_failure-some, observation_failure-none, stopped_ok, blocked_evaluation_ok,
  scored_evaluation_ok,
}
use skills_sdk.Prelude.{
  ◌∙◌, contains, All_of_In, filter-nil, ℕ, true, false, not, Option, none, some, List, [], ◌∷◌,
  String, string_eq, all_distinct, ◌≡◌, refl, sym, All, IsUnique, arith, inl, inr, Bool-cases,
  all_distinct_iff, any,
}

set_facts :
    (set : ScenarioSet)
    → scenario_set_ok set ≡ true
    → (is_empty set.cases ≡ false) × (all_distinct (case_ids set.cases) ≡ true)
unfolding scenario_set_ok
set_facts set ok = (ground arith, ground arith)

scorer_facts :
    (scorer : ScorerProfile) → scorer_ok scorer ≡ true → IsUnique scorer.calibration_probe_ids
unfolding scorer_ok
scorer_facts scorer ok = (all_distinct_iff scorer.calibration_probe_ids).0 (ground arith)

no_probes_ok :
    (h : Hash) (f : Doubles) (set : ScenarioSet) (scorer : ScorerProfile) (s : Stop)
    → IsUnique scorer.calibration_probe_ids
    → s.probes ≡ []
    → probes_ok (blocked_evaluation h f set scorer s []) ≡ true
unfolding blocked_evaluation contains
no_probes_ok h f set scorer s u e =
    probes_ok_of _ [] u
      (e ∙ sym (filter-nil _ scorer.calibration_probe_ids (All_of_In _ _ (λ x m. refl))))
      (λ b c. absurd (false≢true (sym b)))

usable :
    (set : ScenarioSet) (os : List ScenarioObservation)
    → All (λ o. observation_ok o ≡ true) os
    → any (λ o. not (is_bound_to set o)) os ≡ false
    → All (IsUsable set) os
usable set [] ok bound = tt
usable set (o ∷ os) ok bound =
    let here : is_bound_to set o ≡ true = ground arith in
    (
      (
        ok.0,
        ground (arith, candidate_eq.eqb_iff o.candidate set.candidate),
        ground (arith, string_eq.eqb_iff o.scenario_set_id set.scenario_set_id),
      ),
      usable set os ok.1 (ground arith),
    )

filled :
    (cs : List ScenarioCase) (rs : List ScenarioCaseResult)
    → result_ids rs ≡ case_ids cs
    → is_empty cs ≡ false
    → is_empty rs ≡ false
filled [] rs e h = absurd (false≢true (sym h))
filled (c ∷ cs) [] e h = cc
filled (c ∷ cs) (r ∷ rs) e h = refl

module _ (h : Hash) (f : Doubles) (set : ScenarioSet) (os : List ScenarioObservation)
    (scorer : ScorerProfile) (supplied : List String) where
  -- Given results, the receipt is valid.
  finished_ok :
      (rs : List ScenarioCaseResult)
      → ((m n : ℕ) → f.equal (f.divide m n) (f.divide m n) ≡ true)
      → scenario_set_ok set ≡ true
      → scorer_ok scorer ≡ true
      → probe_failure set scorer supplied ≡ none
      → result_ids rs ≡ case_ids set.cases
      → All (IsResultOf set) rs
      → evaluation_ok f (receipt_of_results h f set scorer (completed_probes scorer supplied) rs)
        ≡ true
  unfolding receipt_of_results blocked_evaluation scored_evaluation
  finished_ok rs same set_fine scorer_fine clear named valid =
      let (bound, det, needed) = probe_failure-none set scorer supplied clear in
      let (some_case, unique) = set_facts set set_fine in
      let distinct : all_distinct (result_ids rs) ≡ true = rw named unique in
      let u = scorer_facts scorer scorer_fine in
      elim (Bool-cases (any (λ r. is_blocked r.status) rs)) [
        | inl stopped ↦ rw stopped (
            blocked_evaluation_ok h f set scorer rs bound distinct valid _
              (probes_ok_of _ supplied u (refl) (λ b c. needed c)))
        | inr ended ↦ rw ended (
            scored_evaluation_ok h f set scorer rs bound distinct valid _ same det
              (filled set.cases rs named some_case) ended
              (probes_ok_of _ supplied u (refl) (λ b c. needed c)))
      ]

  stopped_by_probes :
      (s : Stop)
      → scorer_ok scorer ≡ true
      → probe_failure set scorer supplied ≡ some s
      → evaluation_ok f (blocked_evaluation h f set scorer s []) ≡ true
  unfolding blocked_evaluation
  stopped_by_probes s fine e =
      let (bound, probes) = probe_failure-some set scorer supplied s e in
      let u = scorer_facts scorer fine in
      stopped_ok h f set scorer s bound (elim probes [
        | inl no_probes ↦ no_probes_ok h f set scorer s u no_probes
        | inr declared ↦ probes_ok_of _ supplied u declared (λ b c. absurd (false≢true (sym b)))
      ])

  stopped_by_observations :
      (s : Stop)
      → scorer_ok scorer ≡ true
      → probe_failure set scorer supplied ≡ none
      → observation_failure set os (completed_probes scorer supplied) ≡ some s
      → evaluation_ok f (blocked_evaluation h f set scorer s []) ≡ true
  unfolding blocked_evaluation
  stopped_by_observations s fine clear e =
      let (bound, det, needed) = probe_failure-none set scorer supplied clear in
      let declared = observation_failure-some set os _ s e in
      stopped_ok h f set scorer s (rw bound refl)
        (probes_ok_of _ supplied (scorer_facts scorer fine) declared (λ b c. needed c))

  -- On a scenario set, a scorer and observations that their models accept, the evaluation raises
  -- nothing, and the receipt that it returns passes the validators of its model. The hypothesis on
  -- floats is that a quotient equals itself.
  pub evaluate_scenario_set_total :
      ((m n : ℕ) → f.equal (f.divide m n) (f.divide m n) ≡ true)
      → scenario_set_ok set ≡ true
      → scorer_ok scorer ≡ true
      → All (λ o. observation_ok o ≡ true) os
      → (r : EvaluationReceipt) × (evaluate_scenario_set h f set os scorer supplied ≡ some r)
        × (evaluation_ok f r ≡ true)
  unfolding evaluate_scenario_set
  evaluate_scenario_set_total same set_fine scorer_fine valid =
      probes (probe_failure set scorer supplied) refl
    where
      Returned : Type 0
      Returned =
          (r : EvaluationReceipt) × (evaluate_scenario_set h f set os scorer supplied ≡ some r)
          × (evaluation_ok f r ≡ true)

      observed :
          (found : Option Stop)
          → probe_failure set scorer supplied ≡ none
          → observation_failure set os (completed_probes scorer supplied) ≡ found
          → Returned
      observed (some s) clear e = (
        _,
        rw (clear, e, evaluate_scenario_set) refl,
        stopped_by_observations s scorer_fine clear e,
      )
      observed none clear e =
          let (covered, bound) = observation_failure-none set os _ e in
          let (rs, done, named, results) =
            evaluate_cases_total set os set.cases ((is_subset_iff _ _).0 covered)
              (usable set os valid bound) in
          (
            _,
            rw (clear, e, done, evaluate_scenario_set) refl,
            finished_ok rs same set_fine scorer_fine clear named results,
          )

      probes : (found : Option Stop) → probe_failure set scorer supplied ≡ found → Returned
      probes (some s) e = (_, rw (e, evaluate_scenario_set) refl, stopped_by_probes s scorer_fine e)
      probes none e =
          observed (observation_failure set os (completed_probes scorer supplied)) e refl
