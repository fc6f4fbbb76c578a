-- ===== src/Evaluation/Order.antt =====
-- The order in which the observations are supplied does not matter.
use skills_sdk.Json.{Hash}
use skills_sdk.Packaging.Validation.{is_subset, is_subset_iff}
use skills_sdk.Evaluation.Models.{
  Doubles, ScenarioCase, ScenarioSet, ScorerProfile, ScenarioObservation, observation_ids, case_ids,
}
use skills_sdk.Evaluation.Deterministic.{
  evaluate_case, evaluate_cases, observation_of, completed_probes, Stop, probe_failure,
  observation_failure, is_bound_to, evaluate_scenario_set,
}
use skills_sdk.Prelude.{
  All-map, Bool, true, false, not, Option, none, some, List, [], ◌∷◌, String, ◌≡◌, refl, sym, In,
  IsUnique, arith, inl, inr, any, ◌↔◌, ◌∙◌, string_eq, all_distinct, all_distinct_iff,
}

-- The same observations in another order.
pub data Rearranged : List ScenarioObservation → List ScenarioObservation → Type 0 where
  same : (os : List ScenarioObservation) → Rearranged os os
  later :
      (o : ScenarioObservation) {os ps : List ScenarioObservation}
      → Rearranged os ps
      → Rearranged (o ∷ os) (o ∷ ps)
  swap :
      (o p : ScenarioObservation) (os : List ScenarioObservation)
      → Rearranged (o ∷ p ∷ os) (p ∷ o ∷ os)
  after :
      {os ps qs : List ScenarioObservation} → Rearranged os ps → Rearranged ps qs → Rearranged os qs

ids_of_Rearranged :
    (id : String) {os ps : List ScenarioObservation}
    → Rearranged os ps
    → In id (observation_ids os) ↔ In id (observation_ids ps)
ids_of_Rearranged id (same os) = (λ m. m, λ m. m)
ids_of_Rearranged id (later o r) =
    let (forth, back) = ids_of_Rearranged id r in
    (
      λ m. elim m [ inl e ↦ inl e | inr n ↦ inr (forth n) ],
      λ m. elim m [ inl e ↦ inl e | inr n ↦ inr (back n) ],
    )
ids_of_Rearranged id (swap o p os) = (
  λ m. elim m [ inl e ↦ inr (inl e) | inr (inl e) ↦ inl e | inr (inr n) ↦ inr (inr n) ],
  λ m. elim m [ inl e ↦ inr (inl e) | inr (inl e) ↦ inl e | inr (inr n) ↦ inr (inr n) ],
)
ids_of_Rearranged id (after r s) =
    let (forth, back) = ids_of_Rearranged id r in
    let (forth', back') = ids_of_Rearranged id s in (λ m. forth' (forth m), λ m. back (back' m))

IsUnique-Rearranged :
    {os ps : List ScenarioObservation}
    → Rearranged os ps
    → IsUnique (observation_ids os) ↔ IsUnique (observation_ids ps)
IsUnique-Rearranged (same os) = (λ u. u, λ u. u)
IsUnique-Rearranged (later o r) =
    let (forth, back) = IsUnique-Rearranged r in
    let (here, there) = ids_of_Rearranged o.case_id r in
    (λ u. (λ m. u.0 (there m), forth u.1), λ u. (λ m. u.0 (here m), back u.1))
IsUnique-Rearranged (swap o p os) = (swapped o p os, swapped p o os)
  where
    swapped :
        (o p : ScenarioObservation) (os : List ScenarioObservation)
        → IsUnique (observation_ids (o ∷ p ∷ os))
        → IsUnique (observation_ids (p ∷ o ∷ os))
    swapped o p os u =
        (λ m. elim m [ inl e ↦ u.0 (inl (sym e)) | inr n ↦ u.1.0 n ], (λ n. u.0 (inr n), u.1.1))
IsUnique-Rearranged (after r s) =
    let (forth, back) = IsUnique-Rearranged r in
    let (forth', back') = IsUnique-Rearranged s in (λ u. forth' (forth u), λ u. back (back' u))

bool_same : (a b : Bool) → (a ≡ true → b ≡ true) → (b ≡ true → a ≡ true) → a ≡ b
bool_same true true f g = refl
bool_same true false f g = sym (f refl)
bool_same false true f g = g refl
bool_same false false f g = refl

distinct-Rearranged :
    {os ps : List ScenarioObservation}
    → Rearranged os ps
    → all_distinct (observation_ids os) ≡ all_distinct (observation_ids ps)
distinct-Rearranged {os} {ps} r =
    let (forth, back) = IsUnique-Rearranged r in
    bool_same _ _
      (λ h.
        (all_distinct_iff (observation_ids ps)).1
          (forth ((all_distinct_iff (observation_ids os)).0 h)))
      (λ h.
        (all_distinct_iff (observation_ids os)).1
          (back ((all_distinct_iff (observation_ids ps)).0 h)))

covers-Rearranged :
    (xs : List String) {os ps : List ScenarioObservation}
    → Rearranged os ps
    → is_subset xs (observation_ids os) ≡ is_subset xs (observation_ids ps)
covers-Rearranged xs {os} {ps} r =
    bool_same _ _
      (λ h. (is_subset_iff xs (observation_ids ps)).1 (
        All-map _ _ xs (λ x m. (ids_of_Rearranged x r).0 m)
          ((is_subset_iff xs (observation_ids os)).0 h)))
      (λ h. (is_subset_iff xs (observation_ids os)).1 (
        All-map _ _ xs (λ x m. (ids_of_Rearranged x r).1 m)
          ((is_subset_iff xs (observation_ids ps)).0 h)))

covered-Rearranged :
    (xs : List String) {os ps : List ScenarioObservation}
    → Rearranged os ps
    → is_subset (observation_ids os) xs ≡ is_subset (observation_ids ps) xs
unfolding is_subset
covered-Rearranged xs (same os) = refl
covered-Rearranged xs (later o r) = rw (covered-Rearranged xs r)
covered-Rearranged xs (swap o p os) = ground arith
covered-Rearranged xs (after r s) = covered-Rearranged xs r ∙ covered-Rearranged xs s

any-Rearranged :
    (t : ScenarioObservation → Bool) {os ps : List ScenarioObservation}
    → Rearranged os ps
    → any t os ≡ any t ps
any-Rearranged t (same os) = refl
any-Rearranged t (later o r) = rw (any-Rearranged t r)
any-Rearranged t (swap o p os) = ground arith
any-Rearranged t (after r s) = any-Rearranged t r ∙ any-Rearranged t s

found-Rearranged :
    (id : String) {os ps : List ScenarioObservation}
    → Rearranged os ps
    → IsUnique (observation_ids os)
    → observation_of id os ≡ observation_of id ps
unfolding observation_of
found-Rearranged id (same os) u = refl
found-Rearranged id (later o r) u = rw (found-Rearranged id r u.1)
found-Rearranged id (swap o p os) u =
    ground (arith, string_eq.eqb_iff o.case_id id, string_eq.eqb_iff p.case_id id, u.0)
found-Rearranged id (after r s) u =
    found-Rearranged id r u ∙ found-Rearranged id s ((IsUnique-Rearranged r).0 u)

cases-Rearranged :
    (cs : List ScenarioCase) {os ps : List ScenarioObservation}
    → Rearranged os ps
    → IsUnique (observation_ids os)
    → evaluate_cases cs os ≡ evaluate_cases cs ps
unfolding evaluate_cases
cases-Rearranged [] r u = refl
cases-Rearranged (c ∷ cs) r u =
    let found = found-Rearranged c.case_id r u in
    let rest = cases-Rearranged cs r u in
    λ i. elim (found i) [
      | none ↦ none
      | some o ↦ elim (evaluate_case c o) [
        | none ↦ none
        | some result ↦ elim (rest i) [ none ↦ none | some results ↦ some (result ∷ results) ]
      ]
    ]

failure-Rearranged :
    (set : ScenarioSet) (probes : List String) {os ps : List ScenarioObservation}
    → Rearranged os ps
    → observation_failure set os probes ≡ observation_failure set ps probes
unfolding observation_failure
failure-Rearranged set probes r = rw (
  distinct-Rearranged r,
  covered-Rearranged (case_ids set.cases) r,
  covers-Rearranged (case_ids set.cases) r,
  any-Rearranged (λ o. not (is_bound_to set o)) r,
)

IsUnique-of_failure-none :
    (set : ScenarioSet) (os : List ScenarioObservation) (probes : List String)
    → observation_failure set os probes ≡ none
    → IsUnique (observation_ids os)
unfolding observation_failure
IsUnique-of_failure-none set os probes e = (all_distinct_iff (observation_ids os)).0 (ground arith)

module _ (h : Hash) (f : Doubles) (set : ScenarioSet) (scorer : ScorerProfile)
    (supplied : List String) where
  -- The receipt is the same for the same observations in any other order.
  pub evaluate_scenario_set-Rearranged :
      {os ps : List ScenarioObservation}
      → Rearranged os ps
      → evaluate_scenario_set h f set os scorer supplied
        ≡ evaluate_scenario_set h f set ps scorer supplied
  unfolding evaluate_scenario_set
  evaluate_scenario_set-Rearranged {os} {ps} r = probed (probe_failure set scorer supplied) refl
    where
      Same : Type 0
      Same =
          evaluate_scenario_set h f set os scorer supplied
          ≡ evaluate_scenario_set h f set ps scorer supplied

      observed :
          (found : Option Stop)
          → probe_failure set scorer supplied ≡ none
          → observation_failure set os (completed_probes scorer supplied) ≡ found
          → Same
      observed (some s) clear e =
          let e' = sym (failure-Rearranged set (completed_probes scorer supplied) r) ∙ e in
          rw (clear, e, e', evaluate_scenario_set) refl
      observed none clear e =
          let e' = sym (failure-Rearranged set (completed_probes scorer supplied) r) ∙ e in
          let found = cases-Rearranged set.cases r (IsUnique-of_failure-none set os _ e) in
          rw (clear, e, e', found, evaluate_scenario_set) refl

      probed : (found : Option Stop) → probe_failure set scorer supplied ≡ found → Same
      probed (some s) e = rw (e, evaluate_scenario_set) refl
      probed none e =
          observed (observation_failure set os (completed_probes scorer supplied)) e refl
