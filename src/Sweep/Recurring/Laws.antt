-- ===== src/Sweep/Recurring/Laws.antt =====
-- When a ledger of recurring findings passes.
use mathlib.Core.Bool.{false≢true}
use skills_sdk.Prelude.{
  if◌then◌else◌, All_of_In, subst, ◌∙◌, contains-false, Bool, true, false, not, ◌≡◌, ◌↔◌, refl, sym,
  List, [], ◌∷◌, ◌++◌, String, In, All, IsUnique, all, all_iff, contains, contains_iff,
  all_distinct, all_distinct_iff, string_eq, bool_eq, ◌==◌, arith, inl, inr, Bool-cases,
}
use skills_sdk.Packaging.Validation.{is_empty}
use skills_sdk.Sweep.{fail, pass}
use skills_sdk.Sweep.Recurring.{
  Texts, occurrence_eq, FindingClass, Reading, classes, unreadable, too_deep, schema_errors,
  references, local_evidence_reference_is_safe, occurrence_reference_matches, fingerprint,
  expected_eligible, flag, class_errors, invariant_errors, reference_errors,
  validate_recurring_findings,
}

abbrev pub class_ids : List FindingClass → List String
class_ids [] = []
class_ids (c ∷ cs) = c.finding_class_id ∷ class_ids cs

abbrev pub fingerprints : List FindingClass → List String
fingerprints [] = []
fingerprints (c ∷ cs) = c.fingerprint_sha256 ∷ fingerprints cs

-- What a class has to be by itself.
pub record IsSoundClass (texts : Texts) (c : FindingClass) : Type 0 where
  pub bound : c.fingerprint_sha256 ≡ fingerprint texts c.normalized_invariant
  pub distinct : IsUnique c.occurrences
  pub matching : All (λ o. occurrence_reference_matches texts o ≡ true) c.occurrences
  pub eligible : c.merge_eligible ≡ expected_eligible texts c

-- What a ledger has to be.
pub record IsSound (texts : Texts) (cs : List FindingClass) : Type 0 where
  pub ids : IsUnique (class_ids cs)
  pub prints : IsUnique (fingerprints cs)
  pub each : All (IsSoundClass texts) cs
  pub safe : All (λ c. All (λ r. local_evidence_reference_is_safe r ≡ true) (references c)) cs

append-nil_iff : (xs ys : List String) → (xs ++ ys ≡ []) ↔ ((xs ≡ []) × (ys ≡ []))
append-nil_iff [] ys = (λ e. (refl, e), λ d. d.1)
append-nil_iff (x ∷ xs) ys = (λ e. absurd (ground arith), λ d. absurd (ground arith))

reference_errors-nil_iff :
    (cs : List FindingClass)
    → (reference_errors cs ≡ [])
      ↔ All (λ c. All (λ r. local_evidence_reference_is_safe r ≡ true) (references c)) cs
unfolding reference_errors
reference_errors-nil_iff [] = (λ e. tt, λ h. refl)
reference_errors-nil_iff (c ∷ cs) =
    let (forth, back) = all_iff local_evidence_reference_is_safe (references c) in
    elim (Bool-cases (all local_evidence_reference_is_safe (references c))) [
      | inl safe ↦ rw safe (
        λ e. (forth safe, (reference_errors-nil_iff cs).0 e),
        λ h. (reference_errors-nil_iff cs).1 h.1,
      )
      | inr unsafe ↦
          rw unsafe (λ e. absurd (ground arith), λ h. absurd (false≢true (sym unsafe ∙ back h.0)))
    ]

module _ (texts : Texts) where
  flag-nil_iff : (b : Bool) (m id : String) → (flag texts b m id ≡ []) ↔ (b ≡ false)
  flag-nil_iff true m id = (λ e. absurd (ground arith), λ e. absurd (ground arith))
  flag-nil_iff false m id = (λ e. refl, λ e. refl)

  class_errors-nil_iff :
      (ids prints : List String) (c : FindingClass)
      → (class_errors texts ids prints c ≡ []) ↔ (
          (contains c.finding_class_id ids ≡ false)
          × (contains c.fingerprint_sha256 prints ≡ false)
          × ((c.fingerprint_sha256 == fingerprint texts c.normalized_invariant) ≡ true)
          × (all_distinct c.occurrences ≡ true)
          × (all (occurrence_reference_matches texts) c.occurrences ≡ true)
          × ((c.merge_eligible == expected_eligible texts c) ≡ true))
  unfolding class_errors
  class_errors-nil_iff ids prints c =
      go (contains c.finding_class_id ids) (contains c.fingerprint_sha256 prints)
        (c.fingerprint_sha256 == fingerprint texts c.normalized_invariant)
        (all_distinct c.occurrences) (all (occurrence_reference_matches texts) c.occurrences)
        (c.merge_eligible == expected_eligible texts c) _ _ _ _ _ _ _ _ _ _ _ _
    where
      go :
          (a b p q r s : Bool) (ma ia mb ib mp ip mq iq mr ir ms is : String)
          → (flag texts a ma ia
                ++ flag texts b mb ib
                ++ flag texts (not p) mp ip
                ++ flag texts (not q) mq iq
                ++ flag texts (not r) mr ir
                ++ flag texts (not s) ms is
              ≡ [])
            ↔ ((a ≡ false) × (b ≡ false) × (p ≡ true) × (q ≡ true) × (r ≡ true) × (s ≡ true))
      go a b p q r s ma ia mb ib mp ip mq iq mr ir ms is = ground arith

  class_errors-IsSoundClass :
      (ids prints : List String) (c : FindingClass)
      → (class_errors texts ids prints c ≡ []) ↔ (
          (¬ In c.finding_class_id ids) × (¬ In c.fingerprint_sha256 prints) × IsSoundClass texts c)
  class_errors-IsSoundClass ids prints c =
      let (forth, back) = class_errors-nil_iff ids prints c in
      (
        λ e.
            let (new, fresh, bound, distinct, matching, eligible) = forth e in
            (
              contains-false c.finding_class_id ids new,
              contains-false c.fingerprint_sha256 prints fresh,
              record {
                bound = (string_eq.eqb_iff _ _).0 bound;
                distinct = (all_distinct_iff c.occurrences).0 distinct;
                matching = (all_iff (occurrence_reference_matches texts) c.occurrences).0 matching;
                eligible = (bool_eq.eqb_iff _ _).0 eligible;
              },
            ),
        λ d. back (
          absent c.finding_class_id ids d.0,
          absent c.fingerprint_sha256 prints d.1,
          (string_eq.eqb_iff _ _).1 d.2.bound,
          (all_distinct_iff c.occurrences).1 d.2.distinct,
          (all_iff (occurrence_reference_matches texts) c.occurrences).1 d.2.matching,
          (bool_eq.eqb_iff _ _).1 d.2.eligible,
        ),
      )
    where
      absent : (x : String) (xs : List String) → ¬ In x xs → contains x xs ≡ false
      absent x xs h = elim (Bool-cases (contains x xs)) [
        | inl found ↦ absurd (h ((contains_iff x xs).0 found))
        | inr none_found ↦ none_found
      ]

fresh-cons :
    (x : String) (seen xs : List String)
    → All (λ y. ¬ In y (x ∷ seen)) xs ↔ ((¬ In x xs) × All (λ y. ¬ In y seen) xs)
fresh-cons x seen [] = (λ h. (λ m. m, tt), λ d. tt)
fresh-cons x seen (y ∷ ys) =
    let (forth, back) = fresh-cons x seen ys in
    (
      λ h. (
        λ m. elim m [ inl e ↦ h.0 (inl (sym e)) | inr n ↦ (forth h.1).0 n ],
        (λ m. h.0 (inr m), (forth h.1).1),
      ),
      λ d. (
        λ m. elim m [ inl e ↦ d.0 (inl (sym e)) | inr n ↦ d.1.0 n ],
        back (λ n. d.0 (inr n), d.1.1),
      ),
    )

module _ (texts : Texts) where
  invariant_errors-nil_iff :
      (ids prints : List String) (cs : List FindingClass)
      → (invariant_errors texts ids prints cs ≡ []) ↔ (
          All (λ x. ¬ In x ids) (class_ids cs)
          × IsUnique (class_ids cs)
          × All (λ x. ¬ In x prints) (fingerprints cs)
          × IsUnique (fingerprints cs)
          × All (IsSoundClass texts) cs)
  unfolding invariant_errors
  invariant_errors-nil_iff ids prints [] = (λ e. (tt, tt, tt, tt, tt), λ d. refl)
  invariant_errors-nil_iff ids prints (c ∷ cs) = (
    λ e.
        let (own, later) = (append-nil_iff _ _).0 e in
        let (new, fresh, sound) = (class_errors-IsSoundClass texts ids prints c).0 own in
        let (others, unique, rest, distinct, each) = (invariant_errors-nil_iff _ _ cs).0 later in
        let (apart, old) = (fresh-cons c.finding_class_id ids (class_ids cs)).0 others in
        let (aside, former) = (fresh-cons c.fingerprint_sha256 prints (fingerprints cs)).0 rest in
        ((new, old), (apart, unique), (fresh, former), (aside, distinct), (sound, each)),
    λ d.
        let ((new, old), (apart, unique), (fresh, former), (aside, distinct), (sound, each)) = d in
        (append-nil_iff _ _).1 (
          (class_errors-IsSoundClass texts ids prints c).1 (new, fresh, sound),
          (invariant_errors-nil_iff _ _ cs).1 (
            (fresh-cons c.finding_class_id ids (class_ids cs)).1 (apart, old),
            unique,
            (fresh-cons c.fingerprint_sha256 prints (fingerprints cs)).1 (aside, former),
            distinct,
            each,
          ),
        ),
  )

  status_iff :
      (cs : List FindingClass)
      → ((validate_recurring_findings texts (classes cs)).status ≡ pass)
        ↔ (reference_errors cs ++ invariant_errors texts [] [] cs ≡ [])
  unfolding validate_recurring_findings
  status_iff cs = go (reference_errors cs ++ invariant_errors texts [] [] cs)
    where
      go : (es : List String) → ((if is_empty es then pass else fail) ≡ pass) ↔ (es ≡ [])
      go [] = (λ e. refl, λ e. refl)
      go (e ∷ es) = (λ k. absurd (cc k), λ k. absurd (ground arith))

  -- A ledger passes exactly when it was read, and its classes have distinct ids and fingerprints,
  -- each with the fingerprint of its invariant, distinct occurrences that match their references,
  -- the eligibility that their number and the guardrail give, and safe local references.
  pub validate_recurring_findings_iff :
      (reading : Reading)
      → ((validate_recurring_findings texts reading).status ≡ pass)
        ↔ ((cs : List FindingClass) × (reading ≡ classes cs) × IsSound texts cs)
  unfolding validate_recurring_findings
  validate_recurring_findings_iff unreadable = (λ e. absurd (cc e), λ d. absurd (cc d.1))
  validate_recurring_findings_iff too_deep = (λ e. absurd (cc e), λ d. absurd (cc d.1))
  validate_recurring_findings_iff (schema_errors m ms) = (λ e. absurd (cc e), λ d. absurd (cc d.1))
  validate_recurring_findings_iff (classes cs) = (
    λ e.
        let (safe, none_left) = (append-nil_iff _ _).0 ((status_iff cs).0 e) in
        let (old, ids, former, prints, each) = (invariant_errors-nil_iff [] [] cs).0 none_left in
        (
          cs,
          refl,
          record {
            ids = ids;
            prints = prints;
            each = each;
            safe = (reference_errors-nil_iff cs).0 safe;
          },
        ),
    λ d.
        subst (λ r. (validate_recurring_findings texts r).status ≡ pass) (sym d.1)
          (accepted d.0 d.2),
  )
    where
      accepted :
          (ds : List FindingClass)
          → IsSound texts ds
          → (validate_recurring_findings texts (classes ds)).status ≡ pass
      accepted ds s = (status_iff ds).1 (
          (append-nil_iff _ _).1 (
            (reference_errors-nil_iff ds).1 s.safe,
            (invariant_errors-nil_iff [] [] ds).1 (
              All_of_In _ (class_ids ds) (λ x m n. n),
              s.ids,
              All_of_In _ (fingerprints ds) (λ x m n. n),
              s.prints,
              s.each,
            ),
          ))
