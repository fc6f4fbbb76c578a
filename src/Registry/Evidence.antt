-- ===== src/Registry/Evidence.antt =====
-- `_split_evidence`, `_registry_blocker` and `_hardening_blockers`: what of a source's evidence is
-- published as it stands, and what as a digest.
use mathlib.Core.Bool.{false≢true}
use mathlib.Core.List.{append_assoc, append-nil}
use skills_sdk.Prelude.{
  ◌≡◌, ◌⊎◌, ◌↔◌, refl, sym, ap, subst, ◌∙◌, inl, inr, Bool, true, false, ◌&&◌, some, List, [], ◌∷◌,
  ◌++◌, String, contains, contains_iff, contains-false, In, In-append, In-append_left,
  In-append_right, IsUnique, IsUnique-snoc, all, all_distinct_iff, string_eq, arith, Bool-cases,
  if◌then◌else◌,
}
use skills_sdk.Json.{Hash, Json, text, array, object, texts, canonical_json_sha256}
use skills_sdk.Paths.{is_portable}
use skills_sdk.Packaging.{PackageReceiptBlocker}
use skills_sdk.Packaging.Validation.{paths_ok}
use skills_sdk.Hardening.{PackageHardeningCheck, pass, warning, blocker}
use skills_sdk.Registry.Redaction.{registry_evidence_is_redaction_safe}
use skills_sdk.Registry.Models.{
  RegistryPreparationBlocker, RegistryPreparationWarning, refs_ok, blocker_ok,
}

abbrev status_value : PackageHardeningCheck → String
status_value c = elim c.status [ pass ↦ "pass" | warning ↦ "warning" | blocker ↦ "blocker" ]

abbrev pub check_json : PackageHardeningCheck → Json
check_json c = object (
    ("id", text c.id)
    ∷ ("status", text (status_value c))
    ∷ ("message", text c.message)
    ∷ ("evidence", array (texts c.evidence))
    ∷ [])

abbrev pub package_blocker_json : PackageReceiptBlocker → Json
package_blocker_json b = object (
    ("code", text b.code)
    ∷ ("message", text b.message)
    ∷ ("evidence_refs", array (texts b.evidence_refs))
    ∷ [])

-- `if value not in values: values.append(value)`
unfoldable pub add_new : String → List String → List String
unfolding contains
add_new value values = if contains value values then values else values ++ value ∷ []

abbrev pub is_public : String → Bool
is_public value = registry_evidence_is_redaction_safe value && is_portable value

module _ (h : Hash) where
  abbrev pub text_digest : String → String
  text_digest value = canonical_json_sha256 h (text value)

  split_loop : List String → List String → List String → List String × List String
  split_loop refs digests [] = (refs, digests)
  split_loop refs digests (value ∷ values) =
      split_loop (if is_public value then add_new value refs else refs)
        (if is_public value then digests else add_new (text_digest value) digests) values

  unfoldable pub split_evidence : List String → List String × List String
  unfolding split_loop add_new is_portable registry_evidence_is_redaction_safe
  split_evidence values = split_loop [] [] values

  abbrev redacted_code : String
  redacted_code = "source_blocker_redacted"

  abbrev redacted_message : String
  redacted_message = "Source blocker metadata was redacted; use its digest for identity."

  -- A source's code, message and evidence, redacted where the texts are not safe.
  project : String → String → List String → Json → RegistryPreparationBlocker
  project code message evidence source =
      let (refs, digests) = split_evidence evidence in
      let safe =
        registry_evidence_is_redaction_safe code && registry_evidence_is_redaction_safe message in
      record {
        code = if safe then code else redacted_code;
        message = if safe then message else redacted_message;
        evidence_refs = refs;
        source_evidence_sha256 = digests;
        source_blocker_sha256 = some (canonical_json_sha256 h source);
      }

  unfoldable pub registry_blocker : PackageReceiptBlocker → RegistryPreparationBlocker
  unfolding project split_evidence
  registry_blocker b = project b.code b.message b.evidence_refs (package_blocker_json b)

  unfoldable pub hardening_blockers : List PackageHardeningCheck → List RegistryPreparationBlocker
  unfolding project split_evidence
  hardening_blockers [] = []
  hardening_blockers (c ∷ cs) =
      project c.id c.message c.evidence (check_json c) ∷ hardening_blockers cs

  unfoldable pub registry_warnings : List PackageHardeningCheck → List RegistryPreparationWarning
  unfolding split_evidence
  registry_warnings [] = []
  registry_warnings (c ∷ cs) =
      let (refs, digests) = split_evidence c.evidence in
      record {
        warning_sha256 = canonical_json_sha256 h (check_json c);
        evidence_refs = refs;
        source_evidence_sha256 = digests;
      }
      ∷ registry_warnings cs

  add_new-IsUnique : (v : String) (vs : List String) → IsUnique vs → IsUnique (add_new v vs)
  unfolding add_new
  add_new-IsUnique v vs u = elim (Bool-cases (contains v vs)) [
    | inl e ↦ rw e u
    | inr e ↦ rw e (IsUnique-snoc vs v u (contains-false v vs e))
  ]

  In-add_new : (z v : String) (vs : List String) → In z (add_new v vs) ↔ ((z ≡ v) ⊎ In z vs)
  unfolding add_new
  In-add_new z v vs = elim (Bool-cases (contains v vs)) [
    | inl e ↦ rw e (
      λ m. inr m,
      λ m. elim m [ inl s ↦ subst (λ t. In t vs) (sym s) ((contains_iff v vs).0 e) | inr n ↦ n ],
    )
    | inr e ↦ rw e (
      λ m. elim (In-append z vs (v ∷ []) m) [
        | inl n ↦ inr n
        | inr (inl s) ↦ inl s
        | inr (inr n) ↦ absurd n
      ],
      λ m. elim m [
        | inl s ↦ In-append_right z vs (v ∷ []) (inl s)
        | inr n ↦ In-append_left z vs (v ∷ []) n
      ],
    )
  ]

  -- What the two lists hold of the values that were read: each public value once as it stands, and
  -- of every other value the digest, once.
  pub record IsSplit (values refs digests : List String) : Type 0 where
    pub refs_distinct : IsUnique refs
    pub digests_distinct : IsUnique digests
    pub published : (z : String) → In z refs ↔ (In z values × (is_public z ≡ true))
    pub digested :
        (d : String)
        → In d digests
        → (v : String) × In v values × (is_public v ≡ false) × (d ≡ text_digest v)
    pub kept : (v : String) → In v values → is_public v ≡ false → In (text_digest v) digests

  IsSplit-step :
      (done refs digests : List String) (v : String)
      → IsSplit done refs digests
      → IsSplit
          (done ++ v ∷ [])
          (if is_public v then add_new v refs else refs)
          (if is_public v then digests else add_new (text_digest v) digests)
  IsSplit-step done refs digests v s = elim (Bool-cases (is_public v)) [
    | inl open_text ↦ rw open_text (record {
      refs_distinct = add_new-IsUnique v refs s.refs_distinct;
      digests_distinct = s.digests_distinct;
      published = λ z. (
        λ m. elim ((In-add_new z v refs).0 m) [
          | inl e ↦ (In-append_right z done (v ∷ []) (inl e), ap is_public e ∙ open_text)
          | inr n ↦
              (In-append_left z done (v ∷ []) ((s.published z).0 n).0, ((s.published z).0 n).1)
        ],
        λ m. (In-add_new z v refs).1 (elim (In-append z done (v ∷ []) m.0) [
          | inl n ↦ inr ((s.published z).1 (n, m.1))
          | inr (inl e) ↦ inl e
          | inr (inr n) ↦ absurd n
        ]),
      );
      digested = λ d m.
          let (w, inside, hidden, e) = s.digested d m in
          (w, In-append_left w done (v ∷ []) inside, hidden, e);
      kept = λ w m hidden. elim (In-append w done (v ∷ []) m) [
        | inl n ↦ s.kept w n hidden
        | inr (inl e) ↦ absurd (false≢true (sym hidden ∙ ap is_public e ∙ open_text))
        | inr (inr n) ↦ absurd n
      ];
    })
    | inr secret ↦ rw secret (record {
      refs_distinct = s.refs_distinct;
      digests_distinct = add_new-IsUnique (text_digest v) digests s.digests_distinct;
      published = λ z. (
        λ m. (In-append_left z done (v ∷ []) ((s.published z).0 m).0, ((s.published z).0 m).1),
        λ m. elim (In-append z done (v ∷ []) m.0) [
          | inl n ↦ (s.published z).1 (n, m.1)
          | inr (inl e) ↦ absurd (false≢true (sym secret ∙ ap is_public (sym e) ∙ m.1))
          | inr (inr n) ↦ absurd n
        ],
      );
      digested = λ d m. elim ((In-add_new d (text_digest v) digests).0 m) [
        | inl e ↦ (v, In-append_right v done (v ∷ []) (inl refl), secret, e)
        | inr n ↦
            let (w, inside, hidden, e) = s.digested d n in
            (w, In-append_left w done (v ∷ []) inside, hidden, e)
      ];
      kept = λ w m hidden.
          (In-add_new (text_digest w) (text_digest v) digests).1
            (elim (In-append w done (v ∷ []) m) [
              | inl n ↦ inr (s.kept w n hidden)
              | inr (inl e) ↦ inl (ap text_digest e)
              | inr (inr n) ↦ absurd n
            ]);
    })
  ]

  split_loop-IsSplit :
      (done refs digests values : List String)
      → IsSplit done refs digests
      → IsSplit
          (done ++ values)
          (split_loop refs digests values).0
          (split_loop refs digests values).1
  unfolding split_loop
  split_loop-IsSplit done refs digests [] s =
      subst (λ t. IsSplit t refs digests) (sym (append-nil done)) s
  split_loop-IsSplit done refs digests (v ∷ vs) s =
      let refs' = if is_public v then add_new v refs else refs in
      let digests' = if is_public v then digests else add_new (text_digest v) digests in
      subst (λ t. IsSplit t (split_loop refs' digests' vs).0 (split_loop refs' digests' vs).1)
        (append_assoc done (v ∷ []) vs)
        (split_loop-IsSplit (done ++ v ∷ []) refs' digests' vs (IsSplit-step done refs digests v s))

  -- The published references are exactly the values that are portable paths without credentials, and
  -- the digests are exactly those of all other values; neither list repeats itself.
  pub split_evidence-IsSplit :
      (values : List String) → IsSplit values (split_evidence values).0 (split_evidence values).1
  unfolding split_evidence
  split_evidence-IsSplit values = split_loop-IsSplit [] [] [] values (record {
    refs_distinct = tt;
    digests_distinct = tt;
    published = λ z. (λ m. absurd m, λ m. absurd m.0);
    digested = λ d m. absurd m;
    kept = λ v m. absurd m;
  })

  all_of_In :
      (p : String → Bool) (xs : List String)
      → ((z : String) → In z xs → p z ≡ true)
      → all p xs ≡ true
  all_of_In p [] f = refl
  all_of_In p (x ∷ xs) f = rw (f x (inl refl), all_of_In p xs (λ z m. f z (inr m)))

  public_parts :
      (z : String)
      → is_public z ≡ true
      → (registry_evidence_is_redaction_safe z ≡ true) × (is_portable z ≡ true)
  public_parts z e = ground arith

  pub refs_ok-split : (values : List String) → refs_ok (split_evidence values).0 ≡ true
  unfolding refs_ok paths_ok
  refs_ok-split values =
      let s = split_evidence-IsSplit values in
      let refs = (split_evidence values).0 in
      let distinct = (all_distinct_iff refs).1 s.refs_distinct in
      let portable =
        all_of_In is_portable refs (λ z m. (public_parts z ((s.published z).0 m).1).1) in
      let safe =
        all_of_In registry_evidence_is_redaction_safe refs
          (λ z m. (public_parts z ((s.published z).0 m).1).0) in
      rw (distinct, portable, safe)

  redacted_ok :
      (registry_evidence_is_redaction_safe redacted_code
        && registry_evidence_is_redaction_safe redacted_message)
      ≡ true
  unfolding registry_evidence_is_redaction_safe
  redacted_ok = refl

  project_ok :
      (code message : String) (evidence : List String) (source : Json)
      → blocker_ok (project code message evidence source) ≡ true
  unfolding project blocker_ok
  project_ok code message evidence source = ground (arith, refs_ok-split evidence, redacted_ok)

  -- Whatever a package's blocker says, what is published of it is free of credential prefixes in its
  -- code, its message and its references.
  pub registry_blocker_ok : (b : PackageReceiptBlocker) → blocker_ok (registry_blocker b) ≡ true
  unfolding registry_blocker
  registry_blocker_ok b = project_ok b.code b.message b.evidence_refs (package_blocker_json b)

  -- The same of every blocker of a hardening receipt.
  pub hardening_blockers_ok :
      (cs : List PackageHardeningCheck) → all blocker_ok (hardening_blockers cs) ≡ true
  unfolding hardening_blockers
  hardening_blockers_ok [] = refl
  hardening_blockers_ok (c ∷ cs) =
      rw (project_ok c.id c.message c.evidence (check_json c), hardening_blockers_ok cs)
