-- ===== src/Paths/Laws.antt =====
-- When `require_portable_relative_path` accepts a path, and what it then returns.
use skills_sdk.Prelude.{
  inr, inl, codes, All-map, filter_keep, Bool-cases, All-filter, ◌∙◌, All_of_filter, subst, sym,
  contains-false, ap, All-In, contains_iff, All_of_In, filter, ℕ, ◌≡◌, ◌≢◌, ◌↔◌, refl, true, false,
  List, [], ◌∷◌, is_blank, any, contains, In, All, arith, ℕ_eq, codes_eq, codes_beq_iff,
}
use skills_sdk.Paths.Split.{
  join-split, split-Without, split-join, at_least, IsNonempty, split, join,
}
use skills_sdk.Paths.{
  err, Checked, is_portable, require_portable_relative_path, String, posix_path, ok, PurePosixPath,
  slash, dot, dot_dot, root_of, strip_slashes, is_kept, as_posix, first_has_colon, check_path,
}

-- A text of the form `a/b/c`: parts that name no directory of their own, in a relative path.
pub record IsPortable (text : List ℕ) : Type 0 where
  pub visible : is_blank text ≡ false
  pub posix : ¬ In b'\\' text
  pub one_line : (¬ In 13 text) × (¬ In 10 text)
  pub named : All (λ part. (part ≢ []) × (part ≢ dot) × (part ≢ dot_dot)) (split slash text)
  pub no_drive : first_has_colon (split slash text) ≡ false

one_line_of_any :
    (text : List ℕ)
    → any (λ c. contains c (13 ∷ 10 ∷ [])) text ≡ false
    → (¬ In 13 text) × (¬ In 10 text)
unfolding contains
one_line_of_any [] h = (λ m. m, λ m. m)
one_line_of_any (c ∷ cs) h = ground (arith, one_line_of_any cs)

any_of_one_line :
    (text : List ℕ)
    → ¬ In 13 text
    → ¬ In 10 text
    → any (λ c. contains c (13 ∷ 10 ∷ [])) text ≡ false
unfolding contains
any_of_one_line [] h k = refl
any_of_one_line (c ∷ cs) h k = ground (arith, any_of_one_line cs)

relative_strip : (text : List ℕ) → root_of text ≡ [] → strip_slashes text ≡ text
unfolding strip_slashes
relative_strip [] h = refl
relative_strip (c ∷ cs) h = ground (arith)

kept_iff : (part : List ℕ) → (is_kept part ≡ true) ↔ ((part ≢ []) × (part ≢ dot))
kept_iff part = ground (arith, codes_beq_iff part [], codes_beq_iff part dot)

-- What `check_path` accepts has no root, and its parts join to the text.
check_path_sound :
    (text : List ℕ) (path found : PurePosixPath)
    → check_path text path ≡ ok found
    → (found ≡ path)
      × (path.root ≡ [])
      × (contains dot_dot path.parts ≡ false)
      × (first_has_colon path.parts ≡ false)
      × (join slash path.parts ≡ text)
      × (text ≢ [])
unfolding check_path as_posix
check_path_sound text path found h = ground (
  arith,
  codes_beq_iff path.root [],
  codes_beq_iff (as_posix path) text,
  codes_beq_iff (join slash path.parts) [],
  contains_iff (as_posix path) (dot ∷ [] ∷ []),
)

parts_lem :
    (text : List ℕ)
    → root_of text ≡ []
    → (posix_path text).parts ≡ filter is_kept (split slash text)
unfolding posix_path
parts_lem text h = ap (λ t. filter is_kept (split slash t)) (relative_strip text h)

-- Parts that join to a text that is not empty are its parts.
filter_all :
    (text : List ℕ)
    → text ≢ []
    → join slash (filter is_kept (split slash text)) ≡ text
    → filter is_kept (split slash text) ≡ split slash text
unfolding join
filter_all text n h =
    sym (
      split-join slash kept (nonempty kept h)
        (All_of_filter _ is_kept (split slash text) (split-Without slash text)))
    ∙ ap (split slash) h
  where
    kept : List (List ℕ)
    kept = filter is_kept (split slash text)

    nonempty : (ps : List (List ℕ)) → join slash ps ≡ text → IsNonempty ps
    nonempty [] e = absurd (n (sym e))
    nonempty (p ∷ ps) e = at_least p ps

named_lem :
    (parts : List (List ℕ))
    → All (λ p. is_kept p ≡ true) parts
    → contains dot_dot parts ≡ false
    → All (λ part. (part ≢ []) × (part ≢ dot) × (part ≢ dot_dot)) parts
named_lem parts h k = All_of_In _ parts (λ p m.
    let (full, sight) = (kept_iff p).0 (All-In _ p parts h m) in
    (full, sight, λ e. contains-false dot_dot parts k (subst (λ q. In q parts) e m)))

-- An accepted path is the text's parts, and the text is portable.
sound :
    (text : List ℕ) (found : PurePosixPath)
    → check_path text (posix_path text) ≡ ok found
    → (found ≡ record { root = []; parts = split slash text })
      × All (λ part. (part ≢ []) × (part ≢ dot) × (part ≢ dot_dot)) (split slash text)
      × (first_has_colon (split slash text) ≡ false)
sound text found h =
    let (same, root, no_up, no_drive, joined, full) =
      check_path_sound text (posix_path text) found h in
    let parts = parts_lem text (unfold posix_path in root) in
    let all_kept = filter_all text full (rw parts at joined) in
    let e = parts ∙ all_kept in
    (
      same ∙ (λ i. record { root = root i; parts = e i }),
      named_lem (split slash text) (rw all_kept at (All-filter is_kept (split slash text)))
          (rw e at no_up),
      rw e at no_drive,
    )

-- `check_path` after the tests on single characters.
require_inversion :
    (value : String) (found : PurePosixPath)
    → require_portable_relative_path value ≡ ok found
    → (is_blank (codes value) ≡ false)
      × (contains b'\\' (codes value) ≡ false)
      × (any (λ c. contains c (13 ∷ 10 ∷ [])) (codes value) ≡ false)
      × (check_path (codes value) (posix_path (codes value)) ≡ ok found)
unfolding require_portable_relative_path
require_inversion value found h = ground arith

-- Every path that the check accepts is portable, and is returned as its own parts.
require_sound :
    (value : String) (found : PurePosixPath)
    → require_portable_relative_path value ≡ ok found
    → IsPortable (codes value) × (found ≡ record { root = []; parts = split slash (codes value) })
require_sound value found h =
    let (seen, posix, lines, checked) = require_inversion value found h in
    let (same, named, no_drive) = sound (codes value) found checked in
    (
      record {
        visible = seen;
        posix = contains-false _ _ posix;
        one_line = one_line_of_any (codes value) lines;
        named = named;
        no_drive = no_drive;
      },
      same,
    )

contains-false_of : (x : ℕ) (xs : List ℕ) → ¬ In x xs → contains x xs ≡ false
contains-false_of x xs n = elim (Bool-cases (contains x xs)) [
  | inl e ↦ absurd (n ((contains_iff x xs).0 e))
  | inr e ↦ e
]

no_dot_dot :
    (parts : List (List ℕ))
    → All (λ part. (part ≢ []) × (part ≢ dot) × (part ≢ dot_dot)) parts
    → contains dot_dot parts ≡ false
no_dot_dot parts h = elim (Bool-cases (contains dot_dot parts)) [
  | inl e ↦ absurd ((All-In _ dot_dot parts h ((contains_iff dot_dot parts).0 e)).2 refl)
  | inr e ↦ e
]

relative_root :
    (text : List ℕ)
    → All (λ part. (part ≢ []) × (part ≢ dot) × (part ≢ dot_dot)) (split slash text)
    → (root_of text ≡ []) × (text ≢ []) × (text ≢ dot)
unfolding split
relative_root [] h = absurd (h.0.0 refl)
relative_root (c ∷ cs) h = ground arith

-- Every portable text passes `check_path`.
complete :
    (text : List ℕ)
    → IsPortable text
    → check_path text (posix_path text) ≡ ok (record { root = []; parts = split slash text })
unfolding check_path as_posix posix_path
complete text h =
    let (root, full, not_dot) = relative_root text h.named in
    let kept =
      filter_keep is_kept (split slash text)
        (All-map _ _ (split slash text) (λ p k. (kept_iff p).1 (k.0, k.1)) h.named) in
    rw
      (
        root,
        relative_strip text root,
        kept,
        h.no_drive,
        no_dot_dot (split slash text) h.named,
        join-split slash text,
      )
      (ground (
        arith,
        codes_beq_iff [] [],
        codes_beq_iff text [],
        codes_beq_iff text dot,
        codes_beq_iff text text,
      ))

require_complete :
    (value : String)
    → IsPortable (codes value)
    → require_portable_relative_path value
      ≡ ok (record { root = []; parts = split slash (codes value) })
unfolding require_portable_relative_path
require_complete value h =
    rw (h.visible, contains-false_of _ _ h.posix, any_of_one_line _ h.one_line.0 h.one_line.1)
      (complete (codes value) h)

module _ (value : String) where
  -- The check accepts exactly the portable texts: visible characters, no backslash and no line
  -- break, and split at the slashes no part that is empty, `.` or `..`, nor a colon in the first.
  -- What it returns is the relative path of those parts.
  pub require_portable_relative_path_iff :
      (found : PurePosixPath)
      → (require_portable_relative_path value ≡ ok found) ↔ (
          IsPortable (codes value)
          × (found ≡ record { root = []; parts = split slash (codes value) }))
  require_portable_relative_path_iff found =
      (require_sound value found, λ h. rw h.1 (require_complete value h.0))

  pub is_portable_iff : (is_portable value ≡ true) ↔ IsPortable (codes value)
  unfolding is_portable
  is_portable_iff = (
    λ h. backwards (require_portable_relative_path value) refl h,
    λ h. rw (require_complete value h, is_portable),
  )
    where
      backwards :
          (r : Checked PurePosixPath)
          → require_portable_relative_path value ≡ r
          → elim r [ ok _ ↦ true | err _ ↦ false ] ≡ true
          → IsPortable (codes value)
      backwards (ok path) e h = (require_sound value path e).0
      backwards (err x) e h = cc
