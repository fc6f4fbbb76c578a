-- ===== src/Archive/Directory/Preflight.antt =====
-- Which candidate the search for the end record chooses.
use mathlib.Core.Bool.{false≢true}
use native.Mathlib.Decide.{dec_le}
use skills_sdk.Prelude.{
  not, false, zero, length, ◌-◌, Option-cases, inl, ◌∙◌, sym, ◌<◌, refl, inr, Bool-cases, ℕ, suc,
  ◌+◌, ◌≤◌, ◌≡◌, subst, Bool, true, List, nat_eq, Option, none, some, arith,
}
use skills_sdk.Archive.Directory.Signature.{
  signature_inside, signature_apart, rfind_below-some, rfind_below-none,
}
use skills_sdk.Archive.Bytes.{read_u16}
use skills_sdk.Archive.Directory.{
  finished, chosen, scan_candidates, rfind_below, search_start, search_loop,
  preflight_central_directory, rfind, record_candidate, visit, Found,
  PackageArchiveVerificationPolicy, valid_central_directory_at, signature_at,
}

module _ (snapshot : List ℕ) (policy : PackageArchiveVerificationPolicy) where
  -- An end signature of a valid directory, with entries or with none.
  pub record IsCandidate (filled : Bool) (i : ℕ) : Type 0 where
    pub signed : signature_at snapshot i ≡ true
    pub valid : valid_central_directory_at snapshot policy i ≡ true
    pub entries : nat_eq (read_u16 snapshot (i + 10)) 0 ≡ not filled

  -- With entries there is one candidate; of those without, the first in the snapshot is kept.
  abbrev Best : Bool → ℕ → ℕ → Type 0
  Best true o i = i ≡ o
  Best false o i = o ≤ i

  -- `slot` is what the search knows of the candidates from `k` on.
  record Seen (filled : Bool) (k : ℕ) (slot : Option ℕ) : Type 0 where
    absent : slot ≡ none → (i : ℕ) → k ≤ i → ¬ IsCandidate filled i
    present : (o : ℕ) → slot ≡ some o → IsCandidate filled o × (k ≤ o)
    best : (o : ℕ) → slot ≡ some o → (i : ℕ) → k ≤ i → IsCandidate filled i → Best filled o i

  -- Positions that hold no candidate change nothing.
  skip :
      (filled : Bool) (low k : ℕ) (slot : Option ℕ)
      → low ≤ k
      → ((i : ℕ) → low ≤ i → i < k → ¬ IsCandidate filled i)
      → Seen filled k slot
      → Seen filled low slot
  skip filled low k slot h free seen = record {
    absent = λ e i a c. elim (dec_le k i) [
      | yes b ↦ seen.absent e i b c
      | no b ↦ free i a (omega arith) c
    ];
    present = λ o e. let (c, b) = seen.present o e in (c, omega arith);
    best = λ o e i a c. elim (dec_le k i) [
      | yes b ↦ seen.best o e i b c
      | no b ↦ absurd (free i a (omega arith) c)
    ];
  }

  Seen-filled : (q : ℕ) → IsCandidate true q → Seen true (suc q) none → Seen true q (some q)
  Seen-filled q c seen = record {
    absent = λ e. cc;
    present = λ o e. let s : q ≡ o = cc in rw (← s) (c, omega arith);
    best = λ o e i a d.
        let s : q ≡ o = cc in
        elim (dec_le (suc q) i) [ yes b ↦ absurd (seen.absent refl i b d) | no b ↦ omega arith ];
  }

  Seen-empty : (q : ℕ) (slot : Option ℕ) → IsCandidate false q → Seen false q (some q)
  Seen-empty q slot c = record {
    absent = λ e. cc;
    present = λ o e. let s : q ≡ o = cc in rw (← s) (c, omega arith);
    best = λ o e i a d. let s : q ≡ o = cc in omega arith;
  }

  -- The two slots of the search.
  record Knows (k : ℕ) (found : Found) : Type 0 where
    filled : Seen true k found.nonempty_offset
    empty : Seen false k found.empty_offset

  at_one :
      (filled : Bool) (q : ℕ) (slot : Option ℕ)
      → ¬ IsCandidate filled q
      → Seen filled (suc q) slot
      → Seen filled q slot
  at_one filled q slot n seen =
      skip filled q (suc q) slot (omega arith)
        (λ i a b c. n (subst (IsCandidate filled) (le_antisymm i q a b) c)) seen
    where
      le_antisymm : (i q : ℕ) → q ≤ i → i < suc q → i ≡ q
      le_antisymm i q a b = omega arith

  visit_lem :
      (q : ℕ) (found next : Found)
      → signature_at snapshot q ≡ true
      → visit snapshot policy q found ≡ some next
      → Knows (suc q) found
      → Knows q next
  unfolding visit record_candidate
  visit_lem q found next sign h knows =
      elim (Bool-cases (valid_central_directory_at snapshot policy q)) [
        | inr bad ↦
            let e : found ≡ next = ground arith in
            rw (← e) (record {
              filled = at_one true q _ (λ c. false≢true (sym bad ∙ c.valid)) knows.filled;
              empty = at_one false q _ (λ c. false≢true (sym bad ∙ c.valid)) knows.empty;
            })
        | inl good ↦ elim (Bool-cases (nat_eq (read_u16 snapshot (q + 10)) 0)) [
          | inl zero_entries ↦
              let e : record found { empty_offset = some q } ≡ next = ground arith in
              rw (← e) (record {
                filled =
                    at_one true q _ (λ c. false≢true (sym c.entries ∙ zero_entries)) knows.filled;
                empty =
                    Seen-empty q none
                      (record { signed = sign; valid = good; entries = zero_entries });
              })
          | inr some_entries ↦ elim (Option-cases found.nonempty_offset) [
            | inl fresh ↦
                let e : record found { nonempty_offset = some q } ≡ next = ground arith in
                rw (← e) (record {
                  filled =
                      Seen-filled q (record { signed = sign; valid = good; entries = some_entries })
                        (subst (Seen true (suc q)) fresh knows.filled);
                  empty =
                      at_one false q _ (λ c. false≢true (sym some_entries ∙ c.entries)) knows.empty;
                })
            | inr (o, taken) ↦ absurd (ground arith)
          ]
        ]
      ]

  visit-none :
      (q : ℕ) (found : Found)
      → signature_at snapshot q ≡ true
      → visit snapshot policy q found ≡ none
      → (o : ℕ) × (found.nonempty_offset ≡ some o) × IsCandidate true q
  unfolding visit record_candidate
  visit-none q found sign h =
      let good : valid_central_directory_at snapshot policy q ≡ true = ground arith in
      let some_entries : nat_eq (read_u16 snapshot (q + 10)) 0 ≡ false = ground arith in
      elim (Option-cases found.nonempty_offset) [
        | inl fresh ↦ absurd (ground arith)
        | inr (o, taken) ↦
            (o, taken, record { signed = sign; valid = good; entries = some_entries })
      ]

  -- What the search may answer.
  pub data Verdict : Option ℕ → Type 0 where
    unique :
        {o : ℕ}
        → IsCandidate true o
        → search_start snapshot ≤ o
        → ((i : ℕ) → search_start snapshot ≤ i → IsCandidate true i → i ≡ o)
        → Verdict (some o)
    only_empty :
        {o : ℕ}
        → IsCandidate false o
        → search_start snapshot ≤ o
        → ((i : ℕ) → search_start snapshot ≤ i → ¬ IsCandidate true i)
        → ((i : ℕ) → search_start snapshot ≤ i → IsCandidate false i → o ≤ i)
        → Verdict (some o)
    nothing :
        ((i : ℕ) → search_start snapshot ≤ i → ¬ IsCandidate true i)
        → ((i : ℕ) → search_start snapshot ≤ i → ¬ IsCandidate false i)
        → Verdict none
    several :
        (i j : ℕ)
        → search_start snapshot ≤ i
        → i < j
        → IsCandidate true i
        → IsCandidate true j
        → Verdict none

  -- The candidate that comes next below `k`.
  abbrev Next : Option ℕ → ℕ → Type 0
  Next none k = (i : ℕ) → search_start snapshot ≤ i → i < k → ¬ (signature_at snapshot i ≡ true)
  Next (some q) k =
      (signature_at snapshot q ≡ true)
      × (search_start snapshot ≤ q)
      × (q < k)
      × ((i : ℕ) → q < i → i < k → ¬ (signature_at snapshot i ≡ true))

  Next-rfind :
      (k : ℕ)
      → ((i : ℕ) → signature_at snapshot i ≡ true → i < k → i + 4 ≤ k)
      → Next (rfind snapshot (search_start snapshot) k) k
  unfolding rfind
  Next-rfind k fits = elim (Option-cases (rfind_below snapshot (search_start snapshot) (k - 3))) [
    | inl missed ↦ rw missed (λ i a b q.
        rfind_below-none snapshot (search_start snapshot) (k - 3) missed i a
          (omega (arith, fits i q b)) q)
    | inr (q, hit) ↦
        let (sign, low, high, free) =
          rfind_below-some snapshot (search_start snapshot) (k - 3) q hit in
        rw hit (sign, low, omega arith, λ i a b s. free i a (omega (arith, fits i s b)) s)
  ]

  Verdict-of :
      (filled empty : Option ℕ)
      → Seen true (search_start snapshot) filled
      → Seen false (search_start snapshot) empty
      → Verdict (chosen (finished (record { nonempty_offset = filled; empty_offset = empty })))
  Verdict-of (some o) empty f e = unique (f.present o refl).0 (f.present o refl).1 (f.best o refl)
  Verdict-of none (some o) f e =
      only_empty (e.present o refl).0 (e.present o refl).1 (f.absent refl) (e.best o refl)
  Verdict-of none none f e = nothing (f.absent refl) (e.absent refl)

  -- Skipping down to the next candidate, or to the start of the window.
  drop_to :
      (low k : ℕ) (found : Found)
      → low ≤ k
      → ((i : ℕ) → low ≤ i → i < k → ¬ (signature_at snapshot i ≡ true))
      → Knows k found
      → Knows low found
  drop_to low k found h free knows = record {
    filled = skip true low k _ h (λ i a b c. free i a b c.signed) knows.filled;
    empty = skip false low k _ h (λ i a b c. free i a b c.signed) knows.empty;
  }

  search_loop_lem :
      (fuel k : ℕ) (next : Option ℕ) (found : Found)
      → search_start snapshot ≤ k
      → k < fuel
      → Next next k
      → Knows k found
      → Verdict (chosen (search_loop fuel snapshot policy (search_start snapshot) next found))
  unfolding search_loop
  search_loop_lem zero k next found low f n knows = absurd (omega arith)
  search_loop_lem (suc fuel) k none found low f n knows =
      let all = drop_to (search_start snapshot) k found low n knows in
      Verdict-of found.nonempty_offset found.empty_offset all.filled all.empty
  search_loop_lem (suc fuel) k (some q) found low f (sign, inside, below, free) knows =
      let above = drop_to (suc q) k found (omega arith) (λ i a b. free i a b) knows in
      elim (Option-cases (visit snapshot policy q found)) [
        | inl clash ↦
            let (o, taken, cand) = visit-none q found sign clash in
            let (other, apart) = above.filled.present o taken in
            rw (clash, search_loop) (several q o inside apart cand other)
        | inr (found', visited) ↦
            rw (visited, search_loop)
              (search_loop_lem fuel q (rfind snapshot (search_start snapshot) q) found' inside
                (omega arith) (Next-rfind q (λ i s b. signature_apart snapshot i q s sign b))
                (visit_lem q found found' sign visited above))
      ]

  -- The search for the end record ends, and answers with the only directory that has entries; else
  -- with the first empty one; and with nothing if there is no valid directory in the window, or if
  -- two of them have entries.
  pub preflight_central_directory_lem : Verdict (preflight_central_directory snapshot policy)
  unfolding preflight_central_directory scan_candidates search_start
  preflight_central_directory_lem =
      search_loop_lem (length snapshot + 2) (length snapshot) _ _ (omega arith) (omega arith)
        (Next-rfind (length snapshot) (λ i s b. signature_inside snapshot i s))
        (record { filled = start_slot true; empty = start_slot false })
    where
      start_slot : (filled : Bool) → Seen filled (length snapshot) none
      start_slot filled = record {
        absent = λ e i a c. absurd (omega (arith, signature_inside snapshot i c.signed));
        present = λ o e. cc;
        best = λ o e. cc;
      }
