-- ===== src/Lifecycle/Laws.antt =====
-- The planned transition of a runtime lock in src/skills_sdk/lifecycle/planning.py.
use mathlib.Core.List.{append-nil}
use mathlib.Core.Bool.{false≢true}
use skills_sdk.Packaging.{list_beq_iff}
use skills_sdk.Packaging.Validation.{is_empty}
use skills_sdk.Lifecycle.{
  list_beq, RuntimeLockEntry, RuntimeLock, no_change, EntryKey, entry_key, entry_keys, key_beq_iff,
  key_eq, lock_entry_eq, lock_ok,
}
use skills_sdk.Lifecycle.Planning.{
  matching, operation_of, replaced, proposed_entries, proposed_lock, planned_operation,
}
use skills_sdk.Prelude.{
  In-filter, ◌↔◌, all_distinct_iff, ◌∙◌, subst, inr, some, In-append_right, if◌then◌else◌, sym, ap,
  IsUnique-snoc, arith, refl, false, inl, none, true, Bool-cases, IsUnique, ◌≡◌, In, Option, ◌++◌,
  List, ◌==◌, [], ◌∷◌,
}

-- What a lock holds under a key.
unfoldable pub find : EntryKey → List RuntimeLockEntry → Option RuntimeLockEntry
find key [] = none
find key (item ∷ items) = if entry_key item == key then some item else find key items

entry_keys-append :
    (xs ys : List RuntimeLockEntry) → entry_keys (xs ++ ys) ≡ entry_keys xs ++ entry_keys ys
entry_keys-append [] ys = refl
entry_keys-append (x ∷ xs) ys = rw (entry_keys-append xs ys)

In-entry_keys :
    (x : RuntimeLockEntry) (xs : List RuntimeLockEntry) → In x xs → In (entry_key x) (entry_keys xs)
In-entry_keys x [] m = m
In-entry_keys x (y ∷ ys) (inl e) = inl (ap (λ z. entry_key z) e)
In-entry_keys x (y ∷ ys) (inr m) = inr (In-entry_keys x ys m)

module _ (entry : RuntimeLockEntry) where
  entry_keys-replaced :
      (items : List RuntimeLockEntry) → entry_keys (replaced entry items) ≡ entry_keys items
  unfolding replaced
  entry_keys-replaced [] = refl
  entry_keys-replaced (item ∷ items) =
      ground (arith, key_beq_iff (entry_key item) (entry_key entry), entry_keys-replaced items)

  matching_absent :
      (items : List RuntimeLockEntry)
      → ¬ In (entry_key entry) (entry_keys items)
      → (matching entry items ≡ []) × (replaced entry items ≡ items)
  unfolding matching replaced
  matching_absent [] apart = (refl, refl)
  matching_absent (item ∷ items) apart = elim (Bool-cases (entry_key item == entry_key entry)) [
    | inl same ↦ absurd (apart (inl (sym ((key_beq_iff _ _).0 same))))
    | inr other ↦
        let (none_left, kept) = matching_absent items (λ m. apart (inr m)) in
        (rw other none_left, rw other (ap (λ t. item ∷ t) kept))
  ]

  absent_of_matching :
      (items : List RuntimeLockEntry)
      → is_empty (matching entry items) ≡ true
      → ¬ In (entry_key entry) (entry_keys items)
  unfolding matching
  absent_of_matching [] h m = m
  absent_of_matching (item ∷ items) h m = elim (Bool-cases (entry_key item == entry_key entry)) [
    | inl same ↦ ground arith
    | inr other ↦ elim m [
      | inl e ↦ false≢true (sym other ∙ (key_beq_iff _ _).1 (sym e))
      | inr later ↦ absent_of_matching items (ground arith) later
    ]
  ]

  matching_settled :
      (items : List RuntimeLockEntry)
      → IsUnique (entry_keys items)
      → In entry items
      → (matching entry items ≡ entry ∷ []) × (replaced entry items ≡ items)
  unfolding matching replaced
  matching_settled [] u m = absurd m
  matching_settled (item ∷ items) u (inl e) =
      let same : (entry_key item == entry_key entry) ≡ true =
        (key_beq_iff _ _).1 (ap (λ z. entry_key z) (sym e)) in
      let (none_left, kept) =
        matching_absent items (λ m. u.0 (subst (λ z. In (entry_key z) (entry_keys items)) e m)) in
      (rw (same, none_left) (ap (λ z. z ∷ []) (sym e)), rw same (cc (e, kept)))
  matching_settled (item ∷ items) u (inr m) =
      elim (Bool-cases (entry_key item == entry_key entry)) [
        | inl same ↦ absurd (
            u.0 (
              subst (λ k. In k (entry_keys items)) (sym ((key_beq_iff _ _).0 same))
                (In-entry_keys entry items m)))
        | inr other ↦
            let (found, kept) = matching_settled items u.1 m in
            (rw other found, rw other (ap (λ t. item ∷ t) kept))
      ]

  In-replaced :
      (items : List RuntimeLockEntry)
      → is_empty (matching entry items) ≡ false
      → In entry (replaced entry items)
  unfolding matching replaced
  In-replaced [] h = absurd (false≢true (sym h))
  In-replaced (item ∷ items) h = elim (Bool-cases (entry_key item == entry_key entry)) [
    | inl same ↦ inl (rw same refl)
    | inr other ↦ inr (In-replaced items (ground arith))
  ]

  In-proposed_entries : (items : List RuntimeLockEntry) → In entry (proposed_entries entry items)
  unfolding proposed_entries
  In-proposed_entries items = elim (Bool-cases (is_empty (matching entry items))) [
    | inl new ↦ rw new (In-append_right entry (replaced entry items) (entry ∷ []) (inl refl))
    | inr old ↦ rw old (In-replaced items old)
  ]

  proposed_entries-IsUnique :
      (items : List RuntimeLockEntry)
      → IsUnique (entry_keys items)
      → IsUnique (entry_keys (proposed_entries entry items))
  unfolding proposed_entries
  proposed_entries-IsUnique items u = elim (Bool-cases (is_empty (matching entry items))) [
    | inl new ↦
        rw (new, entry_keys-append (replaced entry items) (entry ∷ []), entry_keys-replaced items)
          (IsUnique-snoc (entry_keys items) (entry_key entry) u (absent_of_matching items new))
    | inr old ↦ rw (old, entry_keys-replaced items) u
  ]

  -- Under its own key the proposed entries hold the planned entry.
  find-same :
      (items : List RuntimeLockEntry)
      → is_empty (matching entry items) ≡ false
      → find (entry_key entry) (replaced entry items) ≡ some entry
  unfolding find matching replaced
  find-same [] h = absurd (false≢true (sym h))
  find-same (item ∷ items) h = elim (Bool-cases (entry_key item == entry_key entry)) [
    | inl same ↦ rw (same, (key_beq_iff (entry_key entry) (entry_key entry)).1 refl) refl
    | inr other ↦ rw (other, other) (find-same items (ground arith))
  ]

  find-snoc :
      (items : List RuntimeLockEntry)
      → is_empty (matching entry items) ≡ true
      → find (entry_key entry) (replaced entry items ++ entry ∷ []) ≡ some entry
  unfolding find matching replaced
  find-snoc [] h = rw ((key_beq_iff (entry_key entry) (entry_key entry)).1 refl) refl
  find-snoc (item ∷ items) h = elim (Bool-cases (entry_key item == entry_key entry)) [
    | inl same ↦ ground arith
    | inr other ↦ rw (other, other) (find-snoc items (ground arith))
  ]

  find-other :
      (key : EntryKey) (items rest : List RuntimeLockEntry)
      → (entry_key entry == key) ≡ false
      → find key (replaced entry items ++ rest) ≡ find key (items ++ rest)
  unfolding find replaced
  find-other key [] rest h = refl
  find-other key (item ∷ items) rest h = elim (Bool-cases (entry_key item == entry_key entry)) [
    | inl same ↦
        let apart : (entry_key item == key) ≡ false =
          subst (λ k. (k == key) ≡ false)
            (sym ((key_beq_iff (entry_key item) (entry_key entry)).0 same)) h in
        rw (same, h, apart) (find-other key items rest h)
    | inr other ↦ rw (other, find-other key items rest h)
  ]

  find-snoc_other :
      (key : EntryKey) (items : List RuntimeLockEntry)
      → (entry_key entry == key) ≡ false
      → find key (items ++ entry ∷ []) ≡ find key items
  unfolding find
  find-snoc_other key [] h = rw h refl
  find-snoc_other key (item ∷ items) h = rw (find-snoc_other key items h)

  settled :
      (items : List RuntimeLockEntry)
      → IsUnique (entry_keys items)
      → In entry items
      → (operation_of entry (matching entry items) ≡ no_change)
        × (proposed_entries entry items ≡ items)
  unfolding operation_of proposed_entries
  settled items u m =
      let (found, kept) = matching_settled items u m in
      (rw (found, (list_beq_iff (entry ∷ []) (entry ∷ [])).1 refl) refl, rw found kept)

  -- The proposed lock is well formed again: no two entries share a scope, target and package.
  pub lock_ok-proposed_lock :
      (lock : RuntimeLock) → lock_ok lock ≡ true → lock_ok (proposed_lock entry lock) ≡ true
  unfolding lock_ok proposed_lock
  lock_ok-proposed_lock lock h =
      (all_distinct_iff _).1
        (proposed_entries-IsUnique lock.entries ((all_distinct_iff (entry_keys lock.entries)).0 h))

  -- The proposed lock holds the planned entry under its key, and every other key keeps its entry.
  pub find-proposed_lock :
      (lock : RuntimeLock) (key : EntryKey)
      → find key (proposed_lock entry lock).entries
        ≡ (if entry_key entry == key then some entry else find key lock.entries)
  unfolding proposed_lock proposed_entries
  find-proposed_lock lock key = elim (Bool-cases (entry_key entry == key)) [
    | inl own ↦
        let under : entry_key entry ≡ key = (key_beq_iff (entry_key entry) key).0 own in
        elim (Bool-cases (is_empty (matching entry lock.entries))) [
          | inl new ↦
              rw (own, new)
                (subst (λ k. find k (replaced entry lock.entries ++ entry ∷ []) ≡ some entry) under
                  (find-snoc lock.entries new))
          | inr old ↦
              rw (own, old)
                (subst (λ k. find k (replaced entry lock.entries) ≡ some entry) under
                  (find-same lock.entries old))
        ]
    | inr other ↦ elim (Bool-cases (is_empty (matching entry lock.entries))) [
      | inl new ↦
          rw (other, new)
            (find-other key lock.entries (entry ∷ []) other
              ∙ find-snoc_other key lock.entries other)
      | inr old ↦
          rw (other, old)
            (subst (λ t. find key t ≡ find key lock.entries)
              (append-nil (replaced entry lock.entries))
              (find-other key lock.entries [] other
                ∙ ap (λ t. find key t) (append-nil lock.entries)))
    ]
  ]

  -- Planning the same entry again on a well-formed lock changes nothing.
  pub planned_operation-proposed_lock :
      (lock : RuntimeLock)
      → lock_ok lock ≡ true
      → (planned_operation entry (proposed_lock entry lock) ≡ no_change)
        × (proposed_lock entry (proposed_lock entry lock) ≡ proposed_lock entry lock)
  unfolding planned_operation lock_ok proposed_lock
  planned_operation-proposed_lock lock h =
      let u = (all_distinct_iff (entry_keys lock.entries)).0 h in
      let (same, kept) =
        settled (proposed_entries entry lock.entries) (proposed_entries-IsUnique lock.entries u)
          (In-proposed_entries lock.entries) in
      (same, ap (λ t. record { entries = t }) kept)

  -- On a well-formed lock nothing is to be changed exactly when the lock has the planned entry.
  pub planned_operation_iff :
      (lock : RuntimeLock)
      → lock_ok lock ≡ true
      → (planned_operation entry lock ≡ no_change) ↔ In entry lock.entries
  unfolding planned_operation operation_of matching lock_ok
  planned_operation_iff lock h = (
    λ e. elim (Bool-cases (list_beq (matching entry lock.entries) (entry ∷ []))) [
      | inl found ↦
          ((In-filter (λ item. entry_key item == entry_key entry) entry lock.entries).0 (
            subst (λ t. In entry t)
              (sym ((list_beq_iff (matching entry lock.entries) (entry ∷ [])).0 found))
              (inl refl))).0
      | inr differs ↦ absurd (ground arith)
    ],
    λ m. (settled lock.entries ((all_distinct_iff (entry_keys lock.entries)).0 h) m).0,
  )

  -- A plan without a change proposes the lock as it is.
  pub proposed_lock_settled :
      (lock : RuntimeLock)
      → lock_ok lock ≡ true
      → planned_operation entry lock ≡ no_change
      → proposed_lock entry lock ≡ lock
  unfolding proposed_lock lock_ok
  proposed_lock_settled lock h e =
      let u = (all_distinct_iff (entry_keys lock.entries)).0 h in
      ap (λ t. record { entries = t })
        (settled lock.entries u ((planned_operation_iff lock h).0 e)).1
