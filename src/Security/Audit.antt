-- ===== src/Security/Audit.antt =====
-- What `checkAccess` answers and what it records in the audit trail, on each of its paths.
use kernelc_moderne.Prelude.{
  ℕ, ◌≡◌, ◌≤◌, ◌<◌, ◌↔◌, refl, ◌⊎◌, inl, inr, ◌/◌, ◌%◌, ◌^◌, Bool, true, false, List, [], ◌∷◌, ◌++◌,
  Option, none, some, arith, ltb, ltb→lt, ◌==◌, ==_iff, lookup, All, Bool-cases, Option-cases,
}
use kernelc_moderne.Security.{
  AccessControlEntry, Action, SecurityManager, any_id, matches, test_permission, first_match,
  check_entries, check_access, log_audit_event,
}

-- The entry is for the user and the group, or for any.
abbrev pub Matches : ℕ → ℕ → AccessControlEntry → Type 0
Matches user group ace =
    ((ace.user_id ≡ user) ⊎ (ace.user_id ≡ any_id))
    × ((ace.group_id ≡ group) ⊎ (ace.group_id ≡ any_id))

-- The first of the entries that matches.
pub data Decides (user group : ℕ) : List AccessControlEntry → AccessControlEntry → Type 0 where
  first :
      {ace : AccessControlEntry} {rest : List AccessControlEntry}
      → Matches user group ace
      → Decides user group (ace ∷ rest) ace
  later :
      {ace decider : AccessControlEntry} {rest : List AccessControlEntry}
      → (Matches user group ace → ⊥)
      → Decides user group rest decider
      → Decides user group (ace ∷ rest) decider

-- The manager with one more record, and all else as it was.
abbrev pub recorded : ℕ → SecurityManager → ℕ → Action → Bool → SecurityManager
recorded now s user action success = record s {
  audit_trail =
      s.audit_trail
      ++ (record { user_id = user; action = action; timestamp = now; success = success } ∷ []);
}

-- The five paths, each with what leads there and its result.
pub data Checked (now : ℕ) (s : SecurityManager) (resource user group requested : ℕ)
    : SecurityManager × Option Bool → Type 0 where
  off : s.initialized ≡ false → Checked now s resource user group requested (s, some false)
  unknown :
      s.initialized ≡ true
      → lookup resource s.acls ≡ none
      → Checked now s resource user group requested
          (recorded now s user Action.access_denied false, some false)
  unmatched :
      (entries : List AccessControlEntry)
      → s.initialized ≡ true
      → lookup resource s.acls ≡ some entries
      → All (λ ace. Matches user group ace → ⊥) entries
      → Checked now s resource user group requested (s, some false)
  thrown :
      (entries : List AccessControlEntry) (ace : AccessControlEntry)
      → s.initialized ≡ true
      → lookup resource s.acls ≡ some entries
      → Decides user group entries ace
      → 32 ≤ requested
      → Checked now s resource user group requested (s, none)
  decided :
      (entries : List AccessControlEntry) (ace : AccessControlEntry) (granted : Bool)
      → s.initialized ≡ true
      → lookup resource s.acls ≡ some entries
      → Decides user group entries ace
      → requested < 32
      → ((granted ≡ true) ↔ ((ace.permissions / 2 ^ requested) % 2 ≡ 1))
      → Checked now s resource user group requested
          (recorded now s user Action.access_check granted, some granted)

Matches-matches :
    (user group : ℕ) (ace : AccessControlEntry)
    → matches user group ace ≡ true
    → Matches user group ace
unfolding matches
Matches-matches user group ace h = (ground (arith, h), ground (arith, h))

not-Matches :
    (user group : ℕ) (ace : AccessControlEntry)
    → matches user group ace ≡ false
    → Matches user group ace
    → ⊥
unfolding matches
not-Matches user group ace h m = ground (arith, h, m.0, m.1)

-- The loop either finds no entry that matches, or the permissions of the first one.
data Found (user group : ℕ) (entries : List AccessControlEntry) : Type 0 where
  nowhere :
      first_match user group entries ≡ none
      → All (λ ace. Matches user group ace → ⊥) entries
      → Found user group entries
  found :
      (ace : AccessControlEntry)
      → first_match user group entries ≡ some (ace.permissions)
      → Decides user group entries ace
      → Found user group entries

first_match-Found : (user group : ℕ) (entries : List AccessControlEntry) → Found user group entries
unfolding first_match
first_match-Found user group [] = nowhere refl tt
first_match-Found user group (ace ∷ rest) = elim (Bool-cases (matches user group ace)) [
  | inl e ↦ found ace (rw (first_match, e) refl) (first (Matches-matches user group ace e))
  | inr e ↦ elim (first_match-Found user group rest) [
    | nowhere h none_here ↦
        nowhere (rw (first_match, e) h) (not-Matches user group ace e, none_here)
    | found a h d ↦ found a (rw (first_match, e) h) (later (not-Matches user group ace e) d)
  ]
]

test_permission_far : (permissions n : ℕ) → 32 ≤ n → test_permission permissions n ≡ none
unfolding test_permission
test_permission_far permissions n h = ground (arith, h)

test_permission_near :
    (permissions n : ℕ)
    → n < 32
    → test_permission permissions n ≡ some ((permissions / 2 ^ n) % 2 == 1)
unfolding test_permission
test_permission_near permissions n h = ground (arith, h)

module _ (now : ℕ) (s : SecurityManager) (resource user group requested : ℕ) where
  entries-Checked :
      (entries : List AccessControlEntry)
      → s.initialized ≡ true
      → lookup resource s.acls ≡ some entries
      → Checked now s resource user group requested
          (check_entries now s entries user group requested)
  unfolding check_entries log_audit_event
  entries-Checked entries on e = elim (first_match-Found user group entries) [
    | nowhere h none_here ↦ rw (check_entries, h) (Checked.unmatched entries on e none_here)
    | found ace h d ↦ elim (Bool-cases (ltb requested 32)) [
      | inl near ↦
          let lt = ltb→lt requested 32 near in
          rw (check_entries, h, test_permission_near ace.permissions requested lt)
            (Checked.decided entries ace ((ace.permissions / 2 ^ requested) % 2 == 1) on e d lt
              (==_iff ((ace.permissions / 2 ^ requested) % 2) 1))
      | inr far ↦
          let le : 32 ≤ requested = ground (arith, far) in
          rw (check_entries, h, test_permission_far ace.permissions requested le)
            (Checked.thrown entries ace on e d le)
    ]
  ]

module _ (now : ℕ) (s : SecurityManager) (resource user group requested : ℕ) where
  pub check_access_off :
      s.initialized ≡ false → check_access now s resource user group requested ≡ (s, some false)
  unfolding check_access
  check_access_off stopped = simp (stopped, check_access)

  check_access_unknown :
      s.initialized ≡ true
      → lookup resource s.acls ≡ none
      → check_access now s resource user group requested
        ≡ (log_audit_event now s user Action.access_denied false, some false)
  unfolding check_access
  check_access_unknown on e = simp (on, e, check_access)

  check_access_listed :
      (entries : List AccessControlEntry)
      → s.initialized ≡ true
      → lookup resource s.acls ≡ some entries
      → check_access now s resource user group requested
        ≡ check_entries now s entries user group requested
  unfolding check_access
  check_access_listed entries on e = simp (on, e, check_access)

-- `checkAccess` denies without a record on a manager that is not initialised, and with one if the
-- resource has no entries. Otherwise the first entry that is for the user and the group, or for any,
-- decides by the bit of the request: the answer is that bit, and exactly one record of it is
-- appended with the user and the time. If no entry matches it denies without a record; for a bit
-- past 31 it throws, without one. Nothing else changes.
pub check_access-Checked :
    (now : ℕ) (s : SecurityManager) (resource user group requested : ℕ)
    → Checked now s resource user group requested (check_access now s resource user group requested)
unfolding log_audit_event
check_access-Checked now s resource user group requested = elim (Bool-cases s.initialized) [
  | inr e ↦ rw (check_access_off now s resource user group requested e) (Checked.off e)
  | inl e ↦ elim (Option-cases (lookup resource s.acls)) [
    | inl f ↦
        rw (check_access_unknown now s resource user group requested e f) (Checked.unknown e f)
    | inr (entries, f) ↦
        rw (check_access_listed now s resource user group requested entries e f)
          (entries-Checked now s resource user group requested entries e f)
  ]
]
