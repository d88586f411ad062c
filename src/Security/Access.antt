-- ===== src/Security/Access.antt =====
-- The decisions of `checkAccess`, and what `setPermissions` changes in them.
use kernelc_moderne.Prelude.{
  ℕ, ◌≡◌, refl, ap, ◌∙◌, inl, inr, Bool, true, false, ◌&&◌, List, [], ◌∷◌, Option, none, some, ◌==◌,
  if◌then◌else◌, ==_refl, ==_iff, sym, lookup, lookup-insert, arith, All, Bool-cases, Option-cases,
}
use kernelc_moderne.Security.{
  AccessControlEntry, SecurityManager, set_entry, entries_of, set_permissions, matches,
  test_permission, first_match, check_entries, check_access, log_audit_event,
}

-- The permissions that decide a request, read off the lists: those of the first entry that
-- matches, if the resource has one.
unfoldable pub deciding : SecurityManager → ℕ → ℕ → ℕ → Option ℕ
deciding s resource user group = first_match user group (entries_of s.acls resource)

-- The answer that the permissions give.
abbrev pub answer : Option ℕ → ℕ → Option Bool
answer none requested = some false
answer (some permissions) requested = test_permission permissions requested

pub check_entries-answer :
    (now : ℕ) (s : SecurityManager) (entries : List AccessControlEntry) (user group requested : ℕ)
    → (check_entries now s entries user group requested).1
      ≡ answer (first_match user group entries) requested
unfolding check_entries
check_entries-answer now s entries user group requested =
    elim (Option-cases (first_match user group entries)) [
      | inl e ↦ rw (e, check_entries) refl
      | inr (p, e) ↦ elim (Option-cases (test_permission p requested)) [
        | inl e' ↦ rw (e, check_entries, e') refl
        | inr (b, e') ↦ rw (e, check_entries, e') refl
      ]
    ]

-- An initialised manager answers a request with the permissions that decide it.
pub check_access-answer :
    (now : ℕ) (s : SecurityManager) (resource user group requested : ℕ)
    → s.initialized ≡ true
    → (check_access now s resource user group requested).1
      ≡ answer (deciding s resource user group) requested
unfolding check_access deciding entries_of first_match
check_access-answer now s resource user group requested init =
    elim (Option-cases (lookup resource s.acls)) [
      | inl e ↦ simp (init, e, check_access, entries_of)
      | inr (es, e) ↦
          simp
            (init, e, check_access, entries_of, check_entries-answer now s es user group requested)
    ]

-- An entry for other requests leaves the first match.
pub first_match-set_entry :
    (u g p user group : ℕ) (es : List AccessControlEntry)
    → matches user group (record { user_id = u; group_id = g; permissions = p }) ≡ false
    → first_match user group (set_entry u g p es) ≡ first_match user group es
unfolding first_match set_entry matches
first_match-set_entry u g p user group [] other = ground (arith, other)
first_match-set_entry u g p user group (e ∷ es) other =
    ground (arith, other, first_match-set_entry u g p user group es other)

-- Every entry that matches the user and the group is the entry of exactly them.
abbrev pub IsOwnEntry : ℕ → ℕ → AccessControlEntry → Type 0
IsOwnEntry user group ace =
    matches user group ace ≡ true → (ace.user_id ≡ user) × (ace.group_id ≡ group)

pub first_match-set_entry_self :
    (user group p : ℕ) (es : List AccessControlEntry)
    → All (IsOwnEntry user group) es
    → first_match user group (set_entry user group p es) ≡ some p
unfolding first_match set_entry matches
first_match-set_entry_self user group p [] own = ground arith
first_match-set_entry_self user group p (e ∷ es) own =
    ground (arith, own.0, first_match-set_entry_self user group p es own.1)

module _ (now : ℕ) (s : SecurityManager) (resource user group p : ℕ) where
  deciding-set_permissions :
      (r u g : ℕ)
      → deciding (set_permissions now s resource user group p).0 r u g ≡ (
          if resource == r
          then first_match u g (set_entry user group p (entries_of s.acls resource))
          else deciding s r u g)
  unfolding set_permissions deciding entries_of log_audit_event
  deciding-set_permissions r u g = elim (Bool-cases (resource == r)) [
    | inl e ↦ simp (
      lookup-insert resource r (set_entry user group p (entries_of s.acls resource)) s.acls,
      e,
      entries_of,
    )
    | inr e ↦ simp (
      lookup-insert resource r (set_entry user group p (entries_of s.acls resource)) s.acls,
      e,
      entries_of,
    )
  ]

  same_resource :
      (r u g : ℕ)
      → (resource == r) ≡ true
      → (resource == r)
          && matches u g (record { user_id = user; group_id = group; permissions = p })
        ≡ false
      → (if resource == r
          then first_match u g (set_entry user group p (entries_of s.acls resource))
          else deciding s r u g)
        ≡ deciding s resource u g
  unfolding deciding
  same_resource r u g e =
      rw e (λ other. first_match-set_entry user group p u g (entries_of s.acls resource) other)

  deciding-set_permissions_other :
      (r u g : ℕ)
      → (resource == r)
          && matches u g (record { user_id = user; group_id = group; permissions = p })
        ≡ false
      → deciding (set_permissions now s resource user group p).0 r u g ≡ deciding s r u g
  deciding-set_permissions_other r u g other = elim (Bool-cases (resource == r)) [
    | inr e ↦ deciding-set_permissions r u g ∙ rw e refl
    | inl e ↦
        deciding-set_permissions r u g
        ∙ same_resource r u g e other
        ∙ ap (λ k. deciding s k u g) ((==_iff resource r).0 e)
  ]

  deciding-set_permissions_own :
      All (IsOwnEntry user group) (entries_of s.acls resource)
      → deciding (set_permissions now s resource user group p).0 resource user group ≡ some p
  deciding-set_permissions_own own =
      deciding-set_permissions resource user group
      ∙ rw (==_refl resource)
          (first_match-set_entry_self user group p (entries_of s.acls resource) own)

  initialized-set_permissions :
      (set_permissions now s resource user group p).0.initialized ≡ s.initialized
  unfolding set_permissions log_audit_event
  initialized-set_permissions = refl

-- On an initialised manager, `setPermissions` changes the answer to no request but those for its
-- resource by a user and a group that its entry matches.
pub set_permissions_others :
    (now later : ℕ) (s : SecurityManager) (resource user group p r u g requested : ℕ)
    → s.initialized ≡ true
    → (resource == r) && matches u g (record { user_id = user; group_id = group; permissions = p })
      ≡ false
    → (check_access later (set_permissions now s resource user group p).0 r u g requested).1
      ≡ (check_access later s r u g requested).1
set_permissions_others now later s resource user group p r u g requested init other =
    check_access-answer later (set_permissions now s resource user group p).0 r u g requested
      (initialized-set_permissions now s resource user group p ∙ init)
    ∙ ap (λ d. answer d requested)
        (deciding-set_permissions_other now s resource user group p r u g other)
    ∙ sym (check_access-answer later s r u g requested init)

-- On an initialised manager, where the resource has no entry but that of exactly this user and
-- group that matches them, `setPermissions` decides the requests of this user and group for the
-- resource: the answer is the bit of the permissions set, and a request past bit 31 throws.
pub set_permissions_granted :
    (now later : ℕ) (s : SecurityManager) (resource user group p requested : ℕ)
    → s.initialized ≡ true
    → All (IsOwnEntry user group) (entries_of s.acls resource)
    → (check_access later
        (set_permissions now s resource user group p).0
        resource
        user
        group
        requested).1
      ≡ test_permission p requested
set_permissions_granted now later s resource user group p requested init own =
    check_access-answer later (set_permissions now s resource user group p).0 resource user group
      requested (initialized-set_permissions now s resource user group p ∙ init)
    ∙ ap (λ d. answer d requested) (deciding-set_permissions_own now s resource user group p own)
