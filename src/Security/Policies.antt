-- ===== src/Security/Policies.antt =====
-- The policies and the life cycle of the manager.
use kernelc_moderne.Prelude.{
  ℕ, ◌≡◌, refl, ap, ◌∙◌, inl, inr, Bool, true, false, ◌&&◌, List, [], ◌∷◌, some, ◌==◌,
  if◌then◌else◌, lookup, insert, lookup-insert, arith, All, Bool-cases, sym, subst,
}
use kernelc_moderne.Security.{
  SecurityManager, SecurityPolicy, initialize, check_access, validate_policy, set_security_policy,
  shutdown, entries_of, first_match, log_security_event,
}
use kernelc_moderne.Security.Access.{deciding, answer, check_access-answer}
use kernelc_moderne.Security.Audit.{check_access_off}

-- Every policy in force passed the validation.
abbrev pub IsValid : SecurityManager → Type 0
IsValid s = All (λ e. validate_policy e.1 ≡ true) s.security_policies

pub All-insert {ℓ κ} :
    {A : Type ℓ} (P : A → Type κ) (k : ℕ) (v : A) (t : List (ℕ × A))
    → P v
    → All (λ e. P e.1) t
    → All (λ e. P e.1) (insert k v t)
unfolding insert
All-insert P k v [] p all = (p, tt)
All-insert P k v ((k', old) ∷ rest) p all = elim (Bool-cases (k == k')) [
  | inl e ↦ rw e (p, all.1)
  | inr e ↦ rw e (all.0, All-insert P k v rest p all.1)
]

module _ (now : ℕ) (s : SecurityManager) (process : ℕ) (policy : SecurityPolicy) where
  policy_off : s.initialized ≡ false → set_security_policy now s process policy ≡ (s, false)
  unfolding set_security_policy
  policy_off off = simp (off, set_security_policy)

  policy_bad :
      s.initialized ≡ true
      → validate_policy policy ≡ false
      → set_security_policy now s process policy ≡ (s, false)
  unfolding set_security_policy
  policy_bad on bad = simp (on, bad, set_security_policy)

  policy_set :
      s.initialized ≡ true
      → validate_policy policy ≡ true
      → set_security_policy now s process policy ≡ (
        log_security_event now
            (record s { security_policies = insert process policy s.security_policies })
            process
            policy.level,
        true,
      )
  unfolding set_security_policy
  policy_set on good = simp (on, good, set_security_policy)

  -- What a call with this result promises.
  abbrev Promise : ℕ → SecurityManager × Bool → Type 0
  Promise other (s', done) =
      IsValid s'
      × (done ≡ s.initialized && validate_policy policy)
      × (lookup other s'.security_policies
          ≡ (if done && (process == other) then some policy else lookup other s.security_policies))

-- A policy is accepted exactly on an initialised manager when it passes the validation. Then it
-- is in force for its process and no other process's policy changes; otherwise nothing changes.
-- Where every policy in force passed the validation, this stays so.
pub set_security_policy-IsValid :
    (now : ℕ) (s : SecurityManager) (process other : ℕ) (policy : SecurityPolicy)
    → IsValid s
    → let (s', done) = set_security_policy now s process policy in
      IsValid s'
      × (done ≡ s.initialized && validate_policy policy)
      × (lookup other s'.security_policies
          ≡ (if done && (process == other) then some policy else lookup other s.security_policies))
unfolding log_security_event
set_security_policy-IsValid now s process other policy valid = elim (Bool-cases s.initialized) [
  | inr off ↦
      subst (Promise now s process policy other) (sym (policy_off now s process policy off))
        (valid, ground (arith, off), refl)
  | inl on ↦ elim (Bool-cases (validate_policy policy)) [
    | inr bad ↦
        subst (Promise now s process policy other) (sym (policy_bad now s process policy on bad))
          (valid, ground (arith, on, bad), refl)
    | inl good ↦
        subst (Promise now s process policy other) (sym (policy_set now s process policy on good)) (
          All-insert (λ q. validate_policy q ≡ true) process policy s.security_policies good valid,
          ground (arith, on, good),
          lookup-insert process other policy s.security_policies,
        )
  ]
]

abbrev pub emptied : SecurityManager → SecurityManager
emptied s = record s { security_policies = []; security_log = [] }

shutdown_on :
    (s : SecurityManager)
    → s.initialized ≡ true
    → shutdown s ≡ record (emptied s) { initialized = false }
unfolding shutdown
shutdown_on s on = simp (on, shutdown)

shutdown_off : (s : SecurityManager) → (shutdown s).initialized ≡ false
unfolding shutdown
shutdown_off s = elim (Bool-cases s.initialized) [
  | inl on ↦ ap (λ r. r.initialized) (shutdown_on s on)
  | inr off ↦ simp (off, shutdown)
]

restarted :
    (setup : SecurityManager → SecurityManager × Bool) (s : SecurityManager)
    → setup (shutdown s) ≡ (shutdown s, true)
    → (initialize setup (shutdown s)).0 ≡ record (emptied (shutdown s)) { initialized = true }
unfolding initialize
restarted setup s clean = simp (shutdown_off s, clean, initialize)

same_acls :
    (s : SecurityManager) (resource user group : ℕ)
    → s.initialized ≡ true
    → deciding (record (emptied (shutdown s)) { initialized = true }) resource user group
      ≡ deciding s resource user group
unfolding deciding
same_acls s resource user group on =
    ap (λ r. first_match user group (entries_of r.acls resource)) (shutdown_on s on)

-- After a shutdown of an initialised manager every request for access and every policy is
-- refused without a trace. Initialising it again, with setup functions that return and change
-- nothing, brings back the answer to every request, and leaves no policy in force.
pub shutdown-initialize :
    (now : ℕ) (setup : SecurityManager → SecurityManager × Bool) (s : SecurityManager)
    (resource user group requested process : ℕ) (policy : SecurityPolicy)
    → s.initialized ≡ true
    → setup (shutdown s) ≡ (shutdown s, true)
    → (check_access now (shutdown s) resource user group requested ≡ (shutdown s, some false))
      × (set_security_policy now (shutdown s) process policy ≡ (shutdown s, false))
      × ((check_access now (initialize setup (shutdown s)).0 resource user group requested).1
          ≡ (check_access now s resource user group requested).1)
      × ((initialize setup (shutdown s)).0.security_policies ≡ [])
shutdown-initialize now setup s resource user group requested process policy on clean = (
  check_access_off now (shutdown s) resource user group requested (shutdown_off s),
  policy_off now (shutdown s) process policy (shutdown_off s),
  check_access-answer now (initialize setup (shutdown s)).0 resource user group requested
        (ap (λ r. r.initialized) (restarted setup s clean))
      ∙ ap (λ d. answer d requested)
          (ap (λ r. deciding r resource user group) (restarted setup s clean)
            ∙ same_acls s resource user group on)
      ∙ sym (check_access-answer now s resource user group requested on),
  ap (λ r. r.security_policies) (restarted setup s clean),
)
