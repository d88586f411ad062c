-- ===== src/Security.antt =====
-- security/security_manager.cpp, SecurityManager: access control lists, the audit trail and the
-- security policies. Resources and processes are names that are only compared, so numbers stand
-- for them. The clock's reading is an argument `now`. The setup functions that `initialize`
-- calls are not in the repository: they are the argument `setup`. The texts sent to the event
-- logger and the mutexes are left out: an operation is one step.
pub mod Access
pub mod Audit
pub mod Policies
mod Tests
use kernelc_moderne.Prelude.{
  ℕ, ◌+◌, ◌-◌, ◌/◌, ◌%◌, ◌^◌, Bool, true, false, not, ◌&&◌, ◌||◌, List, [], ◌∷◌, ◌++◌, Option, none,
  some, ltb, leb, ◌==◌, if◌then◌else◌, length, lookup, insert,
}

pub data SecurityLevel : Type 0 where
  low medium high critical : SecurityLevel

-- The value of the enumerator.
pub level_value : SecurityLevel → ℕ
level_value SecurityLevel.low = 0
level_value SecurityLevel.medium = 1
level_value SecurityLevel.high = 2
level_value SecurityLevel.critical = 3

-- `permissions` is the number whose binary digits are the bitset's.
pub record AccessControlEntry : Type 0 where
  pub user_id : ℕ
  pub group_id : ℕ
  pub permissions : ℕ

pub data Action : Type 0 where
  set_permissions_done access_denied access_check : Action

pub record AuditRecord : Type 0 where
  pub user_id : ℕ
  pub action : Action
  pub timestamp : ℕ
  pub success : Bool

pub record SecurityPolicy : Type 0 where
  pub level : SecurityLevel
  pub allow_file_access : Bool
  pub allow_networking : Bool
  pub allowed_paths : List (List ℕ)

-- One line of the security log, by its parts.
pub record LogEntry : Type 0 where
  pub timestamp : ℕ
  pub severity : SecurityLevel
  pub process : ℕ

pub record SecurityManager : Type 0 where
  pub initialized : Bool
  pub acls : List (ℕ × List AccessControlEntry)
  pub audit_trail : List AuditRecord
  pub security_policies : List (ℕ × SecurityPolicy)
  pub security_log : List LogEntry

-- 0xFFFFFFFF
abbrev pub any_id : ℕ
any_id = 2 ^ 32 - 1

pub new_manager : SecurityManager
new_manager = record {
  initialized = false;
  acls = [];
  audit_trail = [];
  security_policies = [];
  security_log = [];
}

-- `setup` gives the state after the setup functions and whether they returned normally.
pub initialize :
    (SecurityManager → SecurityManager × Bool) → SecurityManager → SecurityManager × Bool
initialize setup s =
    if s.initialized
    then (s, true)
    else (let (s', returned) = setup s in
        if returned
        then (record s' { security_policies = []; security_log = []; initialized = true }, true)
        else (s', false))

pub log_audit_event : ℕ → SecurityManager → ℕ → Action → Bool → SecurityManager
log_audit_event now s user action success = record s {
  audit_trail =
      s.audit_trail
      ++ (record { user_id = user; action = action; timestamp = now; success = success } ∷ []);
}

-- The entry of exactly this user and group gets the permissions; without one, a new entry is
-- appended.
pub set_entry : ℕ → ℕ → ℕ → List AccessControlEntry → List AccessControlEntry
set_entry user group permissions [] =
    record { user_id = user; group_id = group; permissions = permissions } ∷ []
set_entry user group permissions (ace ∷ rest) =
    let others = set_entry user group permissions rest in
    if (ace.user_id == user) && (ace.group_id == group)
    then record ace { permissions = permissions } ∷ rest
    else ace ∷ others

-- `acls[resource]`, which is empty where the resource has none.
pub entries_of : List (ℕ × List AccessControlEntry) → ℕ → List AccessControlEntry
entries_of acls resource = elim (lookup resource acls) [ none ↦ [] | some entries ↦ entries ]

pub set_permissions : ℕ → SecurityManager → ℕ → ℕ → ℕ → ℕ → SecurityManager × Bool
set_permissions now s resource user group permissions =
    let entries = set_entry user group permissions (entries_of s.acls resource) in
    (
      log_audit_event now (record s { acls = insert resource entries s.acls }) user
          Action.set_permissions_done true,
      true,
    )

-- The condition of the loop of `checkAccess`.
pub matches : ℕ → ℕ → AccessControlEntry → Bool
matches user group ace =
    ((ace.user_id == user) || (ace.user_id == any_id))
    && ((ace.group_id == group) || (ace.group_id == any_id))

-- `permissions.test(n)`; `none` where it throws.
pub test_permission : ℕ → ℕ → Option Bool
test_permission permissions n = if ltb n 32 then some ((permissions / 2 ^ n) % 2 == 1) else none

-- The permissions of the first entry that matches.
pub first_match : ℕ → ℕ → List AccessControlEntry → Option ℕ
first_match user group [] = none
first_match user group (ace ∷ rest) =
    let later = first_match user group rest in
    if matches user group ace then some ace.permissions else later

-- The loop of `checkAccess` over the entries. `none` stands for the exception, which leaves the
-- state as it was.
pub check_entries :
    ℕ → SecurityManager → List AccessControlEntry → ℕ → ℕ → ℕ → SecurityManager × Option Bool
check_entries now s entries user group requested = elim (first_match user group entries) [
  | none ↦ (s, some false)
  | some permissions ↦ elim (test_permission permissions requested) [
    | none ↦ (s, none)
    | some granted ↦ (log_audit_event now s user Action.access_check granted, some granted)
  ]
]

pub check_access : ℕ → SecurityManager → ℕ → ℕ → ℕ → ℕ → SecurityManager × Option Bool
check_access now s resource user group requested =
    if not s.initialized then (s, some false) else (elim (lookup resource s.acls) [
      | none ↦ (log_audit_event now s user Action.access_denied false, some false)
      | some entries ↦ check_entries now s entries user group requested
    ])

-- No path is empty.
pub all_named : List (List ℕ) → Bool
all_named [] = true
all_named (path ∷ rest) = let others = all_named rest in if length path == 0 then false else others

pub validate_policy : SecurityPolicy → Bool
validate_policy p =
    if ltb (level_value p.level) (level_value SecurityLevel.low)
      || ltb (level_value SecurityLevel.critical) (level_value p.level)
    then false
    else all_named p.allowed_paths

pub log_security_event : ℕ → SecurityManager → ℕ → SecurityLevel → SecurityManager
log_security_event now s process severity = record s {
  security_log =
      s.security_log ++ (record { timestamp = now; severity = severity; process = process } ∷ []);
}

pub set_security_policy : ℕ → SecurityManager → ℕ → SecurityPolicy → SecurityManager × Bool
set_security_policy now s process policy =
    if not s.initialized then (s, false) else if not (validate_policy policy) then (s, false) else (
      log_security_event now
          (record s { security_policies = insert process policy s.security_policies }) process
          policy.level,
      true,
    )

pub shutdown : SecurityManager → SecurityManager
shutdown s =
    if not s.initialized
    then s
    else record s { security_policies = []; security_log = []; initialized = false }
