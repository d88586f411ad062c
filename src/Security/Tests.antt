-- ===== src/Security/Tests.antt =====
-- A manager with one resource, its entries and one policy.
use kernelc_moderne.Prelude.{◌≡◌, refl, true, false, [], ◌∷◌, some, lookup}
use kernelc_moderne.Security.{
  SecurityLevel, SecurityManager, SecurityPolicy, any_id, check_access, test_permission, matches,
  check_entries, first_match,
}
use kernelc_moderne.Security.Audit.{Checked, check_access-Checked}

abbrev running : SecurityManager
running = record {
  initialized = true;
  acls =
      (
        7,
        record { user_id = 1; group_id = 2; permissions = 6 }
            ∷ record { user_id = any_id; group_id = 3; permissions = 4 }
            ∷ [],
      )
      ∷ [];
  audit_trail = [];
  security_policies = [];
  security_log = [];
}

abbrev policy : SecurityPolicy
policy = record {
  level = SecurityLevel.high;
  allow_file_access = true;
  allow_networking = false;
  allowed_paths = (47 ∷ []) ∷ [];
}

check_access-Checked_example : Checked 9 running 7 1 2 1 (check_access 9 running 7 1 2 1)
check_access-Checked_example = check_access-Checked 9 running 7 1 2 1

-- The first entry decides, and its bit 1 is set.
granted : (check_access 9 running 7 1 2 1).1 ≡ some true
unfolding check_access lookup check_entries first_match matches test_permission
granted = refl
