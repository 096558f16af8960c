-- ===== src/Tests/Data.antt =====
-- The data that the tests share.
use workflow_enterprise_comp.Prelude.{String, true, none, some, [], ◌∷◌}
use workflow_enterprise_comp.Entities.{
  Permission, Role, User, LoginResponse, MeResponse, Audit, Compliance,
}
use workflow_enterprise_comp.Session.{App, Storage, AuthState, idle, authenticated}

abbrev pub permission_of : String → Permission
permission_of route = record { name = route; route = route }

abbrev pub auditor : Role
auditor = record {
  id = "r2";
  created_at = "2026-01-01T00:00:00Z";
  updated_at = "2026-01-01T00:00:00Z";
  name = "Auditor";
  code = "auditor";
  description = none;
  permissions = none;
}

abbrev pub admin : Role
admin = record auditor { id = "r1"; name = "Administrator"; code = "admin" }

abbrev pub user_of : String → User
user_of name = record {
  id = name;
  created_at = "2026-01-01T00:00:00Z";
  updated_at = "2026-01-01T00:00:00Z";
  username = name;
  email = none;
  role_id = none;
  role = none;
  status = "active";
  last_login_at = none;
}

abbrev pub alice : MeResponse
alice = record {
  user = user_of "alice";
  role = admin;
  permissions = permission_of "POST /api/v1/audits/search" ∷ [];
}

abbrev pub bob : MeResponse
bob = record {
  user = user_of "bob";
  role = auditor;
  permissions = permission_of "POST /api/v1/audits/start" ∷ [];
}

abbrev pub bob_login : LoginResponse
bob_login = record {
  access_token = "token-of-bob";
  token_type = "Bearer";
  expires_in = 3600;
  user = record {
    id = "bob";
    username = "bob";
    email = none;
    role_id = none;
    role_code = "auditor";
    role_name = none;
    last_login = none;
  };
}

abbrev pub bob_auth : AuthState
bob_auth = record {
  token = some "token-of-bob";
  user = some bob.user;
  role = some bob.role;
  permissions = bob.permissions;
  status = authenticated;
}

abbrev pub fresh_storage : Storage
fresh_storage = record { available = true; stored = none }

abbrev pub fresh_app : App
fresh_app = record {
  client = none;
  storage = fresh_storage;
  auth = record { token = none; user = none; role = none; permissions = []; status = idle };
  me_cache = none;
}

abbrev pub audit : Audit
audit = record {
  id = "a1";
  created_at = "2026-01-01T00:00:00Z";
  updated_at = "2026-01-01T00:00:00Z";
  title = "Yearly audit";
  description = some "All of it";
  status = "scheduled";
  compliance_id = some "c7";
  auditor_id = none;
  scheduled_at = some "2026-08-08T10:30:15Z";
  started_at = none;
  completed_at = none;
}

abbrev pub compliance : Compliance
compliance = record {
  id = "c7";
  created_at = "2026-01-01T00:00:00Z";
  updated_at = "2026-01-01T00:00:00Z";
  name = "Access reviews";
  description = none;
  status = "active";
  risk_level = "high";
  owner_id = none;
  regulation_id = none;
  due_date = some "2026-08-08T10:30:15Z";
  last_reviewed_at = none;
  metadata = none;
}
