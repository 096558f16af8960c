-- ===== src/Session.antt =====
-- The session: frontend/src/store/auth.slice.ts, the wiring of frontend/src/main.tsx, the `useAuth`
-- hook of frontend/src/hooks/useAuth.ts, and the route guards of frontend/src/router.tsx.
-- `App` is all the state they share: the client's module variable, the browser's storage under
-- "ch.token", the auth slice, and what the query cache holds under ["me"].
pub mod Store
pub mod Steps
pub mod Inheritance
pub mod Refusals
use workflow_enterprise_comp.Prelude.{
  String, Bool, true, false, ◌||◌, Option, none, some, List, [], ◌∷◌, str_eq, if◌then◌else◌,
  nonempty, truthy, any,
}
use workflow_enterprise_comp.Entities.{Permission, Role, User, LoginUser, LoginResponse, MeResponse}
use workflow_enterprise_comp.Client.{Host}

pub data AuthStatus : Type 0 where
  idle authenticated unauthenticated : AuthStatus

pub record AuthState : Type 0 where
  pub token : Option String
  pub user : Option User
  pub role : Option Role
  pub permissions : List Permission
  pub status : AuthStatus

-- `localStorage`: where it is not available every access throws.
pub record Storage : Type 0 where
  pub available : Bool
  pub stored : Option String

pub record App : Type 0 where
  pub client : Option String
  pub storage : Storage
  pub auth : AuthState
  pub me_cache : Option MeResponse

read_stored_token : Storage → Option String
read_stored_token st = if st.available then st.stored else none

-- `if (token) setItem else removeItem`, for the token that a text or null gives.
kept_token : Option String → Option String
kept_token none = none
kept_token (some t) = if nonempty t then some t else none

persist_token : Option String → Storage → Storage
unfolding kept_token
persist_token token st = if st.available then record st { stored = kept_token token } else st

initial_state : Storage → AuthState
unfolding read_stored_token
initial_state st = record {
  token = read_stored_token st;
  user = none;
  role = none;
  permissions = [];
  status = idle;
}

-- The reducers.
hydrate : Option String → AuthState → AuthState
hydrate token a = record a { token = token; status = idle }

session_loaded : MeResponse → AuthState → AuthState
session_loaded me a = record a {
  user = some me.user;
  role = some me.role;
  permissions = me.permissions;
  status = authenticated;
}

session_failed : AuthState → AuthState
session_failed a = record {
  token = none;
  user = none;
  role = none;
  permissions = [];
  status = unauthenticated;
}

minimal_user : LoginUser → User
minimal_user u = record {
  id = u.id;
  created_at = "";
  updated_at = "";
  username = u.username;
  email = u.email;
  role_id = u.role_id;
  role = none;
  status = "active";
  last_login_at = none;
}

-- `signedIn` and `signedOut` persist the token too: a reducer over the slice and the storage.
signed_in : String → LoginUser → App → App
unfolding persist_token minimal_user
signed_in token user s = record s {
  storage = persist_token (some token) s.storage;
  auth = record (s.auth) { token = some token; user = some (minimal_user user); status = idle };
}

signed_out : App → App
unfolding persist_token
signed_out s = record s {
  storage = persist_token none s.storage;
  auth = record {
    token = none;
    user = none;
    role = none;
    permissions = [];
    status = unauthenticated;
  };
}

-- Loading the page: the store reads the storage, and main.tsx hands the client the same token.
unfoldable pub boot : Storage → App
unfolding read_stored_token initial_state
boot st = record {
  client = read_stored_token st;
  storage = st;
  auth = initial_state st;
  me_cache = none;
}

-- The handler that main.tsx registers, and what `SessionBootstrap` does on an error.
unfoldable pub give_up : App → App
unfolding session_failed
give_up s = record s { client = none; auth = session_failed s.auth }

abbrev pub host : Host App
host = record { token = λ s. s.client; unauthorized = give_up }

-- The login form on a token: set it, and record it.
unfoldable pub sign_in : LoginResponse → App → App
unfolding signed_in
sign_in res s = signed_in res.access_token res.user (record s { client = some res.access_token })

-- /auth/me answered the login form, which calls it past the cache.
unfoldable pub load : MeResponse → App → App
unfolding session_loaded
load me s = record s { auth = session_loaded me s.auth }

-- /auth/me answered `SessionBootstrap`, which caches it, and the cache answered for it.
unfoldable pub bootstrap_fetched : MeResponse → App → App
unfolding load
bootstrap_fetched me s = load me (record s { me_cache = some me })

-- While the cached session is fresh, `SessionBootstrap` asks nothing.
unfoldable pub bootstrap_cached : App → App
unfolding load
bootstrap_cached s = elim s.me_cache [ none ↦ s | some me ↦ load me s ]

-- `logout` of `useAuth`.
unfoldable pub logout : App → App
unfolding signed_out
logout s = signed_out (record s { me_cache = none; client = none })

unfoldable pub has_code : String → Option Role → Bool
has_code code none = false
has_code code (some r) = str_eq r.code code

-- `can` of `useAuth`.
unfoldable pub can : AuthState → String → Bool
unfolding has_code
can a route =
    has_code "admin" a.role || any (λ (p : Permission). str_eq p.route route) a.permissions

pub data Guarded : Type 0 where
  to_login : Guarded
  children : Guarded

-- `RequireAuth`.
unfoldable pub require_auth : AuthState → Guarded
require_auth a = if truthy a.token then children else to_login
