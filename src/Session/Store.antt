-- ===== src/Session/Store.antt =====
-- What of a session outlives it in the browser's storage.
use workflow_enterprise_comp.Prelude.{◌≡◌, true, some, none, arith, nonempty}
use workflow_enterprise_comp.Entities.{LoginResponse}
use workflow_enterprise_comp.Session.{
  App, boot, give_up, sign_in, logout, require_auth, to_login, children,
}

-- A token that the login form was given comes back when the page is loaded again, and the route
-- guard lets it through, if the storage is available and the token is not empty.
pub boot-sign_in :
    (res : LoginResponse) (s : App)
    → s.storage.available ≡ true
    → nonempty res.access_token ≡ true
    → ((boot (sign_in res s).storage).auth.token ≡ some res.access_token)
      × ((boot (sign_in res s).storage).client ≡ some res.access_token)
      × (require_auth (boot (sign_in res s).storage).auth ≡ children)
unfolding boot sign_in require_auth
boot-sign_in res s h k = ground arith

-- After logging out the page starts without a token, whatever was stored, and the guard sends to
-- the login form.
pub boot-logout :
    (s : App)
    → ((boot (logout s).storage).auth.token ≡ none)
      × (require_auth (boot (logout s).storage).auth ≡ to_login)
unfolding boot logout require_auth
boot-logout s = ground arith

-- Where the storage is available, giving a session up on a 401 leaves the token that was refused
-- in the storage: loading the page again brings it back, and the guard lets it through.
pub boot-give_up :
    (res : LoginResponse) (s : App)
    → s.storage.available ≡ true
    → nonempty res.access_token ≡ true
    → (require_auth (give_up (sign_in res s)).auth ≡ to_login)
      × ((boot (give_up (sign_in res s)).storage).auth.token ≡ some res.access_token)
      × (require_auth (boot (give_up (sign_in res s)).storage).auth ≡ children)
unfolding boot give_up sign_in require_auth
boot-give_up res s h k = ground arith
