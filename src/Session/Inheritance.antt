-- ===== src/Session/Inheritance.antt =====
-- Whose identity and permissions a session has, when another user signs in on the same page.
use workflow_enterprise_comp.Prelude.{◌≡◌, some, arith}
use workflow_enterprise_comp.Entities.{LoginResponse, MeResponse}
use workflow_enterprise_comp.Session.{
  App, give_up, sign_in, load, bootstrap_fetched, bootstrap_cached, logout,
}

-- The next user signs in: the form takes the token, loads the session, and the guarded routes
-- mount `SessionBootstrap`, which asks the cache first.
abbrev pub enter : LoginResponse → MeResponse → App → App
enter res me s = bootstrap_cached (load me (sign_in res s))

-- After a log-out the next user that signs in has their own token, identity and permissions.
pub enter-logout :
    (before me : MeResponse) (res : LoginResponse) (s : App)
    → ((enter res me (logout (bootstrap_fetched before s))).auth.token ≡ some res.access_token)
      × ((enter res me (logout (bootstrap_fetched before s))).auth.user ≡ some me.user)
      × ((enter res me (logout (bootstrap_fetched before s))).auth.role ≡ some me.role)
      × ((enter res me (logout (bootstrap_fetched before s))).auth.permissions ≡ me.permissions)
unfolding bootstrap_cached load sign_in logout bootstrap_fetched
enter-logout before me res s = ground arith

-- After a 401, while the cached /auth/me answer of the previous user is fresh, the next user that
-- signs in has their own token with the identity, role and permissions of the previous one.
pub enter-give_up :
    (before me : MeResponse) (res : LoginResponse) (s : App)
    → ((enter res me (give_up (bootstrap_fetched before s))).auth.token ≡ some res.access_token)
      × ((enter res me (give_up (bootstrap_fetched before s))).auth.user ≡ some before.user)
      × ((enter res me (give_up (bootstrap_fetched before s))).auth.role ≡ some before.role)
      × ((enter res me (give_up (bootstrap_fetched before s))).auth.permissions
          ≡ before.permissions)
unfolding bootstrap_cached load sign_in give_up bootstrap_fetched
enter-give_up before me res s = ground arith
