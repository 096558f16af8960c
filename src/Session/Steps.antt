-- ===== src/Session/Steps.antt =====
-- Every way in which the session moves, in any order: answers to requests in flight, the login
-- form, the two readers of /auth/me, logging out, and loading the page again.
use workflow_enterprise_comp.Prelude.{
  ◌≡◌, ◌⊎◌, Bool, true, false, Option, String, none, [], arith, truthy, is_some,
}
use workflow_enterprise_comp.Entities.{LoginResponse, MeResponse}
use workflow_enterprise_comp.Client.{Answer, receive}
use workflow_enterprise_comp.Client.Receive.{receive_state}
use workflow_enterprise_comp.Session.{
  App, Storage, AuthState, AuthStatus, idle, authenticated, unauthenticated, boot, host, give_up,
  sign_in, load, bootstrap_fetched, bootstrap_cached, logout,
}

pub data Step (s : App) : App → Type 0 where
  answered : (a : Answer) → Step s (receive host s a).1
  entered : (res : LoginResponse) → Step s (sign_in res s)
  loaded : (me : MeResponse) → Step s (load me s)
  fetched : (me : MeResponse) → Step s (bootstrap_fetched me s)
  cached : Step s (bootstrap_cached s)
  refused : Step s (give_up s)
  left : Step s (logout s)
  reloaded : Step s (boot s.storage)

pub data Reach (s : App) : App → Type 0 where
  here : Reach s s
  next : {t u : App} → Reach s t → Step t u → Reach s u

-- Where the storage is available, a token that guards let through is the stored one.
abbrev pub IsKept : Bool → Option String → Option String → Type 0
IsKept false token stored = Unit
IsKept true token stored = (truthy token ≡ false) ⊎ (stored ≡ token)

-- What a session has at each status.
abbrev pub HasIdentity : AuthStatus → AuthState → Type 0
HasIdentity idle a = Unit
HasIdentity authenticated a = (is_some a.user ≡ true) × (is_some a.role ≡ true)
HasIdentity unauthenticated a =
    (a.token ≡ none) × (a.user ≡ none) × (a.role ≡ none) × (a.permissions ≡ [])

pub record IsValid (s : App) : Type 0 where
  pub synced : s.client ≡ s.auth.token
  pub kept : IsKept s.storage.available s.auth.token s.storage.stored
  pub identity : HasIdentity s.auth.status s.auth

boot-IsValid : (st : Storage) → IsValid (boot st)
unfolding boot
boot-IsValid st = ground arith

give_up-IsValid : {s : App} → IsValid s → IsValid (give_up s)
unfolding give_up
give_up-IsValid v = ground arith

sign_in-IsValid : (res : LoginResponse) {s : App} → IsValid s → IsValid (sign_in res s)
unfolding sign_in
sign_in-IsValid res v = ground arith

load-IsValid : (me : MeResponse) {s : App} → IsValid s → IsValid (load me s)
unfolding load
load-IsValid me v = ground arith

fetched-IsValid : (me : MeResponse) {s : App} → IsValid s → IsValid (bootstrap_fetched me s)
unfolding bootstrap_fetched
fetched-IsValid me v = ground arith

cached-IsValid : {s : App} → IsValid s → IsValid (bootstrap_cached s)
unfolding bootstrap_cached
cached-IsValid v = ground arith

logout-IsValid : {s : App} → IsValid s → IsValid (logout s)
unfolding logout
logout-IsValid v = ground arith

receive-IsValid : (a : Answer) {s : App} → IsValid s → IsValid (receive host s a).1
receive-IsValid a {s} v = ground (arith, receive_state host s a, give_up-IsValid v)

Step-IsValid : {s t : App} → Step s t → IsValid s → IsValid t
Step-IsValid (answered a) v = receive-IsValid a v
Step-IsValid (entered res) v = sign_in-IsValid res v
Step-IsValid (loaded me) v = load-IsValid me v
Step-IsValid (fetched me) v = fetched-IsValid me v
Step-IsValid cached v = cached-IsValid v
Step-IsValid refused v = give_up-IsValid v
Step-IsValid left v = logout-IsValid v
Step-IsValid {s} reloaded v = boot-IsValid s.storage

-- From loading the page on, in every state that any sequence of answers, sign-ins, session loads,
-- refusals, log-outs and reloads leads to: the client and the store hold the same token; a token
-- that the route guard accepts is the one in an available storage; an authenticated session has a
-- user and a role; and an unauthenticated one has no token, user, role or permission.
pub Reach-IsValid : (st : Storage) {s : App} → Reach (boot st) s → IsValid s
Reach-IsValid st here = boot-IsValid st
Reach-IsValid st (next r step) = Step-IsValid step (Reach-IsValid st r)
