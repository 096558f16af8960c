-- ===== src/Routing.antt =====
-- The routes of frontend/src/router.tsx. An address is the list of its segments; the page of a route
-- under /app is behind the two guards, of which the first tests the token (`require_auth`) and the
-- second waits for /auth/me.
pub mod Settling
use Prim.Native.Char.{Char, code}
use workflow_enterprise_comp.Prelude.{
  ℕ, zero, suc, ◌+◌, ◌&&◌, ◌==◌, leb, String, Bool, true, false, Option, none, some, List, [], ◌∷◌,
  if◌then◌else◌, ◌+s◌,
}
use workflow_enterprise_comp.Session.{AuthState, Guarded, to_login, children, require_auth}

pub data Page : Type 0 where
  landing login dashboard compliances regulations checklists audits violations alerts : Page
  deadlines corrective_actions reports notifications analytics sagas audit_logs users : Page

pub data Outcome : Type 0 where
  shows : Page → Outcome
  waits : Outcome
  redirects : List String → Outcome

-- A letter from A to Z as its small letter.
fold_case : Char → ℕ
fold_case c = if leb 65 (code c) && leb (code c) 90 then code c + 32 else code c

-- A path of the routes against a segment of the address: the router takes no notice of the case,
-- unless a route asks for it, and none of these does.
unfoldable pub is_segment : String → String → Bool
unfolding fold_case
is_segment String.[] String.[] = true
is_segment (String.◌∷◌ c s) (String.◌∷◌ d t) = (fold_case c == fold_case d) && is_segment s t
is_segment _ _ = false

-- The children of /app by their path, but for the index and the rest.
abbrev pub console_routes : List (String × Page)
console_routes =
    ("compliances", compliances)
    ∷ ("regulations", regulations)
    ∷ ("checklists", checklists)
    ∷ ("audits", audits)
    ∷ ("violations", violations)
    ∷ ("alerts", alerts)
    ∷ ("deadlines", deadlines)
    ∷ ("corrective-actions", corrective_actions)
    ∷ ("reports", reports)
    ∷ ("notifications", notifications)
    ∷ ("analytics", analytics)
    ∷ ("sagas", sagas)
    ∷ ("audit-logs", audit_logs)
    ∷ ("users", users)
    ∷ []

unfoldable pub find_route : String → List (String × Page) → Option Page
unfolding is_segment
find_route s [] = none
find_route s ((path, p) ∷ routes) = if is_segment path s then some p else find_route s routes

abbrev or_index : Option Page → Outcome
or_index none = redirects ("app" ∷ [])
or_index (some p) = shows p

-- A route under /app, for the segments after that.
unfoldable pub console : List String → Outcome
unfolding find_route
console [] = shows dashboard
console (s ∷ []) = or_index (find_route s console_routes)
console (s ∷ t ∷ ss) = redirects ("app" ∷ [])

-- How the query for /auth/me stands.
pub data MeQuery : Type 0 where
  me_pending me_error me_loaded : MeQuery

-- `SessionBootstrap`.
abbrev bootstrapped : MeQuery → Outcome → Outcome
bootstrapped me_pending o = waits
bootstrapped me_error o = redirects ("login" ∷ [])
bootstrapped me_loaded o = o

abbrev guarded : Guarded → Outcome → Outcome
guarded to_login o = redirects ("login" ∷ [])
guarded children o = o

outside : String → List String → Outcome
unfolding is_segment
outside s ss = if is_segment "login" s then login_only ss else redirects []
  where
    login_only : List String → Outcome
    login_only [] = shows login
    login_only (t ∷ ts) = redirects []

-- What an address leads to.
unfoldable pub resolve : AuthState → MeQuery → List String → Outcome
unfolding console outside is_segment
resolve a me [] = shows landing
resolve a me (s ∷ ss) =
    if is_segment "app" s
    then guarded (require_auth a) (bootstrapped me (console ss))
    else outside s ss

-- Redirections are followed, so many at most.
unfoldable pub follow : ℕ → AuthState → MeQuery → List String → Outcome
unfolding resolve
follow zero a me ss = resolve a me ss
follow (suc n) a me ss = elim (resolve a me ss) [
  | redirects next ↦ follow n a me next
  | shows p ↦ shows p
  | waits ↦ waits
]

-- The text of an address.
abbrev pub address : List String → String
address [] = ""
address (s ∷ ss) = "/" +s (s +s address ss)

abbrev pub is_redirect : Outcome → Bool
is_redirect (redirects ss) = true
is_redirect _ = false
