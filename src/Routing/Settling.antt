-- ===== src/Routing/Settling.antt =====
-- Where addresses lead in the end.
use workflow_enterprise_comp.Prelude.{
  String, Bool, true, false, ◌≡◌, Option, none, some, List, [], ◌∷◌, refl, arith, All, ◌⊎◌, inl,
  inr, if◌then◌else◌,
}
use workflow_enterprise_comp.Session.{AuthState, require_auth, Guarded, to_login, children}
use workflow_enterprise_comp.Nav.{NavItem, nav_sections}
use workflow_enterprise_comp.Routing.{
  Page, dashboard, compliances, regulations, checklists, audits, violations, alerts, deadlines,
  corrective_actions, reports, notifications, analytics, sagas, audit_logs, users, Outcome, shows,
  waits, redirects, MeQuery, me_pending, me_error, me_loaded, console, resolve, follow, outside,
  address, is_redirect, or_index, guarded, bootstrapped, console_routes, find_route, is_segment,
}

-- One redirection from the start page of the console leads to a page or the loader.
from_app : (a : AuthState) (me : MeQuery) → is_redirect (follow 1 a me ("app" ∷ [])) ≡ false
unfolding follow resolve console outside require_auth
from_app a me_pending = ground arith
from_app a me_error = ground arith
from_app a me_loaded = ground arith

from_login : (a : AuthState) (me : MeQuery) → is_redirect (follow 1 a me ("login" ∷ [])) ≡ false
unfolding follow resolve outside
from_login a me = refl

from_landing : (a : AuthState) (me : MeQuery) → is_redirect (follow 1 a me []) ≡ false
unfolding follow resolve
from_landing a me = refl

-- Where a redirection goes.
abbrev IsTarget : Outcome → Type 0
IsTarget (redirects ss) = (ss ≡ []) ⊎ ((ss ≡ "app" ∷ []) ⊎ (ss ≡ "login" ∷ []))
IsTarget _ = Unit

or_index-IsTarget : (o : Option Page) → IsTarget (or_index o)
or_index-IsTarget none = inr (inl refl)
or_index-IsTarget (some p) = tt

if-IsTarget : (b : Bool) (x y : Outcome) → IsTarget x → IsTarget y → IsTarget (if b then x else y)
if-IsTarget true x y h k = h
if-IsTarget false x y h k = k

guarded-IsTarget : (g : Guarded) (o : Outcome) → IsTarget o → IsTarget (guarded g o)
guarded-IsTarget to_login o h = inr (inr refl)
guarded-IsTarget children o h = h

bootstrapped-IsTarget : (me : MeQuery) (o : Outcome) → IsTarget o → IsTarget (bootstrapped me o)
bootstrapped-IsTarget me_pending o h = tt
bootstrapped-IsTarget me_error o h = inr (inr refl)
bootstrapped-IsTarget me_loaded o h = h

outside-IsTarget : (s : String) (ss : List String) → IsTarget (outside s ss)
unfolding outside
outside-IsTarget s [] = if-IsTarget (is_segment "login" s) _ _ tt (inl refl)
outside-IsTarget s (t ∷ ts) = if-IsTarget (is_segment "login" s) _ _ (inl refl) (inl refl)

console-IsTarget : (ss : List String) → IsTarget (console ss)
unfolding console
console-IsTarget [] = tt
console-IsTarget (s ∷ []) = or_index-IsTarget (find_route s console_routes)
console-IsTarget (s ∷ t ∷ ts) = inr (inl refl)

resolve-IsTarget : (a : AuthState) (me : MeQuery) (ss : List String) → IsTarget (resolve a me ss)
unfolding resolve
resolve-IsTarget a me [] = tt
resolve-IsTarget a me (s ∷ ss) =
    if-IsTarget (is_segment "app" s) _ _
      (guarded-IsTarget (require_auth a) _ (bootstrapped-IsTarget me _ (console-IsTarget ss)))
      (outside-IsTarget s ss)

follow_on : AuthState → MeQuery → Outcome → Outcome
follow_on a me o = elim o [
  | redirects next ↦ follow 1 a me next
  | shows p ↦ shows p
  | waits ↦ waits
]

follow_on-ends :
    (a : AuthState) (me : MeQuery) (o : Outcome)
    → IsTarget o
    → is_redirect (follow_on a me o) ≡ false
unfolding follow_on
follow_on-ends a me (shows p) h = refl
follow_on-ends a me waits h = refl
follow_on-ends a me (redirects ss) h = elim h [
  | inl e ↦ rw e (from_landing a me)
  | inr (inl e) ↦ rw e (from_app a me)
  | inr (inr e) ↦ rw e (from_login a me)
]

-- From every address, in every state of the session, at most two redirections lead to a page or to
-- the loader: the guards and the routes for unknown addresses never send the browser in a circle.
pub follow-ends :
    (a : AuthState) (me : MeQuery) (ss : List String) → is_redirect (follow 2 a me ss) ≡ false
unfolding follow follow_on
follow-ends a me ss = follow_on-ends a me (resolve a me ss) (resolve-IsTarget a me ss)

-- An item of the sidebar leads to a page of the console: its address is that of a route under /app.
abbrev pub LeadsToPage : NavItem → Type 0
LeadsToPage i =
    (ss : List String) × (p : Page) × (address ("app" ∷ ss) ≡ i.to) × (console ss ≡ shows p)

-- Every item of the sidebar leads to a page of the console.
pub nav_sections-LeadsToPage : All (λ s. All LeadsToPage s.items) nav_sections
unfolding console find_route is_segment
nav_sections-LeadsToPage = (
  (([], dashboard, refl, refl), tt),
  (
    (
      ("compliances" ∷ [], compliances, refl, refl),
      (
        ("regulations" ∷ [], regulations, refl, refl),
        (
          ("checklists" ∷ [], checklists, refl, refl),
          (("audits" ∷ [], audits, refl, refl), (("violations" ∷ [], violations, refl, refl), tt)),
        ),
      ),
    ),
    (
      (
        ("alerts" ∷ [], alerts, refl, refl),
        (
          ("deadlines" ∷ [], deadlines, refl, refl),
          (
            ("corrective-actions" ∷ [], corrective_actions, refl, refl),
            (
              ("reports" ∷ [], reports, refl, refl),
              (("notifications" ∷ [], notifications, refl, refl), tt),
            ),
          ),
        ),
      ),
      (
        (("analytics" ∷ [], analytics, refl, refl), (("sagas" ∷ [], sagas, refl, refl), tt)),
        (
          (("audit-logs" ∷ [], audit_logs, refl, refl), (("users" ∷ [], users, refl, refl), tt)),
          tt,
        ),
      ),
    ),
  ),
)
