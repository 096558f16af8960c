-- ===== src/Observe/Gates.antt =====
-- The permissions that the watching pages test before they ask the backend.
use workflow_enterprise_comp.Prelude.{Bool, false, not, ◌&&◌, ◌||◌, ◌≡◌, arith}
use workflow_enterprise_comp.Session.{AuthState, can}
use workflow_enterprise_comp.Paths.Api.{path}
use workflow_enterprise_comp.Paths.Perm.{Perm, route}
use workflow_enterprise_comp.Pages.Common.{route_of}
use workflow_enterprise_comp.Services.Observe.{
  Summary, summary, compliances, audits, violations, deadlines, analytics,
}
use workflow_enterprise_comp.Observe.Analytics.{enabled}

-- The summary, for one who may read the compliances only.
abbrev pub unasked : AuthState → Summary → Bool
unasked a summary =
    can a (route Perm.analytics_compliances) && not (can a (route Perm.analytics_summary))
unasked a _ = false

-- A query of the analytics page is made just where the user has the permission for its route, but
-- for the summary, which is also asked for by one who may read the compliances and not the summary.
pub enabled_lem :
    (a : AuthState) (s : Summary) → enabled a s ≡ (can a (route_of (analytics s)) || unasked a s)
unfolding enabled analytics path route
enabled_lem a summary = ground arith
enabled_lem a compliances = ground arith
enabled_lem a audits = ground arith
enabled_lem a violations = ground arith
enabled_lem a deadlines = ground arith
