-- ===== src/Nav.antt =====
-- The navigation of frontend/src/components/layout/Sidebar.tsx: its sections, and those that a
-- session is shown. The pages behind the items are guarded by frontend/src/router.tsx, for the
-- token only.
pub mod Visible
use workflow_enterprise_comp.Prelude.{
  String, Bool, true, false, Option, none, some, List, [], ◌∷◌, filter, map,
}
use workflow_enterprise_comp.Session.{AuthState, can}
use workflow_enterprise_comp.Paths.Perm.{Perm, route}

-- An item without its icon.
pub record NavItem : Type 0 where
  pub to : String
  pub label : String
  pub perm : Option Perm

pub record NavSection : Type 0 where
  pub label : String
  pub items : List NavItem

abbrev item : String → String → Option Perm → NavItem
item to label perm = record { to = to; label = label; perm = perm }

abbrev section : String → List NavItem → NavSection
section label items = record { label = label; items = items }

abbrev pub nav_sections : List NavSection
nav_sections =
    section "Overview" (item "/app" "Dashboard" none ∷ [])
    ∷ section "Compliance" (
        item "/app/compliances" "Compliances" (some Perm.compliances_search)
        ∷ item "/app/regulations" "Regulations" (some Perm.regulations_search)
        ∷ item "/app/checklists" "Checklists" (some Perm.checklists_search)
        ∷ item "/app/audits" "Audits" (some Perm.audits_search)
        ∷ item "/app/violations" "Violations" (some Perm.violations_search)
        ∷ [])
    ∷ section "Operations" (
        item "/app/alerts" "Alerts" (some Perm.alerts_search)
        ∷ item "/app/deadlines" "Deadlines" (some Perm.deadlines_search)
        ∷ item "/app/corrective-actions" "Corrective actions" (some Perm.corrective_actions_search)
        ∷ item "/app/reports" "Reports" (some Perm.reports_search)
        ∷ item "/app/notifications" "Notifications" (some Perm.notifications_send)
        ∷ [])
    ∷ section "Intelligence" (
        item "/app/analytics" "Analytics" (some Perm.analytics_summary)
        ∷ item "/app/sagas" "Sagas" (some Perm.sagas_search)
        ∷ [])
    ∷ section "Administration" (
        item "/app/audit-logs" "Audit log" (some Perm.audit_logs_search)
        ∷ item "/app/users" "Users" (some Perm.users_search)
        ∷ [])
    ∷ []

-- `!i.perm || can(i.perm)`.
pub is_visible : AuthState → NavItem → Bool
is_visible a i = elim i.perm [ none ↦ true | some p ↦ can a (route p) ]

pub visible_items : AuthState → NavSection → NavSection
unfolding is_visible
visible_items a s = record s { items = filter (is_visible a) s.items }

pub has_items : NavSection → Bool
has_items s = elim s.items [ [] ↦ false | i ∷ is ↦ true ]

-- The sections of the sidebar.
unfoldable pub sections : AuthState → List NavSection → List NavSection
unfolding visible_items has_items
sections a all_sections = filter has_items (map (visible_items a) all_sections)
