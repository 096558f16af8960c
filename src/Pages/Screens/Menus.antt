-- ===== src/Pages/Screens/Menus.antt =====
-- The menu of a row, and the test of whether a row has one.
use workflow_enterprise_comp.Prelude.{Bool, true, false, ◌≡◌, [], arith}
use workflow_enterprise_comp.Session.{AuthState}
use workflow_enterprise_comp.Pages.Catalogue.{
  Page, Row, menu, alerts, audits, checklists, compliances, corrective_actions, deadlines,
  regulations, reports, users, violations,
}
use workflow_enterprise_comp.Pages.Alerts as AlertsPage
use workflow_enterprise_comp.Pages.Screens.Alerts
use workflow_enterprise_comp.Pages.Audits as AuditsPage
use workflow_enterprise_comp.Pages.Screens.Audits
use workflow_enterprise_comp.Pages.Checklists as ChecklistsPage
use workflow_enterprise_comp.Pages.Screens.Checklists
use workflow_enterprise_comp.Pages.Compliances as CompliancesPage
use workflow_enterprise_comp.Pages.Screens.Compliances
use workflow_enterprise_comp.Pages.CorrectiveActions as CorrectiveActionsPage
use workflow_enterprise_comp.Pages.Screens.CorrectiveActions
use workflow_enterprise_comp.Pages.Deadlines as DeadlinesPage
use workflow_enterprise_comp.Pages.Screens.Deadlines
use workflow_enterprise_comp.Pages.Regulations as RegulationsPage
use workflow_enterprise_comp.Pages.Screens.Regulations
use workflow_enterprise_comp.Pages.Reports as ReportsPage
use workflow_enterprise_comp.Pages.Users as UsersPage
use workflow_enterprise_comp.Pages.Screens.Users
use workflow_enterprise_comp.Pages.Violations as ViolationsPage
use workflow_enterprise_comp.Pages.Screens.Violations

-- A row of the reports always has a menu.
abbrev pub shows_menu : Page → AuthState → Bool
shows_menu alerts a = Alerts.any_action a
shows_menu audits a = Audits.any_action a
shows_menu checklists a = Checklists.any_action a
shows_menu compliances a = Compliances.any_action a
shows_menu corrective_actions a = CorrectiveActions.any_action a
shows_menu deadlines a = Deadlines.any_action a
shows_menu regulations a = Regulations.any_action a
shows_menu reports a = true
shows_menu users a = Users.any_action a
shows_menu violations a = Violations.any_action a

-- Where a page shows no menu for its rows, the menu would have no item for any row: what the test
-- hides is never something that the user may do.
pub hidden_menu-empty :
    (p : Page) (a : AuthState) (row : Row p) → shows_menu p a ≡ false → menu p a row ≡ []
unfolding AlertsPage.row_actions Alerts.any_action AuditsPage.row_actions Audits.any_action
    ChecklistsPage.row_actions Checklists.any_action CompliancesPage.row_actions
    Compliances.any_action CorrectiveActionsPage.row_actions CorrectiveActions.any_action
    DeadlinesPage.row_actions Deadlines.any_action RegulationsPage.row_actions
    Regulations.any_action ReportsPage.row_actions UsersPage.row_actions Users.any_action
    ViolationsPage.row_actions Violations.any_action
hidden_menu-empty alerts a row h = ground (arith, h)
hidden_menu-empty audits a row h = ground (arith, h)
hidden_menu-empty checklists a row h = ground (arith, h)
hidden_menu-empty compliances a row h = ground (arith, h)
hidden_menu-empty corrective_actions a row h = ground (arith, h)
hidden_menu-empty deadlines a row h = ground (arith, h)
hidden_menu-empty regulations a row h = ground (arith, h)
hidden_menu-empty reports a row h = absurd (ground (arith, h))
hidden_menu-empty users a row h = ground (arith, h)
hidden_menu-empty violations a row h = ground (arith, h)
