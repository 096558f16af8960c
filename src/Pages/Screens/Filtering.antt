-- ===== src/Pages/Screens/Filtering.antt =====
-- The test that shows the button that clears the filters, and what clearing leaves.
use workflow_enterprise_comp.Prelude.{String, false, ◌≡◌, ◌↔◌, none, some, arith, refl}
use workflow_enterprise_comp.Json.{end}
use workflow_enterprise_comp.CursorList.Composed.{ListOptions}
use workflow_enterprise_comp.Pages.Common.{filter_field, date_to_range}
use workflow_enterprise_comp.Pages.Catalogue.{
  Page, alerts, audits, checklists, compliances, corrective_actions, deadlines, regulations,
  reports, users, violations,
}
use workflow_enterprise_comp.Pages.Alerts as AlertsPage
use workflow_enterprise_comp.Pages.Screens.Alerts
use workflow_enterprise_comp.Pages.Audits as AuditsPage
use workflow_enterprise_comp.Pages.Screens.Audits
use workflow_enterprise_comp.Pages.Checklists as ChecklistsPage
use workflow_enterprise_comp.Pages.Screens.Checklists
use workflow_enterprise_comp.Pages.Compliances as CompliancesPage
use workflow_enterprise_comp.Pages.Screens.Compliances
use workflow_enterprise_comp.Pages.CorrectiveActions as CorrectiveActionsPage
use workflow_enterprise_comp.Pages.Screens.CorrectiveActions
use workflow_enterprise_comp.Pages.Deadlines as DeadlinesPage
use workflow_enterprise_comp.Pages.Screens.Deadlines
use workflow_enterprise_comp.Pages.Regulations as RegulationsPage
use workflow_enterprise_comp.Pages.Screens.Regulations
use workflow_enterprise_comp.Pages.Reports as ReportsPage
use workflow_enterprise_comp.Pages.Screens.Reports
use workflow_enterprise_comp.Pages.Users as UsersPage
use workflow_enterprise_comp.Pages.Screens.Users
use workflow_enterprise_comp.Pages.Violations as ViolationsPage
use workflow_enterprise_comp.Pages.Screens.Violations
use workflow_enterprise_comp.Pages.Screens.Catalogue.{
  State, edit, clear, options, filtered, sort_of,
}

-- Nothing restricts the list: no filter, no date range.
abbrev pub IsUnfiltered : ListOptions → Type 0
IsUnfiltered o = (o.filters ≡ some end) × (o.date_range ≡ none)

-- A page shows that its list is filtered just where the request has a filter or a date range.
pub filtered_iff :
    (p : Page) (debounced_search : String) (s : State p)
    → (filtered p debounced_search s ≡ false) ↔ IsUnfiltered (options p debounced_search s)
unfolding Alerts.has_filters Alerts.list_options AlertsPage.filters AlertsPage.date_range
    Audits.has_filters Audits.list_options AuditsPage.filters AuditsPage.date_range
    Checklists.has_filters Checklists.list_options ChecklistsPage.filters ChecklistsPage.date_range
    Compliances.has_filters Compliances.list_options CompliancesPage.filters
    CompliancesPage.date_range CorrectiveActions.has_filters CorrectiveActions.list_options
    CorrectiveActionsPage.filters CorrectiveActionsPage.date_range Deadlines.has_filters
    Deadlines.list_options DeadlinesPage.filters DeadlinesPage.date_range Regulations.has_filters
    Regulations.list_options RegulationsPage.filters RegulationsPage.date_range Reports.has_filters
    Reports.list_options ReportsPage.filters ReportsPage.date_range Users.has_filters
    Users.list_options UsersPage.filters UsersPage.date_range Violations.has_filters
    Violations.list_options ViolationsPage.filters ViolationsPage.date_range filter_field
    date_to_range
filtered_iff alerts d s = ground arith
filtered_iff audits d s = ground arith
filtered_iff checklists d s = ground arith
filtered_iff compliances d s = ground arith
filtered_iff corrective_actions d s = ground arith
filtered_iff deadlines d s = ground arith
filtered_iff regulations d s = ground arith
filtered_iff reports d s = ground arith
filtered_iff users d s = ground arith
filtered_iff violations d s = ground arith

-- Clearing leaves a list that nothing restricts once the debounced search is empty, in the order
-- that it had.
pub clear-IsUnfiltered :
    (p : Page) (s : State p)
    → IsUnfiltered (options p "" (edit p (clear p) s))
      × (sort_of p (edit p (clear p) s) ≡ sort_of p s)
unfolding Alerts.edit Alerts.list_options AlertsPage.filters AlertsPage.date_range Audits.edit
    Audits.list_options AuditsPage.filters AuditsPage.date_range Checklists.edit
    Checklists.list_options ChecklistsPage.filters ChecklistsPage.date_range Compliances.edit
    Compliances.list_options CompliancesPage.filters CompliancesPage.date_range
    CorrectiveActions.edit CorrectiveActions.list_options CorrectiveActionsPage.filters
    CorrectiveActionsPage.date_range Deadlines.edit Deadlines.list_options DeadlinesPage.filters
    DeadlinesPage.date_range Regulations.edit Regulations.list_options RegulationsPage.filters
    RegulationsPage.date_range Reports.edit Reports.list_options ReportsPage.filters
    ReportsPage.date_range Users.edit Users.list_options UsersPage.filters UsersPage.date_range
    Violations.edit Violations.list_options ViolationsPage.filters ViolationsPage.date_range
    filter_field date_to_range
clear-IsUnfiltered alerts s = ((refl, refl), refl)
clear-IsUnfiltered audits s = ((refl, refl), refl)
clear-IsUnfiltered checklists s = ((refl, refl), refl)
clear-IsUnfiltered compliances s = ((refl, refl), refl)
clear-IsUnfiltered corrective_actions s = ((refl, refl), refl)
clear-IsUnfiltered deadlines s = ((refl, refl), refl)
clear-IsUnfiltered regulations s = ((refl, refl), refl)
clear-IsUnfiltered reports s = ((refl, refl), refl)
clear-IsUnfiltered users s = ((refl, refl), refl)
clear-IsUnfiltered violations s = ((refl, refl), refl)
