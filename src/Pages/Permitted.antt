-- ===== src/Pages/Permitted.antt =====
-- The items of a row's menu against the routes of the requests that they lead to.
use workflow_enterprise_comp.Prelude.{true, ◌≡◌, All, arith}
use workflow_enterprise_comp.Session.{AuthState, can}
use workflow_enterprise_comp.Paths.Api.{path}
use workflow_enterprise_comp.Paths.Perm.{route}
use workflow_enterprise_comp.Pages.Common.{Act, call, edit, ask_delete, view, route_of}
use workflow_enterprise_comp.Pages.Catalogue.{Page, Row, Values, menu, edit_request, delete_request}
use workflow_enterprise_comp.Pages.Alerts
use workflow_enterprise_comp.Pages.Audits
use workflow_enterprise_comp.Pages.Checklists
use workflow_enterprise_comp.Pages.Compliances
use workflow_enterprise_comp.Pages.CorrectiveActions
use workflow_enterprise_comp.Pages.Deadlines
use workflow_enterprise_comp.Pages.Regulations
use workflow_enterprise_comp.Pages.Reports
use workflow_enterprise_comp.Pages.Users
use workflow_enterprise_comp.Pages.Violations
use workflow_enterprise_comp.Services.Alerts as AlertsApi
use workflow_enterprise_comp.Services.Audits as AuditsApi
use workflow_enterprise_comp.Services.Checklists as ChecklistsApi
use workflow_enterprise_comp.Services.Compliances as CompliancesApi
use workflow_enterprise_comp.Services.CorrectiveActions as CorrectiveActionsApi
use workflow_enterprise_comp.Services.Deadlines as DeadlinesApi
use workflow_enterprise_comp.Services.Regulations as RegulationsApi
use workflow_enterprise_comp.Services.Reports as ReportsApi
use workflow_enterprise_comp.Services.Users as UsersApi
use workflow_enterprise_comp.Services.Violations as ViolationsApi

-- The backend's route of each request that the item can lead to is one that the user holds: of the
-- request itself, of any update by the form that it opens, of the deletion that it asks about.
abbrev pub IsPermitted : (p : Page) → AuthState → Row p → Act → Type 0
IsPermitted p a row (call r) = can a (route_of r) ≡ true
IsPermitted p a row edit = (values : Values p) → can a (route_of (edit_request p row values)) ≡ true
IsPermitted p a row ask_delete = can a (route_of (delete_request p row)) ≡ true
IsPermitted p a row view = Unit

alerts-IsPermitted :
    (a : AuthState) (row : Row Page.alerts)
    → All (IsPermitted Page.alerts a row) (menu Page.alerts a row)
unfolding Alerts.row_actions Alerts.delete_request AlertsApi.update AlertsApi.remove
    AlertsApi.acknowledge AlertsApi.resolve path route
alerts-IsPermitted a row = ground arith

audits-IsPermitted :
    (a : AuthState) (row : Row Page.audits)
    → All (IsPermitted Page.audits a row) (menu Page.audits a row)
unfolding Audits.row_actions Audits.delete_request Audits.submit_request AuditsApi.update
    AuditsApi.remove AuditsApi.start AuditsApi.complete path route
audits-IsPermitted a row = ground arith

checklists-IsPermitted :
    (a : AuthState) (row : Row Page.checklists)
    → All (IsPermitted Page.checklists a row) (menu Page.checklists a row)
unfolding Checklists.row_actions Checklists.delete_request Checklists.submit_request
    ChecklistsApi.update ChecklistsApi.remove path route
checklists-IsPermitted a row = ground arith

compliances-IsPermitted :
    (a : AuthState) (row : Row Page.compliances)
    → All (IsPermitted Page.compliances a row) (menu Page.compliances a row)
unfolding Compliances.row_actions Compliances.delete_request Compliances.submit_request
    CompliancesApi.update CompliancesApi.remove CompliancesApi.check path route
compliances-IsPermitted a row = ground arith

corrective_actions-IsPermitted :
    (a : AuthState) (row : Row Page.corrective_actions)
    → All (IsPermitted Page.corrective_actions a row) (menu Page.corrective_actions a row)
unfolding CorrectiveActions.row_actions CorrectiveActions.delete_request
    CorrectiveActions.submit_request CorrectiveActionsApi.update CorrectiveActionsApi.remove
    CorrectiveActionsApi.complete path route
corrective_actions-IsPermitted a row = ground arith

deadlines-IsPermitted :
    (a : AuthState) (row : Row Page.deadlines)
    → All (IsPermitted Page.deadlines a row) (menu Page.deadlines a row)
unfolding Deadlines.row_actions Deadlines.delete_request Deadlines.submit_request
    DeadlinesApi.update DeadlinesApi.remove DeadlinesApi.complete path route
deadlines-IsPermitted a row = ground arith

regulations-IsPermitted :
    (a : AuthState) (row : Row Page.regulations)
    → All (IsPermitted Page.regulations a row) (menu Page.regulations a row)
unfolding Regulations.row_actions Regulations.delete_request Regulations.submit_request
    RegulationsApi.update RegulationsApi.remove path route
regulations-IsPermitted a row = ground arith

reports-IsPermitted :
    (a : AuthState) (row : Row Page.reports)
    → All (IsPermitted Page.reports a row) (menu Page.reports a row)
unfolding Reports.row_actions Reports.delete_request Reports.submit_request ReportsApi.update
    ReportsApi.remove path route
reports-IsPermitted a row = ground arith

users-IsPermitted :
    (a : AuthState) (row : Row Page.users)
    → All (IsPermitted Page.users a row) (menu Page.users a row)
unfolding Users.row_actions Users.delete_request Users.submit_request UsersApi.update
    UsersApi.remove path route
users-IsPermitted a row = ground arith

violations-IsPermitted :
    (a : AuthState) (row : Row Page.violations)
    → All (IsPermitted Page.violations a row) (menu Page.violations a row)
unfolding Violations.row_actions Violations.delete_request Violations.submit_request
    ViolationsApi.update ViolationsApi.remove ViolationsApi.resolve path route
violations-IsPermitted a row = ground arith

-- On every list page, for every session and row: each item that the menu of the row offers is one
-- whose requests the session holds the permission for, by the route that the backend checks: the
-- request that the item makes, any update by the form that it opens, or the deletion that it asks
-- about.
pub menu-IsPermitted :
    (p : Page) (a : AuthState) (row : Row p) → All (IsPermitted p a row) (menu p a row)
menu-IsPermitted Page.alerts = alerts-IsPermitted
menu-IsPermitted Page.audits = audits-IsPermitted
menu-IsPermitted Page.checklists = checklists-IsPermitted
menu-IsPermitted Page.compliances = compliances-IsPermitted
menu-IsPermitted Page.corrective_actions = corrective_actions-IsPermitted
menu-IsPermitted Page.deadlines = deadlines-IsPermitted
menu-IsPermitted Page.regulations = regulations-IsPermitted
menu-IsPermitted Page.reports = reports-IsPermitted
menu-IsPermitted Page.users = users-IsPermitted
menu-IsPermitted Page.violations = violations-IsPermitted
