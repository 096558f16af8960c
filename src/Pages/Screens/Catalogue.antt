-- ===== src/Pages/Screens/Catalogue.antt =====
-- The lists of the pages side by side: the state of each, its edits, its options and its columns.
use workflow_enterprise_comp.Prelude.{String, Bool, Option, List, ℤ}
use workflow_enterprise_comp.Http.{SortSpec}
use workflow_enterprise_comp.Entities.{Role}
use workflow_enterprise_comp.Format.{Calendar}
use workflow_enterprise_comp.CursorList.Composed.{ListOptions}
use workflow_enterprise_comp.Pages.Cells.{PageColumn}
use workflow_enterprise_comp.Pages.Catalogue.{
  Page, Row, alerts, audits, checklists, compliances, corrective_actions, deadlines, regulations,
  reports, users, violations,
}
use workflow_enterprise_comp.Pages.Screens.Alerts
use workflow_enterprise_comp.Pages.Screens.Audits
use workflow_enterprise_comp.Pages.Screens.Checklists
use workflow_enterprise_comp.Pages.Screens.Compliances
use workflow_enterprise_comp.Pages.Screens.CorrectiveActions
use workflow_enterprise_comp.Pages.Screens.Deadlines
use workflow_enterprise_comp.Pages.Screens.Regulations
use workflow_enterprise_comp.Pages.Screens.Reports
use workflow_enterprise_comp.Pages.Screens.Users
use workflow_enterprise_comp.Pages.Screens.Violations

abbrev pub State : Page → Type 0
State alerts = Alerts.ListState
State audits = Audits.ListState
State checklists = Checklists.ListState
State compliances = Compliances.ListState
State corrective_actions = CorrectiveActions.ListState
State deadlines = Deadlines.ListState
State regulations = Regulations.ListState
State reports = Reports.ListState
State users = Users.ListState
State violations = Violations.ListState

abbrev pub Change : Page → Type 0
Change alerts = Alerts.Edit
Change audits = Audits.Edit
Change checklists = Checklists.Edit
Change compliances = Compliances.Edit
Change corrective_actions = CorrectiveActions.Edit
Change deadlines = Deadlines.Edit
Change regulations = Regulations.Edit
Change reports = Reports.Edit
Change users = Users.Edit
Change violations = Violations.Edit

abbrev pub edit : (p : Page) → Change p → State p → State p
edit alerts = Alerts.edit
edit audits = Audits.edit
edit checklists = Checklists.edit
edit compliances = Compliances.edit
edit corrective_actions = CorrectiveActions.edit
edit deadlines = Deadlines.edit
edit regulations = Regulations.edit
edit reports = Reports.edit
edit users = Users.edit
edit violations = Violations.edit

abbrev pub clear : (p : Page) → Change p
clear alerts = Alerts.cleared
clear audits = Audits.cleared
clear checklists = Checklists.cleared
clear compliances = Compliances.cleared
clear corrective_actions = CorrectiveActions.cleared
clear deadlines = Deadlines.cleared
clear regulations = Regulations.cleared
clear reports = Reports.cleared
clear users = Users.cleared
clear violations = Violations.cleared

abbrev pub sort_by : (p : Page) → Option SortSpec → Change p
sort_by alerts = Alerts.sorted
sort_by audits = Audits.sorted
sort_by checklists = Checklists.sorted
sort_by compliances = Compliances.sorted
sort_by corrective_actions = CorrectiveActions.sorted
sort_by deadlines = Deadlines.sorted
sort_by regulations = Regulations.sorted
sort_by reports = Reports.sorted
sort_by users = Users.sorted
sort_by violations = Violations.sorted

abbrev pub sort_of : (p : Page) → State p → Option SortSpec
sort_of alerts s = s.sort
sort_of audits s = s.sort
sort_of checklists s = s.sort
sort_of compliances s = s.sort
sort_of corrective_actions s = s.sort
sort_of deadlines s = s.sort
sort_of regulations s = s.sort
sort_of reports s = s.sort
sort_of users s = s.sort
sort_of violations s = s.sort

abbrev pub options : (p : Page) → String → State p → ListOptions
options alerts = Alerts.list_options
options audits = Audits.list_options
options checklists = Checklists.list_options
options compliances = Compliances.list_options
options corrective_actions = CorrectiveActions.list_options
options deadlines = Deadlines.list_options
options regulations = Regulations.list_options
options reports = Reports.list_options
options users = Users.list_options
options violations = Violations.list_options

abbrev pub filtered : (p : Page) → String → State p → Bool
filtered alerts = Alerts.has_filters
filtered audits = Audits.has_filters
filtered checklists = Checklists.has_filters
filtered compliances = Compliances.has_filters
filtered corrective_actions = CorrectiveActions.has_filters
filtered deadlines = Deadlines.has_filters
filtered regulations = Regulations.has_filters
filtered reports = Reports.has_filters
filtered users = Users.has_filters
filtered violations = Violations.has_filters

abbrev pub columns : (p : Page) → List Role → Calendar → ℤ → List (PageColumn (Row p))
columns alerts roles = Alerts.columns
columns audits roles = Audits.columns
columns checklists roles = Checklists.columns
columns compliances roles = Compliances.columns
columns corrective_actions roles = CorrectiveActions.columns
columns deadlines roles = Deadlines.columns
columns regulations roles = Regulations.columns
columns reports roles = Reports.columns
columns users roles = Users.columns roles
columns violations roles = Violations.columns
