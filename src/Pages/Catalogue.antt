-- ===== src/Pages/Catalogue.antt =====
-- The list pages side by side: the type of their rows, the values of their forms, the items of a
-- row's menu, and the requests that an item leads to.
use workflow_enterprise_comp.Prelude.{List, some}
use workflow_enterprise_comp.Client.{Request}
use workflow_enterprise_comp.Entities.{
  Alert, Audit, Checklist, Compliance, CorrectiveAction, Deadline, Regulation, Report, User,
  Violation,
}
use workflow_enterprise_comp.Session.{AuthState}
use workflow_enterprise_comp.Pages.Common.{Act}
use workflow_enterprise_comp.Pages.Alerts
use workflow_enterprise_comp.Pages.Audits
use workflow_enterprise_comp.Pages.Checklists
use workflow_enterprise_comp.Pages.Compliances
use workflow_enterprise_comp.Pages.CorrectiveActions
use workflow_enterprise_comp.Pages.Deadlines
use workflow_enterprise_comp.Pages.Regulations
use workflow_enterprise_comp.Pages.Reports
use workflow_enterprise_comp.Pages.Users
use workflow_enterprise_comp.Pages.Violations
use workflow_enterprise_comp.Forms.Audits.{AuditFormValues}
use workflow_enterprise_comp.Forms.Checklists.{ChecklistFormValues}
use workflow_enterprise_comp.Forms.Compliances.{ComplianceFormValues}
use workflow_enterprise_comp.Forms.CorrectiveActions.{CorrectiveActionFormValues}
use workflow_enterprise_comp.Forms.Deadlines.{DeadlineFormValues}
use workflow_enterprise_comp.Forms.Regulations.{RegulationFormValues}
use workflow_enterprise_comp.Forms.Reports.{ReportFormValues}
use workflow_enterprise_comp.Forms.Users.{UserFormValues}
use workflow_enterprise_comp.Forms.Violations.{ViolationFormValues}

pub data Page : Type 0 where
  alerts audits checklists compliances corrective_actions : Page
  deadlines regulations reports users violations : Page

abbrev pub Row : Page → Type 0
Row alerts = Alert
Row audits = Audit
Row checklists = Checklist
Row compliances = Compliance
Row corrective_actions = CorrectiveAction
Row deadlines = Deadline
Row regulations = Regulation
Row reports = Report
Row users = User
Row violations = Violation

-- The page of alerts has no form.
abbrev pub Values : Page → Type 0
Values alerts = ⊥
Values audits = AuditFormValues
Values checklists = ChecklistFormValues
Values compliances = ComplianceFormValues
Values corrective_actions = CorrectiveActionFormValues
Values deadlines = DeadlineFormValues
Values regulations = RegulationFormValues
Values reports = ReportFormValues
Values users = UserFormValues
Values violations = ViolationFormValues

abbrev pub menu : (p : Page) → AuthState → Row p → List Act
menu alerts = Alerts.row_actions
menu audits = Audits.row_actions
menu checklists = Checklists.row_actions
menu compliances = Compliances.row_actions
menu corrective_actions = CorrectiveActions.row_actions
menu deadlines = Deadlines.row_actions
menu regulations = Regulations.row_actions
menu reports = Reports.row_actions
menu users = Users.row_actions
menu violations = Violations.row_actions

abbrev pub edit_request : (p : Page) → Row p → Values p → Request
edit_request alerts row values = absurd values
edit_request audits row values = Audits.submit_request (some row) values
edit_request checklists row values = Checklists.submit_request (some row) values
edit_request compliances row values = Compliances.submit_request (some row) values
edit_request corrective_actions row values = CorrectiveActions.submit_request (some row) values
edit_request deadlines row values = Deadlines.submit_request (some row) values
edit_request regulations row values = Regulations.submit_request (some row) values
edit_request reports row values = Reports.submit_request (some row) values
edit_request users row values = Users.submit_request (some row) values
edit_request violations row values = Violations.submit_request (some row) values

abbrev pub delete_request : (p : Page) → Row p → Request
delete_request alerts = Alerts.delete_request
delete_request audits = Audits.delete_request
delete_request checklists = Checklists.delete_request
delete_request compliances = Compliances.delete_request
delete_request corrective_actions = CorrectiveActions.delete_request
delete_request deadlines = Deadlines.delete_request
delete_request regulations = Regulations.delete_request
delete_request reports = Reports.delete_request
delete_request users = Users.delete_request
delete_request violations = Violations.delete_request
