-- ===== src/Forms/Catalogue.antt =====
-- The forms side by side: their states, whether submitting one hands its values on, and whether it
-- shows errors by field.
use workflow_enterprise_comp.Prelude.{Bool, not, is_some}
use workflow_enterprise_comp.Forms.Common.{is_empty}
use workflow_enterprise_comp.Forms.Audits
use workflow_enterprise_comp.Forms.Audits.{AuditForm}
use workflow_enterprise_comp.Forms.Checklists
use workflow_enterprise_comp.Forms.Checklists.{ChecklistForm, JsonText}
use workflow_enterprise_comp.Forms.Compliances
use workflow_enterprise_comp.Forms.Compliances.{ComplianceForm}
use workflow_enterprise_comp.Forms.CorrectiveActions
use workflow_enterprise_comp.Forms.CorrectiveActions.{CorrectiveActionForm}
use workflow_enterprise_comp.Forms.Deadlines
use workflow_enterprise_comp.Forms.Deadlines.{DeadlineForm}
use workflow_enterprise_comp.Forms.Regulations
use workflow_enterprise_comp.Forms.Regulations.{RegulationForm}
use workflow_enterprise_comp.Forms.Reports
use workflow_enterprise_comp.Forms.Reports.{ReportForm}
use workflow_enterprise_comp.Forms.Users
use workflow_enterprise_comp.Forms.Users.{UserForm}
use workflow_enterprise_comp.Forms.Violations
use workflow_enterprise_comp.Forms.Violations.{ViolationForm}

pub data Form : Type 0 where
  audits checklists compliances corrective_actions deadlines : Form
  regulations reports users violations : Form

-- The form for checklists reads JSON, and the one for accounts knows whether it edits one.
abbrev pub State : Form → Type 0
State audits = AuditForm
State checklists = JsonText × ChecklistForm
State compliances = ComplianceForm
State corrective_actions = CorrectiveActionForm
State deadlines = DeadlineForm
State regulations = RegulationForm
State reports = ReportForm
State users = Bool × UserForm
State violations = ViolationForm

abbrev pub hands_on : (k : Form) → State k → Bool
hands_on audits f = is_some (Audits.submit f).1
hands_on checklists (json, f) = is_some (Checklists.submit json f).1
hands_on compliances f = is_some (Compliances.submit f).1
hands_on corrective_actions f = is_some (CorrectiveActions.submit f).1
hands_on deadlines f = is_some (Deadlines.submit f).1
hands_on regulations f = is_some (Regulations.submit f).1
hands_on reports f = is_some (Reports.submit f).1
hands_on users (is_edit, f) = is_some (Users.submit is_edit f).1
hands_on violations f = is_some (Violations.submit f).1

abbrev pub shows_errors : (k : Form) → State k → Bool
shows_errors audits f = not (is_empty (Audits.submit f).0.errors)
shows_errors checklists (json, f) = not (is_empty (Checklists.submit json f).0.errors)
shows_errors compliances f = not (is_empty (Compliances.submit f).0.errors)
shows_errors corrective_actions f = not (is_empty (CorrectiveActions.submit f).0.errors)
shows_errors deadlines f = not (is_empty (Deadlines.submit f).0.errors)
shows_errors regulations f = not (is_empty (Regulations.submit f).0.errors)
shows_errors reports f = not (is_empty (Reports.submit f).0.errors)
shows_errors users (is_edit, f) = not (is_empty (Users.submit is_edit f).0.errors)
shows_errors violations f = not (is_empty (Violations.submit f).0.errors)
