-- ===== src/Forms/Submission.antt =====
-- When the forms hand their values on, and when they show errors.
use workflow_enterprise_comp.Prelude.{
  ◌≤◌, Bool, true, false, not, ◌≡◌, ◌↔◌, ◌⊎◌, is_some, nonempty, arith, size,
}
use workflow_enterprise_comp.Forms.Common.{blank, text_lt, is_email}
use workflow_enterprise_comp.Forms.Catalogue.{Form, State, hands_on, shows_errors}
use workflow_enterprise_comp.Forms.Audits
use workflow_enterprise_comp.Forms.Checklists
use workflow_enterprise_comp.Forms.Compliances
use workflow_enterprise_comp.Forms.CorrectiveActions
use workflow_enterprise_comp.Forms.Deadlines
use workflow_enterprise_comp.Forms.Regulations
use workflow_enterprise_comp.Forms.Regulations.{RegulationForm}
use workflow_enterprise_comp.Forms.Reports
use workflow_enterprise_comp.Forms.Users
use workflow_enterprise_comp.Forms.Users.{UserForm}
use workflow_enterprise_comp.Forms.Violations

-- The dates of a regulation are in order, where both are given.
abbrev pub HasDatesInOrder : RegulationForm → Type 0
HasDatesInOrder f =
    (nonempty f.effective_date ≡ false)
    ⊎ (nonempty f.expiry_date ≡ false)
    ⊎ (text_lt f.expiry_date f.effective_date ≡ false)

-- A password has eight characters or more; an account that is edited may leave it empty.
abbrev pub HasPassword : Bool → UserForm → Type 0
HasPassword is_edit f = (8 ≤ size f.password) ⊎ ((is_edit ≡ true) × (nonempty f.password ≡ false))

-- What each form asks for.
abbrev pub IsComplete : (k : Form) → State k → Type 0
IsComplete Form.audits f = blank f.title ≡ false
IsComplete Form.checklists (json, f) =
    (blank f.title ≡ false)
    × ((blank f.items_json ≡ true) ⊎ (is_some (json.parse f.items_json) ≡ true))
IsComplete Form.compliances f = blank f.name ≡ false
IsComplete Form.corrective_actions f = blank f.title ≡ false
IsComplete Form.deadlines f = (blank f.title ≡ false) × (nonempty f.deadline_at ≡ true)
IsComplete Form.regulations f = (blank f.title ≡ false) × (blank f.code ≡ false) × HasDatesInOrder f
IsComplete Form.reports f = blank f.title ≡ false
IsComplete Form.users (is_edit, f) =
    (blank f.username ≡ false)
    × (nonempty f.role_id ≡ true)
    × HasPassword is_edit f
    × ((nonempty f.email ≡ false) ⊎ (is_email f.email ≡ true))
IsComplete Form.violations f = blank f.title ≡ false

-- Every form hands its values on exactly when it is complete, and otherwise shows an error at a
-- field: its name or title is not blank; a checklist's items are blank or JSON; a deadline has its
-- time; a regulation has a code and its dates, where both are given, in order; an account has a
-- role, a password of eight characters or more, which an edited one may leave empty, and an e-mail
-- address that is empty or well formed.
pub hands_on_iff :
    (k : Form) (f : State k)
    → ((hands_on k f ≡ true) ↔ IsComplete k f) × (shows_errors k f ≡ not (hands_on k f))
unfolding Audits.submit Checklists.submit Compliances.submit CorrectiveActions.submit
    Deadlines.submit Regulations.submit Reports.submit Users.submit Violations.submit
hands_on_iff Form.audits f = ground arith
hands_on_iff Form.checklists (json, f) = ground arith
hands_on_iff Form.compliances f = ground arith
hands_on_iff Form.corrective_actions f = ground arith
hands_on_iff Form.deadlines f = ground arith
hands_on_iff Form.regulations f = ground arith
hands_on_iff Form.reports f = ground arith
hands_on_iff Form.users (is_edit, f) = ground arith
hands_on_iff Form.violations f = ground arith
