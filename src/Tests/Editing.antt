-- ===== src/Tests/Editing.antt =====
-- The forms, and what saving them sends.
use workflow_enterprise_comp.Prelude.{
  not, true, false, ◌≡◌, ◌↔◌, none, some, [], refl, is_some, str_eq, if◌then◌else◌, trim, is_space,
}
use workflow_enterprise_comp.Json.{null, str, arr, nil}
use workflow_enterprise_comp.Client.{Sent, send}
use workflow_enterprise_comp.Forms.Common.{text_lt, is_email}
use workflow_enterprise_comp.Forms.Audits
use workflow_enterprise_comp.Forms.Audits.{AuditForm, form_values}
use workflow_enterprise_comp.Forms.Checklists
use workflow_enterprise_comp.Forms.Checklists.{ChecklistForm, JsonText}
use workflow_enterprise_comp.Forms.Compliances
use workflow_enterprise_comp.Forms.Compliances.{ComplianceFormValues}
use workflow_enterprise_comp.Forms.Regulations
use workflow_enterprise_comp.Forms.Regulations.{RegulationForm}
use workflow_enterprise_comp.Forms.Users
use workflow_enterprise_comp.Forms.Users.{UserForm}
use workflow_enterprise_comp.Forms.Catalogue.{Form, hands_on, shows_errors}
use workflow_enterprise_comp.Forms.Submission.{IsComplete, hands_on_iff}
use workflow_enterprise_comp.Forms.Unchanged.{audits_unchanged, compliances_due_date}
use workflow_enterprise_comp.Pages.Audits.{submit_request}
use workflow_enterprise_comp.Pages.Sent.{sent_field, audit_edit_sends}
use workflow_enterprise_comp.Tests.Data.{audit, compliance}

abbrev regulation_form : RegulationForm
regulation_form = record {
  title = "Data protection";
  code = "DP-1";
  description = "";
  jurisdiction = "EU";
  status = "active";
  effective_date = "2026-08-08";
  expiry_date = "2026-01-01";
  errors = [];
  submit_error = none;
}

abbrev user_form : UserForm
user_form = record {
  username = "bob";
  email = "bob@example.org";
  password = "";
  role_id = "r2";
  status = "active";
  errors = [];
  submit_error = none;
}

-- The dates are the wrong way round.
late_regulation : is_some (Regulations.submit regulation_form).1 ≡ false
unfolding Regulations.submit Regulations.find_errors text_lt trim is_space
late_regulation = refl

edited_account : is_some (Users.submit true user_form).1 ≡ true
unfolding Users.submit Users.find_errors is_email trim is_space
edited_account = refl

-- A reader that knows the empty array only.
abbrev empty_arrays : JsonText
empty_arrays = record {
  parse = λ s. if str_eq s "[]" then some (arr nil) else none;
  stringify = λ v. "[]";
}

abbrev checklist_form : ChecklistForm
checklist_form = record {
  title = "Onboarding";
  description = "";
  status = "open";
  compliance_id = "";
  owner_id = "";
  due_date = "";
  items_json = "[]";
  errors = [];
  submit_error = none;
}

read_checklist : is_some (Checklists.submit empty_arrays checklist_form).1 ≡ true
unfolding Checklists.submit Checklists.find_errors trim is_space
read_checklist = refl

hands_on_iff_example :
    ((hands_on Form.regulations regulation_form ≡ true)
      ↔ IsComplete Form.regulations regulation_form)
    × (shows_errors Form.regulations regulation_form
        ≡ not (hands_on Form.regulations regulation_form))
hands_on_iff_example = hands_on_iff Form.regulations regulation_form

audits_unchanged_example :
    (Audits.submit (Audits.seed (some audit))).1
    ≡ some (record {
      title = "Yearly audit";
      description = "All of it";
      status = "scheduled";
      compliance_id = "c7";
      auditor_id = "";
      scheduled_at = some "2026-08-08T10:30:00.000Z";
    })
unfolding Audits.seed is_space
audits_unchanged_example = audits_unchanged audit refl (refl, refl) (refl, refl) (tt, tt)

compliances_due_date_example :
    (v : ComplianceFormValues) × ((Compliances.submit (Compliances.seed (some compliance))).1
      ≡ some v)
    × (v.due_date ≡ some "2026-08-08T23:59:59.999Z")
unfolding trim is_space
compliances_due_date_example = compliances_due_date compliance "2026-08-08T10:30:15Z" refl refl refl

abbrev cleared_form : AuditForm
cleared_form = record {
  title = "Yearly audit";
  description = "";
  status = "scheduled";
  compliance_id = " ";
  auditor_id = "u9";
  scheduled_at = "";
  errors = [];
  submit_error = none;
}

abbrev sent : Sent
sent = send "http://localhost" none (submit_request (some audit) (form_values cleared_form))

audit_edit_sends_example :
    (sent_field "description" sent ≡ none)
    × (sent_field "compliance_id" sent ≡ none)
    × (sent_field "auditor_id" sent ≡ some (str "u9"))
    × (sent_field "scheduled_at" sent ≡ some null)
unfolding trim is_space
audit_edit_sends_example = audit_edit_sends "http://localhost" none audit cleared_form
