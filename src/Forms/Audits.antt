-- ===== src/Forms/Audits.antt =====
-- The form of frontend/src/features/audits/components/AuditFormModal.tsx: its fields, how it opens, what it
-- checks, and what it submits.
use workflow_enterprise_comp.Prelude.{
  String, Option, none, some, List, get_or, trim, if◌then◌else◌, [],
}
use workflow_enterprise_comp.Entities.{Audit}
use workflow_enterprise_comp.Client.{ApiError}
use workflow_enterprise_comp.Forms.Common.{check, blank, sliced, stamped, is_empty, failure_message}

pub record AuditFormValues : Type 0 where
  pub title : String
  pub description : String
  pub status : String
  pub compliance_id : String
  pub auditor_id : String
  pub scheduled_at : Option String

pub record AuditForm : Type 0 where
  pub title : String
  pub description : String
  pub status : String
  pub compliance_id : String
  pub auditor_id : String
  pub scheduled_at : String
  pub errors : List (String × String)
  pub submit_error : Option String

-- The effect that runs when the modal opens, for a new record or one to edit.
unfoldable pub seed : Option Audit → AuditForm
seed none = record {
  title = "";
  description = "";
  status = "scheduled";
  compliance_id = "";
  auditor_id = "";
  scheduled_at = "";
  errors = [];
  submit_error = none;
}
seed (some audit) = record {
  title = audit.title;
  description = get_or audit.description "";
  status = audit.status;
  compliance_id = get_or audit.compliance_id "";
  auditor_id = get_or audit.auditor_id "";
  scheduled_at = sliced 16 audit.scheduled_at;
  errors = [];
  submit_error = none;
}

unfoldable pub find_errors : AuditForm → List (String × String)
find_errors f = check (blank f.title) "title" "Title is required."

unfoldable pub form_values : AuditForm → AuditFormValues
form_values f = record {
  title = trim f.title;
  description = f.description;
  status = f.status;
  compliance_id = trim f.compliance_id;
  auditor_id = trim f.auditor_id;
  scheduled_at = stamped ":00.000Z" f.scheduled_at;
}

-- The first part of `submit`: the form as it then is, and the values, if they are handed on.
unfoldable pub submit : AuditForm → AuditForm × Option AuditFormValues
unfolding find_errors form_values
submit f =
    let errors = find_errors f in
    if is_empty errors
    then (record f { errors = []; submit_error = none }, some (form_values f))
    else (record f { errors = errors }, none)

-- What `submit` catches: the message of an API error, or a general one.
unfoldable pub submit_failed : Option ApiError → AuditForm → AuditForm
submit_failed err f = record f { submit_error = some (failure_message err) }
