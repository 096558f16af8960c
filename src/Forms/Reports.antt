-- ===== src/Forms/Reports.antt =====
-- The form of frontend/src/features/reports/components/ReportFormModal.tsx: its fields, how it opens, what it
-- checks, and what it submits.
use workflow_enterprise_comp.Prelude.{
  String, Option, none, some, List, get_or, trim, if◌then◌else◌, [],
}
use workflow_enterprise_comp.Entities.{Report}
use workflow_enterprise_comp.Client.{ApiError}
use workflow_enterprise_comp.Forms.Common.{check, blank, is_empty, failure_message}

pub record ReportFormValues : Type 0 where
  pub title : String
  pub type : String
  pub status : String
  pub description : String
  pub compliance_id : String

pub record ReportForm : Type 0 where
  pub title : String
  pub type : String
  pub status : String
  pub description : String
  pub compliance_id : String
  pub errors : List (String × String)
  pub submit_error : Option String

-- The effect that runs when the modal opens, for a new record or one to edit.
unfoldable pub seed : Option Report → ReportForm
seed none = record {
  title = "";
  type = "summary";
  status = "generated";
  description = "";
  compliance_id = "";
  errors = [];
  submit_error = none;
}
seed (some report) = record {
  title = report.title;
  type = report.type;
  status = report.status;
  description = get_or report.description "";
  compliance_id = get_or report.compliance_id "";
  errors = [];
  submit_error = none;
}

unfoldable pub find_errors : ReportForm → List (String × String)
find_errors f = check (blank f.title) "title" "Title is required."

unfoldable pub form_values : ReportForm → ReportFormValues
form_values f = record {
  title = trim f.title;
  type = f.type;
  status = f.status;
  description = f.description;
  compliance_id = trim f.compliance_id;
}

-- The first part of `submit`: the form as it then is, and the values, if they are handed on.
unfoldable pub submit : ReportForm → ReportForm × Option ReportFormValues
unfolding find_errors form_values
submit f =
    let errors = find_errors f in
    if is_empty errors
    then (record f { errors = []; submit_error = none }, some (form_values f))
    else (record f { errors = errors }, none)

-- What `submit` catches: the message of an API error, or a general one.
unfoldable pub submit_failed : Option ApiError → ReportForm → ReportForm
submit_failed err f = record f { submit_error = some (failure_message err) }
