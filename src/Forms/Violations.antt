-- ===== src/Forms/Violations.antt =====
-- The form of frontend/src/features/violations/components/ViolationFormModal.tsx: its fields, how it opens, what it
-- checks, and what it submits.
use workflow_enterprise_comp.Prelude.{
  String, Option, none, some, List, get_or, trim, if◌then◌else◌, [],
}
use workflow_enterprise_comp.Entities.{Violation}
use workflow_enterprise_comp.Client.{ApiError}
use workflow_enterprise_comp.Forms.Common.{check, blank, is_empty, failure_message}

pub record ViolationFormValues : Type 0 where
  pub title : String
  pub description : String
  pub severity : String
  pub status : String
  pub compliance_id : String
  pub regulation_id : String

pub record ViolationForm : Type 0 where
  pub title : String
  pub description : String
  pub severity : String
  pub status : String
  pub compliance_id : String
  pub regulation_id : String
  pub errors : List (String × String)
  pub submit_error : Option String

-- The effect that runs when the modal opens, for a new record or one to edit.
unfoldable pub seed : Option Violation → ViolationForm
seed none = record {
  title = "";
  description = "";
  severity = "medium";
  status = "open";
  compliance_id = "";
  regulation_id = "";
  errors = [];
  submit_error = none;
}
seed (some violation) = record {
  title = violation.title;
  description = get_or violation.description "";
  severity = violation.severity;
  status = violation.status;
  compliance_id = get_or violation.compliance_id "";
  regulation_id = get_or violation.regulation_id "";
  errors = [];
  submit_error = none;
}

unfoldable pub find_errors : ViolationForm → List (String × String)
find_errors f = check (blank f.title) "title" "Title is required."

unfoldable pub form_values : ViolationForm → ViolationFormValues
form_values f = record {
  title = trim f.title;
  description = f.description;
  severity = f.severity;
  status = f.status;
  compliance_id = trim f.compliance_id;
  regulation_id = trim f.regulation_id;
}

-- The first part of `submit`: the form as it then is, and the values, if they are handed on.
unfoldable pub submit : ViolationForm → ViolationForm × Option ViolationFormValues
unfolding find_errors form_values
submit f =
    let errors = find_errors f in
    if is_empty errors
    then (record f { errors = []; submit_error = none }, some (form_values f))
    else (record f { errors = errors }, none)

-- What `submit` catches: the message of an API error, or a general one.
unfoldable pub submit_failed : Option ApiError → ViolationForm → ViolationForm
submit_failed err f = record f { submit_error = some (failure_message err) }
