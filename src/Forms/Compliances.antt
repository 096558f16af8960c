-- ===== src/Forms/Compliances.antt =====
-- The form of frontend/src/features/compliances/components/ComplianceFormModal.tsx: its fields, how it opens, what it
-- checks, and what it submits.
use workflow_enterprise_comp.Prelude.{
  String, Option, none, some, List, get_or, trim, if◌then◌else◌, [],
}
use workflow_enterprise_comp.Entities.{Compliance}
use workflow_enterprise_comp.Client.{ApiError}
use workflow_enterprise_comp.Forms.Common.{check, blank, sliced, stamped, is_empty, failure_message}

pub record ComplianceFormValues : Type 0 where
  pub name : String
  pub description : String
  pub status : String
  pub risk_level : String
  pub owner_id : String
  pub regulation_id : String
  pub due_date : Option String

pub record ComplianceForm : Type 0 where
  pub name : String
  pub description : String
  pub status : String
  pub risk_level : String
  pub owner_id : String
  pub regulation_id : String
  pub due_date : String
  pub errors : List (String × String)
  pub submit_error : Option String

-- The effect that runs when the modal opens, for a new record or one to edit.
unfoldable pub seed : Option Compliance → ComplianceForm
seed none = record {
  name = "";
  description = "";
  status = "draft";
  risk_level = "medium";
  owner_id = "";
  regulation_id = "";
  due_date = "";
  errors = [];
  submit_error = none;
}
seed (some compliance) = record {
  name = compliance.name;
  description = get_or compliance.description "";
  status = compliance.status;
  risk_level = compliance.risk_level;
  owner_id = get_or compliance.owner_id "";
  regulation_id = get_or compliance.regulation_id "";
  due_date = sliced 10 compliance.due_date;
  errors = [];
  submit_error = none;
}

unfoldable pub find_errors : ComplianceForm → List (String × String)
find_errors f = check (blank f.name) "name" "Name is required."

unfoldable pub form_values : ComplianceForm → ComplianceFormValues
form_values f = record {
  name = trim f.name;
  description = f.description;
  status = f.status;
  risk_level = f.risk_level;
  owner_id = trim f.owner_id;
  regulation_id = trim f.regulation_id;
  due_date = stamped "T23:59:59.999Z" f.due_date;
}

-- The first part of `submit`: the form as it then is, and the values, if they are handed on.
unfoldable pub submit : ComplianceForm → ComplianceForm × Option ComplianceFormValues
unfolding find_errors form_values
submit f =
    let errors = find_errors f in
    if is_empty errors
    then (record f { errors = []; submit_error = none }, some (form_values f))
    else (record f { errors = errors }, none)

-- What `submit` catches: the message of an API error, or a general one.
unfoldable pub submit_failed : Option ApiError → ComplianceForm → ComplianceForm
submit_failed err f = record f { submit_error = some (failure_message err) }
