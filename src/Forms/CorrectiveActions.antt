-- ===== src/Forms/CorrectiveActions.antt =====
-- The form of frontend/src/features/correctiveactions/components/CorrectiveActionFormModal.tsx: its fields, how it opens, what it
-- checks, and what it submits.
use workflow_enterprise_comp.Prelude.{
  String, Option, none, some, List, get_or, trim, if◌then◌else◌, [],
}
use workflow_enterprise_comp.Entities.{CorrectiveAction}
use workflow_enterprise_comp.Client.{ApiError}
use workflow_enterprise_comp.Forms.Common.{check, blank, sliced, stamped, is_empty, failure_message}

pub record CorrectiveActionFormValues : Type 0 where
  pub title : String
  pub description : String
  pub status : String
  pub violation_id : String
  pub owner_id : String
  pub due_date : Option String

pub record CorrectiveActionForm : Type 0 where
  pub title : String
  pub description : String
  pub status : String
  pub violation_id : String
  pub owner_id : String
  pub due_date : String
  pub errors : List (String × String)
  pub submit_error : Option String

-- The effect that runs when the modal opens, for a new record or one to edit.
unfoldable pub seed : Option CorrectiveAction → CorrectiveActionForm
seed none = record {
  title = "";
  description = "";
  status = "open";
  violation_id = "";
  owner_id = "";
  due_date = "";
  errors = [];
  submit_error = none;
}
seed (some corrective_action) = record {
  title = corrective_action.title;
  description = get_or corrective_action.description "";
  status = corrective_action.status;
  violation_id = get_or corrective_action.violation_id "";
  owner_id = get_or corrective_action.owner_id "";
  due_date = sliced 10 corrective_action.due_date;
  errors = [];
  submit_error = none;
}

unfoldable pub find_errors : CorrectiveActionForm → List (String × String)
find_errors f = check (blank f.title) "title" "Title is required."

unfoldable pub form_values : CorrectiveActionForm → CorrectiveActionFormValues
form_values f = record {
  title = trim f.title;
  description = f.description;
  status = f.status;
  violation_id = trim f.violation_id;
  owner_id = trim f.owner_id;
  due_date = stamped "T23:59:59.999Z" f.due_date;
}

-- The first part of `submit`: the form as it then is, and the values, if they are handed on.
unfoldable pub submit :
    CorrectiveActionForm → CorrectiveActionForm × Option CorrectiveActionFormValues
unfolding find_errors form_values
submit f =
    let errors = find_errors f in
    if is_empty errors
    then (record f { errors = []; submit_error = none }, some (form_values f))
    else (record f { errors = errors }, none)

-- What `submit` catches: the message of an API error, or a general one.
unfoldable pub submit_failed : Option ApiError → CorrectiveActionForm → CorrectiveActionForm
submit_failed err f = record f { submit_error = some (failure_message err) }
