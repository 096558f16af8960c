-- ===== src/Forms/Deadlines.antt =====
-- The form of frontend/src/features/deadlines/components/DeadlineFormModal.tsx: its fields, how it opens, what it
-- checks, and what it submits.
use workflow_enterprise_comp.Prelude.{
  String, not, Option, none, some, List, nonempty, get_or, trim, ◌+s◌, ◌++◌, if◌then◌else◌, [],
}
use workflow_enterprise_comp.Entities.{Deadline}
use workflow_enterprise_comp.Client.{ApiError}
use workflow_enterprise_comp.Forms.Common.{check, blank, sliced, is_empty, failure_message}

pub record DeadlineFormValues : Type 0 where
  pub title : String
  pub description : String
  pub status : String
  pub entity_type : String
  pub entity_id : String
  pub deadline_at : String

pub record DeadlineForm : Type 0 where
  pub title : String
  pub description : String
  pub status : String
  pub entity_type : String
  pub entity_id : String
  pub deadline_at : String
  pub errors : List (String × String)
  pub submit_error : Option String

-- The effect that runs when the modal opens, for a new record or one to edit.
unfoldable pub seed : Option Deadline → DeadlineForm
seed none = record {
  title = "";
  description = "";
  status = "upcoming";
  entity_type = "";
  entity_id = "";
  deadline_at = "";
  errors = [];
  submit_error = none;
}
seed (some deadline) = record {
  title = deadline.title;
  description = get_or deadline.description "";
  status = deadline.status;
  entity_type = get_or deadline.entity_type "";
  entity_id = get_or deadline.entity_id "";
  deadline_at = sliced 16 (some deadline.deadline_at);
  errors = [];
  submit_error = none;
}

unfoldable pub find_errors : DeadlineForm → List (String × String)
find_errors f =
    (check (blank f.title) "title" "Title is required.")
    ++ (check (not (nonempty f.deadline_at)) "deadline_at" "Deadline time is required.")

unfoldable pub form_values : DeadlineForm → DeadlineFormValues
form_values f = record {
  title = trim f.title;
  description = f.description;
  status = f.status;
  entity_type = trim f.entity_type;
  entity_id = trim f.entity_id;
  deadline_at = f.deadline_at +s ":00.000Z";
}

-- The first part of `submit`: the form as it then is, and the values, if they are handed on.
unfoldable pub submit : DeadlineForm → DeadlineForm × Option DeadlineFormValues
unfolding find_errors form_values
submit f =
    let errors = find_errors f in
    if is_empty errors
    then (record f { errors = []; submit_error = none }, some (form_values f))
    else (record f { errors = errors }, none)

-- What `submit` catches: the message of an API error, or a general one.
unfoldable pub submit_failed : Option ApiError → DeadlineForm → DeadlineForm
submit_failed err f = record f { submit_error = some (failure_message err) }
