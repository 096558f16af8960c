-- ===== src/Forms/Regulations.antt =====
-- The form of frontend/src/features/regulations/components/RegulationFormModal.tsx: its fields, how it opens, what it
-- checks, and what it submits.
use workflow_enterprise_comp.Prelude.{
  String, Option, none, some, List, nonempty, get_or, trim, ◌&&◌, ◌++◌, if◌then◌else◌, [],
}
use workflow_enterprise_comp.Entities.{Regulation}
use workflow_enterprise_comp.Client.{ApiError}
use workflow_enterprise_comp.Forms.Common.{
  check, blank, sliced, stamped, is_empty, failure_message, text_lt,
}

pub record RegulationFormValues : Type 0 where
  pub title : String
  pub code : String
  pub description : String
  pub jurisdiction : String
  pub status : String
  pub effective_date : Option String
  pub expiry_date : Option String

pub record RegulationForm : Type 0 where
  pub title : String
  pub code : String
  pub description : String
  pub jurisdiction : String
  pub status : String
  pub effective_date : String
  pub expiry_date : String
  pub errors : List (String × String)
  pub submit_error : Option String

-- The effect that runs when the modal opens, for a new record or one to edit.
unfoldable pub seed : Option Regulation → RegulationForm
seed none = record {
  title = "";
  code = "";
  description = "";
  jurisdiction = "";
  status = "active";
  effective_date = "";
  expiry_date = "";
  errors = [];
  submit_error = none;
}
seed (some regulation) = record {
  title = regulation.title;
  code = regulation.code;
  description = get_or regulation.description "";
  jurisdiction = get_or regulation.jurisdiction "";
  status = regulation.status;
  effective_date = sliced 10 regulation.effective_date;
  expiry_date = sliced 10 regulation.expiry_date;
  errors = [];
  submit_error = none;
}

unfoldable pub find_errors : RegulationForm → List (String × String)
find_errors f =
    (check (blank f.title) "title" "Title is required.")
    ++ (check (blank f.code) "code" "Code is required.")
    ++ (check
        (nonempty f.effective_date
          && nonempty f.expiry_date
          && text_lt f.expiry_date f.effective_date)
        "expiry_date" "Expiry must be after the effective date.")

unfoldable pub form_values : RegulationForm → RegulationFormValues
form_values f = record {
  title = trim f.title;
  code = trim f.code;
  description = f.description;
  jurisdiction = trim f.jurisdiction;
  status = f.status;
  effective_date = stamped "T00:00:00.000Z" f.effective_date;
  expiry_date = stamped "T00:00:00.000Z" f.expiry_date;
}

-- The first part of `submit`: the form as it then is, and the values, if they are handed on.
unfoldable pub submit : RegulationForm → RegulationForm × Option RegulationFormValues
unfolding find_errors form_values
submit f =
    let errors = find_errors f in
    if is_empty errors
    then (record f { errors = []; submit_error = none }, some (form_values f))
    else (record f { errors = errors }, none)

-- What `submit` catches: the message of an API error, or a general one.
unfoldable pub submit_failed : Option ApiError → RegulationForm → RegulationForm
submit_failed err f = record f { submit_error = some (failure_message err) }
