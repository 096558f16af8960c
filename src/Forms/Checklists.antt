-- ===== src/Forms/Checklists.antt =====
-- The form of frontend/src/features/checklists/components/ChecklistFormModal.tsx: its fields, how it opens, what it
-- checks, and what it submits.
use workflow_enterprise_comp.Prelude.{
  String, false, not, Option, none, some, List, nonempty, get_or, is_some, trim, ◌&&◌, ◌==◌, ◌++◌,
  if◌then◌else◌, [],
}
use workflow_enterprise_comp.Json.{Json, null, bool, str, num}
use workflow_enterprise_comp.Entities.{Checklist}
use workflow_enterprise_comp.Client.{ApiError}
use workflow_enterprise_comp.Forms.Common.{check, blank, sliced, stamped, is_empty, failure_message}

pub record ChecklistFormValues : Type 0 where
  pub title : String
  pub description : String
  pub status : String
  pub compliance_id : String
  pub owner_id : String
  pub due_date : Option String
  pub items : Option Json

pub record ChecklistForm : Type 0 where
  pub title : String
  pub description : String
  pub status : String
  pub compliance_id : String
  pub owner_id : String
  pub due_date : String
  pub items_json : String
  pub errors : List (String × String)
  pub submit_error : Option String

-- `JSON.parse` and `JSON.stringify`, which are not the program's.
pub record JsonText : Type 0 where
  pub parse : String → Option Json
  pub stringify : Json → String

-- `items ? JSON.stringify(items) : ""`, where no items, null, false, zero and "" are falsy.
printed_items : JsonText → Option Json → String
printed_items json none = ""
printed_items json (some null) = ""
printed_items json (some (bool false)) = ""
printed_items json (some (str s)) = if nonempty s then json.stringify (str s) else ""
printed_items json (some (num n)) = if n == 0 then "" else json.stringify (num n)
printed_items json (some v) = json.stringify v

-- `undefined` where the text is blank, or is no JSON.
parsed_items : JsonText → String → Option Json
parsed_items json text = if blank text then none else json.parse text

-- The effect that runs when the modal opens, for a new record or one to edit.
unfoldable pub seed : JsonText → Option Checklist → ChecklistForm
unfolding printed_items
seed json none = record {
  title = "";
  description = "";
  status = "open";
  compliance_id = "";
  owner_id = "";
  due_date = "";
  items_json = "";
  errors = [];
  submit_error = none;
}
seed json (some checklist) = record {
  title = checklist.title;
  description = get_or checklist.description "";
  status = checklist.status;
  compliance_id = get_or checklist.compliance_id "";
  owner_id = get_or checklist.owner_id "";
  due_date = sliced 10 checklist.due_date;
  items_json = printed_items json checklist.items;
  errors = [];
  submit_error = none;
}

unfoldable pub find_errors : JsonText → ChecklistForm → List (String × String)
find_errors json f =
    (check (blank f.title) "title" "Title is required.")
    ++ (check (not (blank f.items_json) && not (is_some (json.parse f.items_json))) "items"
        "Items must be valid JSON, e.g. [{\"label\": \"Step one\", \"done\": false}].")

unfoldable pub form_values : JsonText → ChecklistForm → ChecklistFormValues
unfolding parsed_items
form_values json f = record {
  title = trim f.title;
  description = f.description;
  status = f.status;
  compliance_id = trim f.compliance_id;
  owner_id = trim f.owner_id;
  due_date = stamped "T23:59:59.999Z" f.due_date;
  items = parsed_items json f.items_json;
}

-- The first part of `submit`: the form as it then is, and the values, if they are handed on.
unfoldable pub submit : JsonText → ChecklistForm → ChecklistForm × Option ChecklistFormValues
unfolding find_errors form_values
submit json f =
    let errors = find_errors json f in
    if is_empty errors
    then (record f { errors = []; submit_error = none }, some (form_values json f))
    else (record f { errors = errors }, none)

-- What `submit` catches: the message of an API error, or a general one.
unfoldable pub submit_failed : Option ApiError → ChecklistForm → ChecklistForm
submit_failed err f = record f { submit_error = some (failure_message err) }
