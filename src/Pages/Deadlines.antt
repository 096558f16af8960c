-- ===== src/Pages/Deadlines.antt =====
-- The page of frontend/src/features/deadlines/pages/DeadlinesPage.tsx: what it
-- filters by, what it offers for a row, and what its mutations ask for and tell.
use workflow_enterprise_comp.Prelude.{String, not, Option, none, some, List, str_eq, ◌&&◌, ◌++◌}
use workflow_enterprise_comp.Json.{Fields, end}
use workflow_enterprise_comp.Client.{Request}
use workflow_enterprise_comp.Http.{DateRangeSpec}
use workflow_enterprise_comp.Entities.{Deadline}
use workflow_enterprise_comp.Session.{AuthState, can}
use workflow_enterprise_comp.Toasts.{success}
use workflow_enterprise_comp.Paths.Perm.{Perm, route}
use workflow_enterprise_comp.Services.Deadlines
use workflow_enterprise_comp.Services.Deadlines.{DeadlineCreateBody, DeadlineUpdateBody}
use workflow_enterprise_comp.Forms.Deadlines.{DeadlineFormValues}
use workflow_enterprise_comp.Pages.Common.{
  DateRangeValue, date_to_range, filter_field, note, Mutation, Act, call, edit, ask_delete, when,
}

unfoldable pub date_range : DateRangeValue → Option DateRangeSpec
unfolding date_to_range
date_range = date_to_range "deadline_at"

unfoldable pub filters : String → String → String → Fields
unfolding filter_field
filters debounced_search status_filter entity_filter =
    filter_field "title" debounced_search
      (filter_field "status" status_filter (filter_field "entity_type" entity_filter end))

unfoldable pub create_mutation : Mutation DeadlineCreateBody Deadline
create_mutation = record {
  request = Deadlines.create;
  success_note = λ x. note success "Deadline created" (some x.title);
  failure = "Could not create deadline";
}

unfoldable pub update_mutation : Mutation DeadlineUpdateBody Deadline
update_mutation = record {
  request = Deadlines.update;
  success_note = λ x. note success "Deadline updated" (some x.title);
  failure = "Could not update deadline";
}

unfoldable pub complete_mutation : Mutation String Deadline
complete_mutation = record {
  request = Deadlines.complete;
  success_note = λ x. note success "Deadline completed" (some x.title);
  failure = "Could not complete deadline";
}

unfoldable pub remove_mutation : Mutation String (Unit {0})
remove_mutation = record {
  request = Deadlines.remove;
  success_note = λ _. note success "Deadline deleted" none;
  failure = "Could not delete deadline";
}

-- The items of a row's menu.
unfoldable pub row_actions : AuthState → Deadline → List Act
row_actions a deadline =
    when (can a (route Perm.deadlines_complete) && not (str_eq deadline.status "completed"))
      (call (Deadlines.complete deadline.id))
    ++ (when (can a (route Perm.deadlines_update)) edit
        ++ (when (can a (route Perm.deadlines_delete)) ask_delete))

-- What confirming a deletion asks for.
unfoldable pub delete_request : Deadline → Request
delete_request deadline = Deadlines.remove deadline.id

-- What the form's values ask for: an update of the record that is edited, or a new one.
unfoldable pub submit_request : Option Deadline → DeadlineFormValues → Request
submit_request none values = Deadlines.create (record {
  title = values.title;
  description = some values.description;
  status = some values.status;
  entity_type = some values.entity_type;
  entity_id = some values.entity_id;
  deadline_at = values.deadline_at;
})
submit_request (some deadline) values = Deadlines.update (record {
  id = deadline.id;
  title = some values.title;
  description = some values.description;
  status = some values.status;
  entity_type = some values.entity_type;
  entity_id = some values.entity_id;
  deadline_at = some values.deadline_at;
})
