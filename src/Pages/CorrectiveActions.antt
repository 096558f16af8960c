-- ===== src/Pages/CorrectiveActions.antt =====
-- The page of frontend/src/features/correctiveactions/pages/CorrectiveActionsPage.tsx: what it
-- filters by, what it offers for a row, and what its mutations ask for and tell.
use workflow_enterprise_comp.Prelude.{String, not, Option, none, some, List, str_eq, ◌&&◌, ◌++◌}
use workflow_enterprise_comp.Json.{Fields, end}
use workflow_enterprise_comp.Client.{Request}
use workflow_enterprise_comp.Http.{DateRangeSpec}
use workflow_enterprise_comp.Entities.{CorrectiveAction}
use workflow_enterprise_comp.Session.{AuthState, can}
use workflow_enterprise_comp.Toasts.{success}
use workflow_enterprise_comp.Paths.Perm.{Perm, route}
use workflow_enterprise_comp.Services.CorrectiveActions
use workflow_enterprise_comp.Services.CorrectiveActions.{
  CorrectiveActionCreateBody, CorrectiveActionUpdateBody,
}
use workflow_enterprise_comp.Forms.CorrectiveActions.{CorrectiveActionFormValues}
use workflow_enterprise_comp.Pages.Common.{
  DateRangeValue, date_to_range, filter_field, note, Mutation, Act, call, edit, ask_delete, when,
}

unfoldable pub date_range : DateRangeValue → Option DateRangeSpec
unfolding date_to_range
date_range = date_to_range "created_at"

unfoldable pub filters : String → String → String → Fields
unfolding filter_field
filters debounced_search status_filter violation_filter =
    filter_field "title" debounced_search
      (filter_field "status" status_filter (filter_field "violation_id" violation_filter end))

unfoldable pub create_mutation : Mutation CorrectiveActionCreateBody CorrectiveAction
create_mutation = record {
  request = CorrectiveActions.create;
  success_note = λ x. note success "Corrective action created" (some x.title);
  failure = "Could not create corrective action";
}

unfoldable pub update_mutation : Mutation CorrectiveActionUpdateBody CorrectiveAction
update_mutation = record {
  request = CorrectiveActions.update;
  success_note = λ x. note success "Corrective action updated" (some x.title);
  failure = "Could not update corrective action";
}

unfoldable pub complete_mutation : Mutation String CorrectiveAction
complete_mutation = record {
  request = CorrectiveActions.complete;
  success_note = λ x. note success "Corrective action completed" (some x.title);
  failure = "Could not complete corrective action";
}

unfoldable pub remove_mutation : Mutation String (Unit {0})
remove_mutation = record {
  request = CorrectiveActions.remove;
  success_note = λ _. note success "Corrective action deleted" none;
  failure = "Could not delete corrective action";
}

-- The items of a row's menu.
unfoldable pub row_actions : AuthState → CorrectiveAction → List Act
row_actions a corrective_action =
    when
      (can a (route Perm.corrective_actions_complete)
        && not (str_eq corrective_action.status "completed"))
      (call (CorrectiveActions.complete corrective_action.id))
    ++ (when (can a (route Perm.corrective_actions_update)) edit
        ++ (when (can a (route Perm.corrective_actions_delete)) ask_delete))

-- What confirming a deletion asks for.
unfoldable pub delete_request : CorrectiveAction → Request
delete_request corrective_action = CorrectiveActions.remove corrective_action.id

-- What the form's values ask for: an update of the record that is edited, or a new one.
unfoldable pub submit_request : Option CorrectiveAction → CorrectiveActionFormValues → Request
submit_request none values = CorrectiveActions.create (record {
  title = values.title;
  description = some values.description;
  status = some values.status;
  violation_id = some values.violation_id;
  owner_id = some values.owner_id;
  due_date = some values.due_date;
})
submit_request (some corrective_action) values = CorrectiveActions.update (record {
  id = corrective_action.id;
  title = some values.title;
  description = some values.description;
  status = some values.status;
  violation_id = some values.violation_id;
  owner_id = some values.owner_id;
  due_date = some values.due_date;
})
