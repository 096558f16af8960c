-- ===== src/Pages/Checklists.antt =====
-- The page of frontend/src/features/checklists/pages/ChecklistsPage.tsx: what it
-- filters by, what it offers for a row, and what its mutations ask for and tell.
use workflow_enterprise_comp.Prelude.{String, Option, none, some, List, ◌++◌}
use workflow_enterprise_comp.Json.{Fields, end}
use workflow_enterprise_comp.Client.{Request}
use workflow_enterprise_comp.Http.{DateRangeSpec}
use workflow_enterprise_comp.Entities.{Checklist}
use workflow_enterprise_comp.Session.{AuthState, can}
use workflow_enterprise_comp.Toasts.{success}
use workflow_enterprise_comp.Paths.Perm.{Perm, route}
use workflow_enterprise_comp.Services.Checklists
use workflow_enterprise_comp.Services.Checklists.{ChecklistCreateBody, ChecklistUpdateBody}
use workflow_enterprise_comp.Forms.Checklists.{ChecklistFormValues}
use workflow_enterprise_comp.Pages.Common.{
  DateRangeValue, date_to_range, filter_field, note, Mutation, Act, edit, ask_delete, when,
}

unfoldable pub date_range : DateRangeValue → Option DateRangeSpec
unfolding date_to_range
date_range = date_to_range "created_at"

unfoldable pub filters : String → String → String → Fields
unfolding filter_field
filters debounced_search status_filter compliance_filter =
    filter_field "title" debounced_search
      (filter_field "status" status_filter (filter_field "compliance_id" compliance_filter end))

unfoldable pub create_mutation : Mutation ChecklistCreateBody Checklist
create_mutation = record {
  request = Checklists.create;
  success_note = λ x. note success "Checklist created" (some x.title);
  failure = "Could not create checklist";
}

unfoldable pub update_mutation : Mutation ChecklistUpdateBody Checklist
update_mutation = record {
  request = Checklists.update;
  success_note = λ x. note success "Checklist updated" (some x.title);
  failure = "Could not update checklist";
}

unfoldable pub remove_mutation : Mutation String (Unit {0})
remove_mutation = record {
  request = Checklists.remove;
  success_note = λ _. note success "Checklist deleted" none;
  failure = "Could not delete checklist";
}

-- The items of a row's menu.
unfoldable pub row_actions : AuthState → Checklist → List Act
row_actions a checklist =
    when (can a (route Perm.checklists_update)) edit
    ++ (when (can a (route Perm.checklists_delete)) ask_delete)

-- What confirming a deletion asks for.
unfoldable pub delete_request : Checklist → Request
delete_request checklist = Checklists.remove checklist.id

-- What the form's values ask for: an update of the record that is edited, or a new one.
unfoldable pub submit_request : Option Checklist → ChecklistFormValues → Request
submit_request none values = Checklists.create (record {
  title = values.title;
  description = some values.description;
  status = some values.status;
  compliance_id = some values.compliance_id;
  owner_id = some values.owner_id;
  due_date = some values.due_date;
  items = values.items;
})
submit_request (some checklist) values = Checklists.update (record {
  id = checklist.id;
  title = some values.title;
  description = some values.description;
  status = some values.status;
  compliance_id = some values.compliance_id;
  owner_id = some values.owner_id;
  due_date = some values.due_date;
  items = values.items;
})
