-- ===== src/Pages/Regulations.antt =====
-- The page of frontend/src/features/regulations/pages/RegulationsPage.tsx: what it
-- filters by, what it offers for a row, and what its mutations ask for and tell.
use workflow_enterprise_comp.Prelude.{String, Option, none, some, List, ◌++◌}
use workflow_enterprise_comp.Json.{Fields, end}
use workflow_enterprise_comp.Client.{Request}
use workflow_enterprise_comp.Http.{DateRangeSpec}
use workflow_enterprise_comp.Entities.{Regulation}
use workflow_enterprise_comp.Session.{AuthState, can}
use workflow_enterprise_comp.Toasts.{success}
use workflow_enterprise_comp.Paths.Perm.{Perm, route}
use workflow_enterprise_comp.Services.Regulations
use workflow_enterprise_comp.Services.Regulations.{RegulationCreateBody, RegulationUpdateBody}
use workflow_enterprise_comp.Forms.Regulations.{RegulationFormValues}
use workflow_enterprise_comp.Pages.Common.{
  DateRangeValue, date_to_range, filter_field, note, Mutation, Act, edit, ask_delete, when,
}

unfoldable pub date_range : DateRangeValue → Option DateRangeSpec
unfolding date_to_range
date_range = date_to_range "effective_date"

unfoldable pub filters : String → String → String → Fields
unfolding filter_field
filters debounced_search status_filter jurisdiction_filter =
    filter_field "title" debounced_search
      (filter_field "status" status_filter (filter_field "jurisdiction" jurisdiction_filter end))

unfoldable pub create_mutation : Mutation RegulationCreateBody Regulation
create_mutation = record {
  request = Regulations.create;
  success_note = λ x. note success "Regulation created" (some x.code);
  failure = "Could not create regulation";
}

unfoldable pub update_mutation : Mutation RegulationUpdateBody Regulation
update_mutation = record {
  request = Regulations.update;
  success_note = λ x. note success "Regulation updated" (some x.code);
  failure = "Could not update regulation";
}

unfoldable pub remove_mutation : Mutation String (Unit {0})
remove_mutation = record {
  request = Regulations.remove;
  success_note = λ _. note success "Regulation deleted" none;
  failure = "Could not delete regulation";
}

-- The items of a row's menu.
unfoldable pub row_actions : AuthState → Regulation → List Act
row_actions a regulation =
    when (can a (route Perm.regulations_update)) edit
    ++ (when (can a (route Perm.regulations_delete)) ask_delete)

-- What confirming a deletion asks for.
unfoldable pub delete_request : Regulation → Request
delete_request regulation = Regulations.remove regulation.id

-- What the form's values ask for: an update of the record that is edited, or a new one.
unfoldable pub submit_request : Option Regulation → RegulationFormValues → Request
submit_request none values = Regulations.create (record {
  title = values.title;
  code = values.code;
  description = some values.description;
  jurisdiction = some values.jurisdiction;
  status = some values.status;
  effective_date = some values.effective_date;
  expiry_date = some values.expiry_date;
})
submit_request (some regulation) values = Regulations.update (record {
  id = regulation.id;
  title = some values.title;
  code = some values.code;
  description = some values.description;
  jurisdiction = some values.jurisdiction;
  status = some values.status;
  effective_date = some values.effective_date;
  expiry_date = some values.expiry_date;
})
