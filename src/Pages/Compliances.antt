-- ===== src/Pages/Compliances.antt =====
-- The page of frontend/src/features/compliances/pages/CompliancesPage.tsx: what it
-- filters by, what it offers for a row, and what its mutations ask for and tell.
use workflow_enterprise_comp.Prelude.{String, Option, none, some, List, ◌++◌, if◌then◌else◌}
use workflow_enterprise_comp.Json.{Fields, end}
use workflow_enterprise_comp.Client.{Request}
use workflow_enterprise_comp.Http.{DateRangeSpec}
use workflow_enterprise_comp.Entities.{Compliance}
use workflow_enterprise_comp.Session.{AuthState, can}
use workflow_enterprise_comp.Toasts.{success, info}
use workflow_enterprise_comp.Paths.Perm.{Perm, route}
use workflow_enterprise_comp.Services.Compliances
use workflow_enterprise_comp.Services.Compliances.{
  ComplianceCreateBody, ComplianceUpdateBody, CheckResult,
}
use workflow_enterprise_comp.Forms.Compliances.{ComplianceFormValues}
use workflow_enterprise_comp.Pages.Common.{
  DateRangeValue, date_to_range, filter_field, Note, note, Mutation, Act, call, edit, ask_delete,
  when,
}

unfoldable pub date_range : DateRangeValue → Option DateRangeSpec
unfolding date_to_range
date_range = date_to_range "created_at"

unfoldable pub filters : String → String → String → Fields
unfolding filter_field
filters debounced_search status_filter risk_filter =
    filter_field "name" debounced_search
      (filter_field "status" status_filter (filter_field "risk_level" risk_filter end))

unfoldable pub create_mutation : Mutation ComplianceCreateBody Compliance
create_mutation = record {
  request = Compliances.create;
  success_note = λ x. note success "Compliance created" (some x.name);
  failure = "Could not create compliance";
}

unfoldable pub update_mutation : Mutation ComplianceUpdateBody Compliance
update_mutation = record {
  request = Compliances.update;
  success_note = λ x. note success "Compliance updated" (some x.name);
  failure = "Could not update compliance";
}

unfoldable pub remove_mutation : Mutation String (Unit {0})
remove_mutation = record {
  request = Compliances.remove;
  success_note = λ _. note success "Compliance deleted" none;
  failure = "Could not delete compliance";
}

unfoldable pub check_note : CheckResult → Note
check_note res =
    if res.changed
    then note success "Status updated" (some res.reason)
    else note info "No status change" (some res.reason)

unfoldable pub check_mutation : Mutation String CheckResult
unfolding check_note
check_mutation = record {
  request = Compliances.check;
  success_note = check_note;
  failure = "Check failed";
}

-- The items of a row's menu.
unfoldable pub row_actions : AuthState → Compliance → List Act
row_actions a compliance =
    when (can a (route Perm.compliances_check)) (call (Compliances.check compliance.id))
    ++ (when (can a (route Perm.compliances_update)) edit
        ++ (when (can a (route Perm.compliances_delete)) ask_delete))

-- What confirming a deletion asks for.
unfoldable pub delete_request : Compliance → Request
delete_request compliance = Compliances.remove compliance.id

-- What the form's values ask for: an update of the record that is edited, or a new one.
unfoldable pub submit_request : Option Compliance → ComplianceFormValues → Request
submit_request none values = Compliances.create (record {
  name = values.name;
  description = some values.description;
  status = some values.status;
  risk_level = some values.risk_level;
  owner_id = some values.owner_id;
  regulation_id = some values.regulation_id;
  due_date = some values.due_date;
  metadata = none;
})
submit_request (some compliance) values = Compliances.update (record {
  id = compliance.id;
  name = some values.name;
  description = some values.description;
  status = some values.status;
  risk_level = some values.risk_level;
  owner_id = some values.owner_id;
  regulation_id = some values.regulation_id;
  due_date = some values.due_date;
})
