-- ===== src/Pages/Violations.antt =====
-- The page of frontend/src/features/violations/pages/ViolationsPage.tsx: what it
-- filters by, what it offers for a row, and what its mutations ask for and tell.
use workflow_enterprise_comp.Prelude.{String, not, Option, none, some, List, str_eq, ◌&&◌, ◌++◌}
use workflow_enterprise_comp.Json.{Fields, end}
use workflow_enterprise_comp.Client.{Request}
use workflow_enterprise_comp.Http.{DateRangeSpec}
use workflow_enterprise_comp.Entities.{Violation}
use workflow_enterprise_comp.Session.{AuthState, can}
use workflow_enterprise_comp.Toasts.{success}
use workflow_enterprise_comp.Paths.Perm.{Perm, route}
use workflow_enterprise_comp.Services.Violations
use workflow_enterprise_comp.Services.Violations.{ViolationCreateBody, ViolationUpdateBody}
use workflow_enterprise_comp.Forms.Violations.{ViolationFormValues}
use workflow_enterprise_comp.Pages.Common.{
  DateRangeValue, date_to_range, filter_field, note, Mutation, Act, call, edit, ask_delete, when,
}

unfoldable pub date_range : DateRangeValue → Option DateRangeSpec
unfolding date_to_range
date_range = date_to_range "detected_at"

unfoldable pub filters : String → String → String → Fields
unfolding filter_field
filters debounced_search status_filter severity_filter =
    filter_field "title" debounced_search
      (filter_field "status" status_filter (filter_field "severity" severity_filter end))

unfoldable pub create_mutation : Mutation ViolationCreateBody Violation
create_mutation = record {
  request = Violations.create;
  success_note = λ x. note success "Violation created" (some x.title);
  failure = "Could not create violation";
}

unfoldable pub update_mutation : Mutation ViolationUpdateBody Violation
update_mutation = record {
  request = Violations.update;
  success_note = λ x. note success "Violation updated" (some x.title);
  failure = "Could not update violation";
}

unfoldable pub resolve_mutation : Mutation String Violation
resolve_mutation = record {
  request = Violations.resolve;
  success_note = λ x. note success "Violation resolved" (some x.title);
  failure = "Could not resolve violation";
}

unfoldable pub remove_mutation : Mutation String (Unit {0})
remove_mutation = record {
  request = Violations.remove;
  success_note = λ _. note success "Violation deleted" none;
  failure = "Could not delete violation";
}

-- The items of a row's menu.
unfoldable pub row_actions : AuthState → Violation → List Act
row_actions a violation =
    when
      (can a (route Perm.violations_resolve)
        && not (str_eq violation.status "resolved")
        && not (str_eq violation.status "closed"))
      (call (Violations.resolve violation.id))
    ++ (when (can a (route Perm.violations_update)) edit
        ++ (when (can a (route Perm.violations_delete)) ask_delete))

-- What confirming a deletion asks for.
unfoldable pub delete_request : Violation → Request
delete_request violation = Violations.remove violation.id

-- What the form's values ask for: an update of the record that is edited, or a new one.
unfoldable pub submit_request : Option Violation → ViolationFormValues → Request
submit_request none values = Violations.create (record {
  title = values.title;
  description = some values.description;
  severity = some values.severity;
  status = some values.status;
  compliance_id = some values.compliance_id;
  regulation_id = some values.regulation_id;
})
submit_request (some violation) values = Violations.update (record {
  id = violation.id;
  title = some values.title;
  description = some values.description;
  severity = some values.severity;
  status = some values.status;
  compliance_id = some values.compliance_id;
  regulation_id = some values.regulation_id;
})
