-- ===== src/Pages/Audits.antt =====
-- The page of frontend/src/features/audits/pages/AuditsPage.tsx: what it
-- filters by, what it offers for a row, and what its mutations ask for and tell.
use workflow_enterprise_comp.Prelude.{String, Option, none, some, List, str_eq, ◌&&◌, ◌||◌, ◌++◌}
use workflow_enterprise_comp.Json.{Fields, end}
use workflow_enterprise_comp.Client.{Request}
use workflow_enterprise_comp.Http.{DateRangeSpec}
use workflow_enterprise_comp.Entities.{Audit}
use workflow_enterprise_comp.Session.{AuthState, can}
use workflow_enterprise_comp.Toasts.{success}
use workflow_enterprise_comp.Paths.Perm.{Perm, route}
use workflow_enterprise_comp.Services.Audits
use workflow_enterprise_comp.Services.Audits.{AuditCreateBody, AuditUpdateBody}
use workflow_enterprise_comp.Forms.Audits.{AuditFormValues}
use workflow_enterprise_comp.Pages.Common.{
  DateRangeValue, date_to_range, filter_field, note, Mutation, Act, call, edit, ask_delete, when,
}

unfoldable pub date_range : DateRangeValue → Option DateRangeSpec
unfolding date_to_range
date_range = date_to_range "scheduled_at"

unfoldable pub filters : String → String → String → Fields
unfolding filter_field
filters debounced_search status_filter compliance_filter =
    filter_field "title" debounced_search
      (filter_field "status" status_filter (filter_field "compliance_id" compliance_filter end))

unfoldable pub create_mutation : Mutation AuditCreateBody Audit
create_mutation = record {
  request = Audits.create;
  success_note = λ x. note success "Audit created" (some x.title);
  failure = "Could not create audit";
}

unfoldable pub update_mutation : Mutation AuditUpdateBody Audit
update_mutation = record {
  request = Audits.update;
  success_note = λ x. note success "Audit updated" (some x.title);
  failure = "Could not update audit";
}

unfoldable pub start_mutation : Mutation String Audit
start_mutation = record {
  request = Audits.start;
  success_note = λ x. note success "Audit started" (some x.title);
  failure = "Could not start audit";
}

unfoldable pub complete_mutation : Mutation String Audit
complete_mutation = record {
  request = Audits.complete;
  success_note = λ x. note success "Audit completed" (some x.title);
  failure = "Could not complete audit";
}

unfoldable pub remove_mutation : Mutation String (Unit {0})
remove_mutation = record {
  request = Audits.remove;
  success_note = λ _. note success "Audit deleted" none;
  failure = "Could not delete audit";
}

-- The items of a row's menu.
unfoldable pub row_actions : AuthState → Audit → List Act
row_actions a audit =
    when (can a (route Perm.audits_start) && str_eq audit.status "scheduled")
      (call (Audits.start audit.id))
    ++ (when
          (can a (route Perm.audits_complete)
            && (str_eq audit.status "scheduled" || str_eq audit.status "in_progress"))
          (call (Audits.complete audit.id))
        ++ (when (can a (route Perm.audits_update)) edit
            ++ (when (can a (route Perm.audits_delete)) ask_delete)))

-- What confirming a deletion asks for.
unfoldable pub delete_request : Audit → Request
delete_request audit = Audits.remove audit.id

-- What the form's values ask for: an update of the record that is edited, or a new one.
unfoldable pub submit_request : Option Audit → AuditFormValues → Request
submit_request none values = Audits.create (record {
  title = values.title;
  description = some values.description;
  status = some values.status;
  compliance_id = some values.compliance_id;
  auditor_id = some values.auditor_id;
  scheduled_at = some values.scheduled_at;
})
submit_request (some audit) values = Audits.update (record {
  id = audit.id;
  title = some values.title;
  description = some values.description;
  status = some values.status;
  compliance_id = some values.compliance_id;
  auditor_id = some values.auditor_id;
  scheduled_at = some values.scheduled_at;
})
