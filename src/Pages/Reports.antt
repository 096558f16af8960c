-- ===== src/Pages/Reports.antt =====
-- The page of frontend/src/features/reports/pages/ReportsPage.tsx: what it
-- filters by, what it offers for a row, and what its mutations ask for and tell.
use workflow_enterprise_comp.Prelude.{String, Option, none, some, List, ◌++◌, ◌∷◌, []}
use workflow_enterprise_comp.Json.{Fields, end}
use workflow_enterprise_comp.Client.{Request}
use workflow_enterprise_comp.Http.{DateRangeSpec}
use workflow_enterprise_comp.Entities.{Report}
use workflow_enterprise_comp.Session.{AuthState, can}
use workflow_enterprise_comp.Toasts.{success}
use workflow_enterprise_comp.Paths.Perm.{Perm, route}
use workflow_enterprise_comp.Services.Reports
use workflow_enterprise_comp.Services.Reports.{ReportUpdateBody, ReportGenerateBody}
use workflow_enterprise_comp.Forms.Reports.{ReportFormValues}
use workflow_enterprise_comp.Pages.Common.{
  DateRangeValue, date_to_range, filter_field, note, Mutation, Act, edit, ask_delete, view, when,
}

unfoldable pub date_range : DateRangeValue → Option DateRangeSpec
unfolding date_to_range
date_range = date_to_range "generated_at"

unfoldable pub filters : String → String → String → Fields
unfolding filter_field
filters debounced_search type_filter status_filter =
    filter_field "title" debounced_search
      (filter_field "type" type_filter (filter_field "status" status_filter end))

unfoldable pub generate_mutation : Mutation ReportGenerateBody Report
generate_mutation = record {
  request = Reports.generate;
  success_note = λ x. note success "Report generated" (some x.title);
  failure = "Could not generate report";
}

unfoldable pub update_mutation : Mutation ReportUpdateBody Report
update_mutation = record {
  request = Reports.update;
  success_note = λ x. note success "Report updated" (some x.title);
  failure = "Could not update report";
}

unfoldable pub remove_mutation : Mutation String (Unit {0})
remove_mutation = record {
  request = Reports.remove;
  success_note = λ _. note success "Report deleted" none;
  failure = "Could not delete report";
}

-- The items of a row's menu.
unfoldable pub row_actions : AuthState → Report → List Act
row_actions a report =
    (view ∷ [])
    ++ (when (can a (route Perm.reports_update)) edit
        ++ (when (can a (route Perm.reports_delete)) ask_delete))

-- What confirming a deletion asks for.
unfoldable pub delete_request : Report → Request
delete_request report = Reports.remove report.id

-- What the form's values ask for: an update of the record that is edited, or a new one.
unfoldable pub submit_request : Option Report → ReportFormValues → Request
submit_request none values = Reports.generate (record {
  title = values.title;
  type = some values.type;
  description = some values.description;
  compliance_id = some values.compliance_id;
})
submit_request (some report) values = Reports.update (record {
  id = report.id;
  title = some values.title;
  type = some values.type;
  status = some values.status;
  description = some values.description;
  compliance_id = some values.compliance_id;
})
