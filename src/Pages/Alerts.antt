-- ===== src/Pages/Alerts.antt =====
-- The page of frontend/src/features/alerts/pages/AlertsPage.tsx: what it
-- filters by, what it offers for a row, and what its mutations ask for and tell.
use workflow_enterprise_comp.Prelude.{String, not, Option, none, List, str_eq, ◌&&◌, ◌++◌}
use workflow_enterprise_comp.Json.{Fields, end}
use workflow_enterprise_comp.Client.{Request}
use workflow_enterprise_comp.Http.{DateRangeSpec}
use workflow_enterprise_comp.Entities.{Alert}
use workflow_enterprise_comp.Session.{AuthState, can}
use workflow_enterprise_comp.Toasts.{success}
use workflow_enterprise_comp.Paths.Perm.{Perm, route}
use workflow_enterprise_comp.Services.Alerts
use workflow_enterprise_comp.Pages.Common.{
  DateRangeValue, date_to_range, filter_field, note, Mutation, Act, call, ask_delete, when,
}

unfoldable pub date_range : DateRangeValue → Option DateRangeSpec
unfolding date_to_range
date_range = date_to_range "created_at"

unfoldable pub filters : String → String → String → Fields
unfolding filter_field
filters debounced_search status_filter severity_filter =
    filter_field "type" debounced_search
      (filter_field "status" status_filter (filter_field "severity" severity_filter end))

unfoldable pub acknowledge_mutation : Mutation String Alert
acknowledge_mutation = record {
  request = Alerts.acknowledge;
  success_note = λ x. note success "Alert acknowledged" none;
  failure = "Could not acknowledge alert";
}

unfoldable pub resolve_mutation : Mutation String Alert
resolve_mutation = record {
  request = Alerts.resolve;
  success_note = λ x. note success "Alert resolved" none;
  failure = "Could not resolve alert";
}

unfoldable pub remove_mutation : Mutation String (Unit {0})
remove_mutation = record {
  request = Alerts.remove;
  success_note = λ _. note success "Alert deleted" none;
  failure = "Could not delete alert";
}

-- The items of a row's menu.
unfoldable pub row_actions : AuthState → Alert → List Act
row_actions a alert =
    when (can a (route Perm.alerts_acknowledge) && str_eq alert.status "open")
      (call (Alerts.acknowledge alert.id))
    ++ (when (can a (route Perm.alerts_resolve) && not (str_eq alert.status "resolved"))
          (call (Alerts.resolve alert.id))
        ++ (when (can a (route Perm.alerts_delete)) ask_delete))

-- What confirming a deletion asks for.
unfoldable pub delete_request : Alert → Request
delete_request alert = Alerts.remove alert.id
