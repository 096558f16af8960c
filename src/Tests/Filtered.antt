-- ===== src/Tests/Filtered.antt =====
-- The lists of the pages on concrete toolbars, the shared pieces of the interface, and the pages that
-- watch.
use workflow_enterprise_comp.Prelude.{
  String, true, false, ◌≡◌, ◌↔◌, none, some, List, [], ◌∷◌, refl, pos, arith,
}
use workflow_enterprise_comp.Constants.{status_meta}
use workflow_enterprise_comp.Entities.{Alert, CountPair}
use workflow_enterprise_comp.Session.{AuthState, AuthStatus, can, has_code}
use workflow_enterprise_comp.Pages.Catalogue.{menu}
use workflow_enterprise_comp.Pages.Screens.Alerts.{any_action}
use workflow_enterprise_comp.Pages.Screens.Menus.{hidden_menu-empty}
use workflow_enterprise_comp.Routing.{follow, is_redirect, me_loaded}
use workflow_enterprise_comp.Routing.Settling.{follow-ends}
use workflow_enterprise_comp.Ui.Debounce.{Debounced, mount, change, wait, wait-change}
use workflow_enterprise_comp.Observe.Notifications
use workflow_enterprise_comp.Observe.Notifications.{Form, entity_type_picked, entity_picked}
use workflow_enterprise_comp.Observe.Notifications.Sending.{run, run-picks}
use workflow_enterprise_comp.Options.{entity_type_to_option}
use workflow_enterprise_comp.Observe.Dashboard.{Group, parse_summary, raw_groups}
use workflow_enterprise_comp.Http.{desc}
use workflow_enterprise_comp.Json
use workflow_enterprise_comp.Json.{Fields, end, field, obj, num}
use workflow_enterprise_comp.Format.{Calendar}
use workflow_enterprise_comp.Backend.Request.{
  Query, ordering_of, filter_conditions, range_conditions,
}
use workflow_enterprise_comp.Backend.Allowlists.{alerts_columns}
use workflow_enterprise_comp.Backend.Accepts.{is_ok}
use workflow_enterprise_comp.Backend.Accepts.Lists.{list_request-accepted, clicked_query}
use workflow_enterprise_comp.Pages.Catalogue.{alerts}
use workflow_enterprise_comp.Pages.Screens.Alerts.{ListState, initial, has_filters, list_options}
use workflow_enterprise_comp.Pages.Screens.Filtering.{filtered_iff}

abbrev calendar : Calendar
calendar = record {
  read = λ iso. none;
  date = λ d. "";
  date_time = λ d. "";
  time = λ d. "";
  day = λ d. "";
}

abbrev by_status : ListState
by_status = record initial {
  status_filter = "open";
  sort = some (record { column = "status"; direction = desc });
}

abbrev by_clicks : Query
by_clicks = clicked_query alerts [] calendar (pos 0) (λ s. none) none "x" by_status (1 ∷ 2 ∷ [])

list_request-accepted_example :
    (is_ok (ordering_of alerts_columns by_clicks.sort) ≡ true)
    × (is_ok (filter_conditions alerts_columns by_clicks.filters) ≡ true)
    × (is_ok (range_conditions alerts_columns by_clicks.date_range) ≡ true)
list_request-accepted_example =
    list_request-accepted alerts [] calendar (pos 0) (λ s. none) none "x" by_status (1 ∷ 2 ∷ [])

filtered_iff_example :
    (has_filters "" by_status ≡ false)
    ↔ ((list_options "" by_status).filters ≡ some end)
      × ((list_options "" by_status).date_range ≡ none)
filtered_iff_example = filtered_iff alerts "" by_status

abbrev nobody : AuthState
nobody = record {
  token = none;
  user = none;
  role = none;
  permissions = [];
  status = AuthStatus.unauthenticated;
}

abbrev an_alert : Alert
an_alert = record {
  id = "a";
  created_at = "";
  updated_at = "";
  type = "risk";
  title = "Risk";
  message = none;
  severity = "low";
  status = "open";
  entity_type = none;
  entity_id = none;
  acknowledged_by = none;
  resolved_at = none;
}

hidden_menu-empty_example : menu alerts nobody an_alert ≡ []
unfolding any_action can has_code
hidden_menu-empty_example = hidden_menu-empty alerts nobody an_alert refl

abbrev typed : Debounced String
typed = wait 350 (change 350 "ab" (mount 350 "a"))

wait-change_example : typed.debounced ≡ "ab"
wait-change_example = wait-change 350 350 "ab" (mount 350 "a") (omega arith) (omega arith)

abbrev type_changed : Form
type_changed =
    run
      (entity_type_picked "audit"
        ∷ entity_picked "a1"
        ∷ entity_type_picked "violation"
        ∷ entity_picked "v1"
        ∷ [])
      Notifications.initial

run-picks_example : (type_changed.entity_type ≡ "violation") × (type_changed.entity_id ≡ "v1")
unfolding entity_type_to_option
run-picks_example =
    run-picks (entity_type_picked "audit" ∷ entity_picked "a1" ∷ []) (entity_picked "v1" ∷ [])
      "violation" Notifications.initial (tt, tt)

abbrev bars_of_two : List CountPair
bars_of_two = record { key = "open"; count = 3 } ∷ record { key = "closed"; count = 0 } ∷ []

abbrev summary_fields : Fields
summary_fields =
    field "by_status"
      (obj (field "open" (num 1) (field "resolved" (num 2) (field "closed" (num 1) end)))) end

abbrev shown_groups : List Group
shown_groups = (parse_summary (some summary_fields) "by_status" status_meta).groups

abbrev held_groups : List Group
held_groups = raw_groups status_meta (Json.get "by_status" summary_fields)

follow-ends_example : is_redirect (follow 2 nobody me_loaded ("app" ∷ "nowhere" ∷ [])) ≡ false
follow-ends_example = follow-ends nobody me_loaded ("app" ∷ "nowhere" ∷ [])
