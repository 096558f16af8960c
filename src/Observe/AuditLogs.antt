-- ===== src/Observe/AuditLogs.antt =====
-- The page of frontend/src/features/auditlogs/pages/AuditLogsPage.tsx.
use workflow_enterprise_comp.Prelude.{
  zero, suc, String, Bool, true, false, ◌||◌, Option, none, some, List, [], ◌∷◌, nonempty, truthy,
  or_else, str_eq, if◌then◌else◌, ◌+s◌,
}
use workflow_enterprise_comp.Json.{Json, Fields, end, null, str}
use workflow_enterprise_comp.Http.{SortSpec, DateRangeSpec}
use workflow_enterprise_comp.CursorList.Composed.{ListOptions}
use workflow_enterprise_comp.Constants.{Tone, neutral, info, danger, entity_label}
use workflow_enterprise_comp.Format.{Calendar, format_date_time, short_id}
use workflow_enterprise_comp.Entities.{AuditLog}
use workflow_enterprise_comp.Pages.Common.{DateRangeValue, date_to_range, filter_field}
use workflow_enterprise_comp.Pages.Cells.{PageColumn, col, lg, plain, code, badge, linked}

abbrev pub actions : List String
actions =
    "login" ∷ "logout" ∷ "create" ∷ "update" ∷ "delete" ∷ "check" ∷ "acknowledge" ∷ "resolve" ∷ []

unfoldable pub date_range : DateRangeValue → Option DateRangeSpec
unfolding date_to_range
date_range = date_to_range "created_at"

pub record ListState : Type 0 where
  pub search : String
  pub action_filter : String
  pub status_filter : String
  pub entity_filter : String
  pub dates : DateRangeValue
  pub sort : Option SortSpec

abbrev pub initial : ListState
initial = record {
  search = "";
  action_filter = "";
  status_filter = "";
  entity_filter = "";
  dates = record { from = none; to = none };
  sort = none;
}

unfoldable pub filters : String → String → String → String → Fields
unfolding filter_field
filters debounced_search action_filter status_filter entity_filter =
    filter_field "actor_id" debounced_search (
      filter_field "action" action_filter
        (filter_field "status" status_filter (filter_field "entity_type" entity_filter end)))

unfoldable pub list_options : String → ListState → ListOptions
unfolding filters date_range
list_options debounced_search s = record {
  limit = some 15;
  sort = s.sort;
  filters = some (filters debounced_search s.action_filter s.status_filter s.entity_filter);
  date_range = date_range s.dates;
  include_summary = none;
}

unfoldable pub has_filters : String → ListState → Bool
has_filters debounced_search s =
    nonempty debounced_search
    || (nonempty s.action_filter
        || (nonempty s.status_filter
            || (nonempty s.entity_filter || (truthy s.dates.from || truthy s.dates.to))))

unfoldable pub clear : ListState → ListState
clear s = record initial { sort = s.sort }

-- The tone of an action: logging in and out is marked by its outcome, other actions by failure.
unfoldable pub tone_of : String → String → Tone
tone_of action status =
    if str_eq action "login" || str_eq action "logout"
    then if str_eq status "success" then info else danger
    else if str_eq status "failure"
    then danger
    else neutral

-- `shortId(l.actor_id) || "system"`.
unfoldable pub actor_text : Option String → String
actor_text actor_id = or_else (some (short_id actor_id)) "system"

unfoldable pub columns : Calendar → List (PageColumn AuditLog)
unfolding tone_of actor_text
columns c =
    col "action" "Action" true none
      (λ l. badge (record { label = l.action; tone = tone_of l.action l.status }))
    ∷ col "entity_type" "Entity" true none
        (λ l. plain (entity_label l.entity_type +s linked (λ id. short_id (some id)) l.entity_id))
    ∷ col "actor_id" "Actor" false none (λ l. code (actor_text l.actor_id))
    ∷ col "ip" "IP" false (some lg) (λ l. code (or_else l.ip "—"))
    ∷ col "created_at" "When" true none (λ l. plain (format_date_time c (some l.created_at)))
    ∷ []

-- `Boolean(v)` of a payload: null, false, zero and the empty text are no details.
unfoldable pub truthy_json : Option Json → Bool
truthy_json none = false
truthy_json (some null) = false
truthy_json (some (Json.bool b)) = b
truthy_json (some (Json.num zero)) = false
truthy_json (some (Json.num (suc n))) = true
truthy_json (some (str s)) = nonempty s
truthy_json (some (Json.arr xs)) = true
truthy_json (some (Json.obj fs)) = true

-- Whether an entry can be expanded.
unfoldable pub has_details : AuditLog → Bool
unfolding truthy_json
has_details l = truthy_json l.changes || (truthy_json l.before_data || truthy_json l.after_data)

-- What a block of an expanded entry shows; printing JSON is the platform's.
unfoldable pub change_block : (Json → String) → Option Json → Option String
change_block print none = none
change_block print (some null) = none
change_block print (some (str s)) = some s
change_block print (some v) = some (print v)

abbrev metadata_block : (Json → String) → Option Json → List (String × Option String)
metadata_block print v = if truthy_json v then ("Metadata", change_block print v) ∷ [] else []

-- The blocks of an expanded entry.
unfoldable pub details : (Json → String) → AuditLog → List (String × Option String)
unfolding change_block
details print l =
    ("Changes", change_block print l.changes)
    ∷ ("Before", change_block print l.before_data)
    ∷ ("After", change_block print l.after_data)
    ∷ metadata_block print l.metadata
