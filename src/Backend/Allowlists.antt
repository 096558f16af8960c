-- ===== src/Backend/Allowlists.antt =====
-- The columns that the handlers of backend/internal/modules let a list be searched and sorted by,
-- and a list request of the console as the engine takes it.
use workflow_enterprise_comp.Prelude.{String, true, Option, none, some, [], ◌∷◌, get_or, ℤ, pos}
use workflow_enterprise_comp.Json.{end}
use workflow_enterprise_comp.Http.{SortSpec, DateRangeSpec, direction_name}
use workflow_enterprise_comp.CursorList.Composed.{ListOptions}
use workflow_enterprise_comp.Backend.Request.{Columns, Sort, DateRange, Query}
use workflow_enterprise_comp.Pages.Catalogue.{
  Page, alerts, audits, checklists, compliances, corrective_actions, deadlines, regulations,
  reports, users, violations,
}

abbrev own : String → String × String
own name = (name, name)

abbrev pub alerts_columns : Columns
alerts_columns =
    own "type"
    ∷ own "status"
    ∷ own "severity"
    ∷ own "entity_type"
    ∷ own "entity_id"
    ∷ own "created_at"
    ∷ own "updated_at"
    ∷ []

abbrev pub audits_columns : Columns
audits_columns =
    own "title"
    ∷ own "status"
    ∷ own "compliance_id"
    ∷ own "auditor_id"
    ∷ own "scheduled_at"
    ∷ own "started_at"
    ∷ own "completed_at"
    ∷ own "created_at"
    ∷ own "updated_at"
    ∷ []

abbrev pub checklists_columns : Columns
checklists_columns =
    own "title"
    ∷ own "status"
    ∷ own "compliance_id"
    ∷ own "owner_id"
    ∷ own "due_date"
    ∷ own "created_at"
    ∷ own "updated_at"
    ∷ []

abbrev pub compliances_columns : Columns
compliances_columns =
    own "name"
    ∷ own "status"
    ∷ own "risk_level"
    ∷ own "owner_id"
    ∷ own "regulation_id"
    ∷ own "due_date"
    ∷ own "created_at"
    ∷ own "updated_at"
    ∷ []

abbrev pub corrective_actions_columns : Columns
corrective_actions_columns =
    own "title"
    ∷ own "status"
    ∷ own "violation_id"
    ∷ own "owner_id"
    ∷ own "due_date"
    ∷ own "created_at"
    ∷ own "updated_at"
    ∷ []

abbrev pub deadlines_columns : Columns
deadlines_columns =
    own "title"
    ∷ own "status"
    ∷ own "entity_type"
    ∷ own "entity_id"
    ∷ own "deadline_at"
    ∷ own "created_at"
    ∷ own "updated_at"
    ∷ []

abbrev pub regulations_columns : Columns
regulations_columns =
    own "title"
    ∷ own "code"
    ∷ own "jurisdiction"
    ∷ own "status"
    ∷ own "effective_date"
    ∷ own "expiry_date"
    ∷ own "created_at"
    ∷ own "updated_at"
    ∷ []

abbrev pub reports_columns : Columns
reports_columns =
    own "title"
    ∷ own "type"
    ∷ own "status"
    ∷ own "compliance_id"
    ∷ own "generated_at"
    ∷ own "created_at"
    ∷ own "updated_at"
    ∷ []

abbrev pub users_columns : Columns
users_columns =
    own "username"
    ∷ own "email"
    ∷ own "role_id"
    ∷ own "status"
    ∷ own "created_at"
    ∷ own "updated_at"
    ∷ []

abbrev pub violations_columns : Columns
violations_columns =
    own "title"
    ∷ own "status"
    ∷ own "severity"
    ∷ own "compliance_id"
    ∷ own "regulation_id"
    ∷ own "detected_at"
    ∷ own "resolved_at"
    ∷ own "created_at"
    ∷ own "updated_at"
    ∷ []

abbrev pub audit_logs_columns : Columns
audit_logs_columns =
    own "action"
    ∷ own "status"
    ∷ own "entity_type"
    ∷ own "entity_id"
    ∷ own "actor_id"
    ∷ own "ip"
    ∷ own "created_at"
    ∷ own "updated_at"
    ∷ []

abbrev pub search_columns : Page → Columns
search_columns alerts = alerts_columns
search_columns audits = audits_columns
search_columns checklists = checklists_columns
search_columns compliances = compliances_columns
search_columns corrective_actions = corrective_actions_columns
search_columns deadlines = deadlines_columns
search_columns regulations = regulations_columns
search_columns reports = reports_columns
search_columns users = users_columns
search_columns violations = violations_columns

-- The fields of a list request as the engine reads them: what is left out is the zero value of its
-- type. The times of a date range are parsed on the way; a day's first and last moment are times.
abbrev pub received_sort : Option SortSpec → Option Sort
received_sort none = none
received_sort (some s) = some (record { column = s.column; direction = direction_name s.direction })

abbrev flat : Option (Option String) → Option String
flat none = none
flat (some o) = o

abbrev parsed : (String → Option ℤ) → Option String → Option ℤ
parsed parse none = none
parsed parse (some t) = parse t

abbrev pub received_range : (String → Option ℤ) → Option DateRangeSpec → Option DateRange
received_range parse none = none
received_range parse (some r) = some (record {
  range_field = get_or r.range_field "";
  from = parsed parse (flat r.from);
  to = parsed parse (flat r.to);
})

unfoldable pub received : (String → Option ℤ) → Option String → ListOptions → Query
received parse cursor opts = record {
  cursor = get_or cursor "";
  limit = pos (get_or opts.limit 10);
  sort = received_sort opts.sort;
  filters = get_or opts.filters end;
  date_range = received_range parse opts.date_range;
  include_summary = get_or opts.include_summary true;
}
