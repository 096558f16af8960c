-- ===== src/Backend/Accepts/AuditLogs.antt =====
-- The audit log page before the engine's checks.
use workflow_enterprise_comp.Prelude.{String, true, ◌≡◌, Option, none, some, refl, ℤ, arith, All}
use workflow_enterprise_comp.Http.{SortSpec}
use workflow_enterprise_comp.Constants.{lookup}
use workflow_enterprise_comp.Format.{Calendar}
use workflow_enterprise_comp.Table.{column_key}
use workflow_enterprise_comp.Backend.Request.{
  column_of, ordering_of, filter_conditions, range_conditions,
}
use workflow_enterprise_comp.Backend.Allowlists.{received, received_sort, audit_logs_columns}
use workflow_enterprise_comp.Backend.Accepts.{
  is_ok, offered, offered_elim, IsAllowed, filter_field-ok, filters-ok, range-ok, sort-ok,
}
use workflow_enterprise_comp.Observe.AuditLogs as Page
use workflow_enterprise_comp.Observe.AuditLogs.{ListState, columns, list_options}

sortable-IsAllowed :
    (c : Calendar)
    → All
        (λ col. col.column.sortable ≡ true → IsAllowed audit_logs_columns (column_key col.column))
        (columns c)
unfolding column_of lookup columns
sortable-IsAllowed c = (
  λ h. (refl, refl),
  (
    λ h. (refl, refl),
    (λ h. absurd (ground (arith, h)), (λ h. absurd (ground (arith, h)), (λ h. (refl, refl), tt))),
  ),
)

sort_accepted :
    (c : Calendar) (sort : Option SortSpec)
    → offered (columns c) sort ≡ true
    → is_ok (ordering_of audit_logs_columns (received_sort sort)) ≡ true
unfolding ordering_of column_of lookup
sort_accepted c none h = refl
sort_accepted c (some s) h =
    sort-ok audit_logs_columns s
      (offered_elim (IsAllowed audit_logs_columns) (columns c) s.column (sortable-IsAllowed c) h)

-- Whatever is typed and picked on the page of the audit log, where it is not sorted or sorted by a
-- column with a header to click, the engine finds the sort, every filter and the date range of the
-- request among the columns that the handler of the audit log allows.
pub audit_log_request-accepted :
    (c : Calendar) (parse : String → Option ℤ) (cursor : Option String)
    → (debounced_search : String) (s : ListState) → offered (columns c) s.sort ≡ true
    → (is_ok (
          ordering_of audit_logs_columns
            (received parse cursor (list_options debounced_search s)).sort)
        ≡ true)
      × (is_ok (
            filter_conditions audit_logs_columns
              (received parse cursor (list_options debounced_search s)).filters)
          ≡ true)
      × (is_ok (
            range_conditions audit_logs_columns
              (received parse cursor (list_options debounced_search s)).date_range)
          ≡ true)
unfolding received list_options Page.filters Page.date_range column_of lookup
audit_log_request-accepted c parse cursor d s h = (
  sort_accepted c s.sort h,
  filter_field-ok audit_logs_columns "actor_id" d _ (refl, refl)
      (filters-ok audit_logs_columns "action" "status" "entity_type" s.action_filter s.status_filter
        s.entity_filter (refl, refl) (refl, refl) (refl, refl)),
  range-ok audit_logs_columns parse "created_at" s.dates (refl, refl),
)
