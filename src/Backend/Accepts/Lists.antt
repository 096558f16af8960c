-- ===== src/Backend/Accepts/Lists.antt =====
-- The lists of the console side by side with the engine's allowlists.
use workflow_enterprise_comp.Prelude.{
  String, true, ◌≡◌, Option, none, some, List, refl, ap, ◌∙◌, ℕ, get_or, ℤ, arith, All,
}
use workflow_enterprise_comp.Http.{SortSpec}
use workflow_enterprise_comp.Entities.{Role}
use workflow_enterprise_comp.Format.{Calendar}
use workflow_enterprise_comp.Constants.{lookup}
use workflow_enterprise_comp.Table.{column_key}
use workflow_enterprise_comp.Json.{end}
use workflow_enterprise_comp.Backend.Request.{
  Query, column_of, ordering_of, filter_conditions, range_conditions,
}
use workflow_enterprise_comp.Backend.Allowlists.{
  received, received_sort, received_range, search_columns,
}
use workflow_enterprise_comp.Backend.Accepts.{
  is_ok, offered, offered_elim, IsAllowed, filters-ok, range-ok, sort-ok,
}
use workflow_enterprise_comp.Backend.Accepts.Clicks.{after_clicks, after_clicks-offered}
use workflow_enterprise_comp.Pages.Cells.{PageColumn}
use workflow_enterprise_comp.Pages.Catalogue.{
  Page, Row, alerts, audits, checklists, compliances, corrective_actions, deadlines, regulations,
  reports, users, violations,
}
use workflow_enterprise_comp.Pages.Alerts as AlertsPage
use workflow_enterprise_comp.Pages.Screens.Alerts
use workflow_enterprise_comp.Pages.Audits as AuditsPage
use workflow_enterprise_comp.Pages.Screens.Audits
use workflow_enterprise_comp.Pages.Checklists as ChecklistsPage
use workflow_enterprise_comp.Pages.Screens.Checklists
use workflow_enterprise_comp.Pages.Compliances as CompliancesPage
use workflow_enterprise_comp.Pages.Screens.Compliances
use workflow_enterprise_comp.Pages.CorrectiveActions as CorrectiveActionsPage
use workflow_enterprise_comp.Pages.Screens.CorrectiveActions
use workflow_enterprise_comp.Pages.Deadlines as DeadlinesPage
use workflow_enterprise_comp.Pages.Screens.Deadlines
use workflow_enterprise_comp.Pages.Regulations as RegulationsPage
use workflow_enterprise_comp.Pages.Screens.Regulations
use workflow_enterprise_comp.Pages.Reports as ReportsPage
use workflow_enterprise_comp.Pages.Screens.Reports
use workflow_enterprise_comp.Pages.Users as UsersPage
use workflow_enterprise_comp.Pages.Screens.Users
use workflow_enterprise_comp.Pages.Violations as ViolationsPage
use workflow_enterprise_comp.Pages.Screens.Violations
use workflow_enterprise_comp.Pages.Screens.Catalogue.{
  State, options, columns, sort_of, sort_by, edit,
}

-- Every column that a page can be sorted by is one that the engine allows.
abbrev SortsAllowed : Page → List Role → Calendar → ℤ → Type 0
SortsAllowed p roles c now =
    All
      (λ (col : PageColumn (Row p)).
        col.column.sortable ≡ true → IsAllowed (search_columns p) (column_key col.column))
      (columns p roles c now)

sortable-SortsAllowed :
    (p : Page) (roles : List Role) (c : Calendar) (now : ℤ) → SortsAllowed p roles c now
unfolding column_of lookup Alerts.columns Audits.columns Checklists.columns Compliances.columns
    CorrectiveActions.columns Deadlines.columns Regulations.columns Reports.columns Users.columns
    Violations.columns
sortable-SortsAllowed alerts roles c now = (
  λ h. absurd (ground (arith, h)),
  (
    λ h. (refl, refl),
    (λ h. (refl, refl), (λ h. absurd (ground (arith, h)), (λ h. (refl, refl), tt))),
  ),
)
sortable-SortsAllowed audits roles c now = (
  λ h. (refl, refl),
  (
    λ h. (refl, refl),
    (
      λ h. absurd (ground (arith, h)),
      (λ h. absurd (ground (arith, h)), (λ h. (refl, refl), (λ h. absurd (ground (arith, h)), tt))),
    ),
  ),
)
sortable-SortsAllowed checklists roles c now = (
  λ h. (refl, refl),
  (
    λ h. (refl, refl),
    (
      λ h. absurd (ground (arith, h)),
      (λ h. absurd (ground (arith, h)), (λ h. (refl, refl), (λ h. absurd (ground (arith, h)), tt))),
    ),
  ),
)
sortable-SortsAllowed compliances roles c now = (
  λ h. (refl, refl),
  (
    λ h. (refl, refl),
    (λ h. (refl, refl), (λ h. (refl, refl), (λ h. absurd (ground (arith, h)), tt))),
  ),
)
sortable-SortsAllowed corrective_actions roles c now = (
  λ h. (refl, refl),
  (
    λ h. (refl, refl),
    (
      λ h. absurd (ground (arith, h)),
      (λ h. absurd (ground (arith, h)), (λ h. (refl, refl), (λ h. absurd (ground (arith, h)), tt))),
    ),
  ),
)
sortable-SortsAllowed deadlines roles c now = (
  λ h. (refl, refl),
  (
    λ h. (refl, refl),
    (λ h. (refl, refl), (λ h. absurd (ground (arith, h)), (λ h. absurd (ground (arith, h)), tt))),
  ),
)
sortable-SortsAllowed regulations roles c now = (
  λ h. (refl, refl),
  (
    λ h. (refl, refl),
    (
      λ h. (refl, refl),
      (λ h. (refl, refl), (λ h. (refl, refl), (λ h. absurd (ground (arith, h)), tt))),
    ),
  ),
)
sortable-SortsAllowed reports roles c now = (
  λ h. (refl, refl),
  (
    λ h. (refl, refl),
    (
      λ h. (refl, refl),
      (λ h. absurd (ground (arith, h)), (λ h. (refl, refl), (λ h. absurd (ground (arith, h)), tt))),
    ),
  ),
)
sortable-SortsAllowed users roles c now = (
  λ h. (refl, refl),
  (
    λ h. (refl, refl),
    (λ h. (refl, refl), (λ h. absurd (ground (arith, h)), (λ h. (refl, refl), tt))),
  ),
)
sortable-SortsAllowed violations roles c now = (
  λ h. (refl, refl),
  (
    λ h. (refl, refl),
    (λ h. (refl, refl), (λ h. (refl, refl), (λ h. absurd (ground (arith, h)), tt))),
  ),
)

unsorted_accepted : (p : Page) → is_ok (ordering_of (search_columns p) none) ≡ true
unfolding ordering_of column_of lookup
unsorted_accepted alerts = refl
unsorted_accepted audits = refl
unsorted_accepted checklists = refl
unsorted_accepted compliances = refl
unsorted_accepted corrective_actions = refl
unsorted_accepted deadlines = refl
unsorted_accepted regulations = refl
unsorted_accepted reports = refl
unsorted_accepted users = refl
unsorted_accepted violations = refl

sort_accepted :
    (p : Page) (roles : List Role) (c : Calendar) (now : ℤ) (sort : Option SortSpec)
    → offered (columns p roles c now) sort ≡ true
    → is_ok (ordering_of (search_columns p) (received_sort sort)) ≡ true
sort_accepted p roles c now none h = unsorted_accepted p
sort_accepted p roles c now (some s) h = sort-ok (search_columns p) s (
    offered_elim (IsAllowed (search_columns p)) (columns p roles c now) s.column
      (sortable-SortsAllowed p roles c now) h)

filters_accepted :
    (p : Page) (debounced_search : String) (s : State p)
    → is_ok
        (filter_conditions (search_columns p) (get_or (options p debounced_search s).filters end))
      ≡ true
unfolding column_of lookup Alerts.list_options AlertsPage.filters Audits.list_options
    AuditsPage.filters Checklists.list_options ChecklistsPage.filters Compliances.list_options
    CompliancesPage.filters CorrectiveActions.list_options CorrectiveActionsPage.filters
    Deadlines.list_options DeadlinesPage.filters Regulations.list_options RegulationsPage.filters
    Reports.list_options ReportsPage.filters Users.list_options UsersPage.filters
    Violations.list_options ViolationsPage.filters
filters_accepted alerts d s =
    filters-ok (search_columns alerts) "type" "status" "severity" d s.status_filter
      s.severity_filter (refl, refl) (refl, refl) (refl, refl)
filters_accepted audits d s =
    filters-ok (search_columns audits) "title" "status" "compliance_id" d s.status_filter
      s.compliance_filter (refl, refl) (refl, refl) (refl, refl)
filters_accepted checklists d s =
    filters-ok (search_columns checklists) "title" "status" "compliance_id" d s.status_filter
      s.compliance_filter (refl, refl) (refl, refl) (refl, refl)
filters_accepted compliances d s =
    filters-ok (search_columns compliances) "name" "status" "risk_level" d s.status_filter
      s.risk_filter (refl, refl) (refl, refl) (refl, refl)
filters_accepted corrective_actions d s =
    filters-ok (search_columns corrective_actions) "title" "status" "violation_id" d s.status_filter
      s.violation_filter (refl, refl) (refl, refl) (refl, refl)
filters_accepted deadlines d s =
    filters-ok (search_columns deadlines) "title" "status" "entity_type" d s.status_filter
      s.entity_filter (refl, refl) (refl, refl) (refl, refl)
filters_accepted regulations d s =
    filters-ok (search_columns regulations) "title" "status" "jurisdiction" d s.status_filter
      s.jurisdiction_filter (refl, refl) (refl, refl) (refl, refl)
filters_accepted reports d s =
    filters-ok (search_columns reports) "title" "type" "status" d s.type_filter s.status_filter
      (refl, refl) (refl, refl) (refl, refl)
filters_accepted users d s =
    filters-ok (search_columns users) "username" "status" "role_id" d s.status_filter s.role_filter
      (refl, refl) (refl, refl) (refl, refl)
filters_accepted violations d s =
    filters-ok (search_columns violations) "title" "status" "severity" d s.status_filter
      s.severity_filter (refl, refl) (refl, refl) (refl, refl)

range_accepted :
    (p : Page) (parse : String → Option ℤ) (debounced_search : String) (s : State p)
    → is_ok (
        range_conditions
          (search_columns p)
          (received_range parse (options p debounced_search s).date_range))
      ≡ true
unfolding column_of lookup Alerts.list_options AlertsPage.date_range Audits.list_options
    AuditsPage.date_range Checklists.list_options ChecklistsPage.date_range Compliances.list_options
    CompliancesPage.date_range CorrectiveActions.list_options CorrectiveActionsPage.date_range
    Deadlines.list_options DeadlinesPage.date_range Regulations.list_options
    RegulationsPage.date_range Reports.list_options ReportsPage.date_range Users.list_options
    UsersPage.date_range Violations.list_options ViolationsPage.date_range
range_accepted alerts parse d s =
    range-ok (search_columns alerts) parse "created_at" s.dates (refl, refl)
range_accepted audits parse d s =
    range-ok (search_columns audits) parse "scheduled_at" s.dates (refl, refl)
range_accepted checklists parse d s =
    range-ok (search_columns checklists) parse "created_at" s.dates (refl, refl)
range_accepted compliances parse d s =
    range-ok (search_columns compliances) parse "created_at" s.dates (refl, refl)
range_accepted corrective_actions parse d s =
    range-ok (search_columns corrective_actions) parse "created_at" s.dates (refl, refl)
range_accepted deadlines parse d s =
    range-ok (search_columns deadlines) parse "deadline_at" s.dates (refl, refl)
range_accepted regulations parse d s =
    range-ok (search_columns regulations) parse "effective_date" s.dates (refl, refl)
range_accepted reports parse d s =
    range-ok (search_columns reports) parse "generated_at" s.dates (refl, refl)
range_accepted users parse d s =
    range-ok (search_columns users) parse "created_at" s.dates (refl, refl)
range_accepted violations parse d s =
    range-ok (search_columns violations) parse "detected_at" s.dates (refl, refl)

list_request-offered :
    (p : Page) (roles : List Role) (c : Calendar) (now : ℤ) (parse : String → Option ℤ)
    → (cursor : Option String) (debounced_search : String) (s : State p)
    → offered (columns p roles c now) (sort_of p s) ≡ true
    → (is_ok (
          ordering_of
            (search_columns p)
            (received parse cursor (options p debounced_search s)).sort)
        ≡ true)
      × (is_ok (
            filter_conditions
              (search_columns p)
              (received parse cursor (options p debounced_search s)).filters)
          ≡ true)
      × (is_ok (
            range_conditions
              (search_columns p)
              (received parse cursor (options p debounced_search s)).date_range)
          ≡ true)
unfolding received Alerts.list_options Audits.list_options Checklists.list_options
    Compliances.list_options CorrectiveActions.list_options Deadlines.list_options
    Regulations.list_options Reports.list_options Users.list_options Violations.list_options
list_request-offered alerts roles c now parse cursor d s h = (
  sort_accepted alerts roles c now s.sort h,
  filters_accepted alerts d s,
  range_accepted alerts parse d s,
)
list_request-offered audits roles c now parse cursor d s h = (
  sort_accepted audits roles c now s.sort h,
  filters_accepted audits d s,
  range_accepted audits parse d s,
)
list_request-offered checklists roles c now parse cursor d s h = (
  sort_accepted checklists roles c now s.sort h,
  filters_accepted checklists d s,
  range_accepted checklists parse d s,
)
list_request-offered compliances roles c now parse cursor d s h = (
  sort_accepted compliances roles c now s.sort h,
  filters_accepted compliances d s,
  range_accepted compliances parse d s,
)
list_request-offered corrective_actions roles c now parse cursor d s h = (
  sort_accepted corrective_actions roles c now s.sort h,
  filters_accepted corrective_actions d s,
  range_accepted corrective_actions parse d s,
)
list_request-offered deadlines roles c now parse cursor d s h = (
  sort_accepted deadlines roles c now s.sort h,
  filters_accepted deadlines d s,
  range_accepted deadlines parse d s,
)
list_request-offered regulations roles c now parse cursor d s h = (
  sort_accepted regulations roles c now s.sort h,
  filters_accepted regulations d s,
  range_accepted regulations parse d s,
)
list_request-offered reports roles c now parse cursor d s h = (
  sort_accepted reports roles c now s.sort h,
  filters_accepted reports d s,
  range_accepted reports parse d s,
)
list_request-offered users roles c now parse cursor d s h = (
  sort_accepted users roles c now s.sort h,
  filters_accepted users d s,
  range_accepted users parse d s,
)
list_request-offered violations roles c now parse cursor d s h = (
  sort_accepted violations roles c now s.sort h,
  filters_accepted violations d s,
  range_accepted violations parse d s,
)

sort_of-edit :
    (p : Page) (sort : Option SortSpec) (s : State p) → sort_of p (edit p (sort_by p sort) s) ≡ sort
unfolding Alerts.edit Audits.edit Checklists.edit Compliances.edit CorrectiveActions.edit
    Deadlines.edit Regulations.edit Reports.edit Users.edit Violations.edit
sort_of-edit alerts sort s = refl
sort_of-edit audits sort s = refl
sort_of-edit checklists sort s = refl
sort_of-edit compliances sort s = refl
sort_of-edit corrective_actions sort s = refl
sort_of-edit deadlines sort s = refl
sort_of-edit regulations sort s = refl
sort_of-edit reports sort s = refl
sort_of-edit users sort s = refl
sort_of-edit violations sort s = refl

-- The state of a page after clicks on the headers of its table, and its request as received.
abbrev pub clicked : (p : Page) → List Role → Calendar → ℤ → List ℕ → State p → State p
clicked p roles c now clicks s = edit p (sort_by p (after_clicks (columns p roles c now) clicks)) s

abbrev pub clicked_query :
    (p : Page)
    → List Role
    → Calendar
    → ℤ
    → (String → Option ℤ)
    → Option String
    → String
    → State p
    → List ℕ
    → Query
clicked_query p roles c now parse cursor d s clicks =
    received parse cursor (options p d (clicked p roles c now clicks s))

-- Whatever is typed and picked on one of the ten list pages, and whichever headers of its table are
-- clicked, the engine finds the sort, every filter and the date range of the request among the
-- columns that the handler of the page's list allows.
pub list_request-accepted :
    (p : Page) (roles : List Role) (c : Calendar) (now : ℤ) (parse : String → Option ℤ)
    → (cursor : Option String) (debounced_search : String) (s : State p) (clicks : List ℕ)
    → (is_ok (
          ordering_of
            (search_columns p)
            (clicked_query p roles c now parse cursor debounced_search s clicks).sort)
        ≡ true)
      × (is_ok (
            filter_conditions
              (search_columns p)
              (clicked_query p roles c now parse cursor debounced_search s clicks).filters)
          ≡ true)
      × (is_ok (
            range_conditions
              (search_columns p)
              (clicked_query p roles c now parse cursor debounced_search s clicks).date_range)
          ≡ true)
list_request-accepted p roles c now parse cursor d s clicks =
    list_request-offered p roles c now parse cursor d (clicked p roles c now clicks s) (
      ap (offered (columns p roles c now))
        (sort_of-edit p (after_clicks (columns p roles c now) clicks) s)
      ∙ after_clicks-offered (columns p roles c now) clicks)
