-- ===== src/Pages/Screens/Reports.antt =====
-- The list of frontend/src/features/reports/pages/ReportsPage.tsx: the state of its toolbar and sort,
-- what it asks the list hook for, and the columns of its table.
use workflow_enterprise_comp.Prelude.{
  String, Bool, true, false, ◌||◌, Option, none, some, List, [], ◌∷◌, nonempty, truthy, ℤ,
  if◌then◌else◌,
}
use workflow_enterprise_comp.Http.{SortSpec}
use workflow_enterprise_comp.CursorList.Composed.{ListOptions}
use workflow_enterprise_comp.Constants.{status_meta, report_type_label}
use workflow_enterprise_comp.Format.{Calendar, relative_time, format_date_time}
use workflow_enterprise_comp.Entities.{Report}
use workflow_enterprise_comp.Pages.Common.{DateRangeValue}
use workflow_enterprise_comp.Pages.Cells.{
  PageColumn, col, md, lg, plain, code, badge, titled, meta_of, shown_text, id_prefix,
}
use workflow_enterprise_comp.Pages.Reports.{filters, date_range}

pub record ListState : Type 0 where
  pub search : String
  pub type_filter : String
  pub status_filter : String
  pub dates : DateRangeValue
  pub sort : Option SortSpec

abbrev pub initial : ListState
initial = record {
  search = "";
  type_filter = "";
  status_filter = "";
  dates = record { from = none; to = none };
  sort = none;
}

-- What the toolbar and the headers change.
pub data Edit : Type 0 where
  searched : String → Edit
  type_filter_picked : String → Edit
  status_filter_picked : String → Edit
  dated : DateRangeValue → Edit
  sorted : Option SortSpec → Edit
  cleared : Edit

unfoldable pub edit : Edit → ListState → ListState
edit (searched text) s = record s { search = text }
edit (type_filter_picked value) s = record s { type_filter = value }
edit (status_filter_picked value) s = record s { status_filter = value }
edit (dated value) s = record s { dates = value }
edit (sorted sort) s = record s { sort = sort }
edit cleared s = record s {
  search = "";
  type_filter = "";
  status_filter = "";
  dates = record { from = none; to = none };
}

-- The search that counts is the debounced one.
unfoldable pub list_options : String → ListState → ListOptions
unfolding filters date_range
list_options debounced_search s = record {
  limit = some 10;
  sort = s.sort;
  filters = some (filters debounced_search s.type_filter s.status_filter);
  date_range = date_range s.dates;
  include_summary = none;
}

unfoldable pub has_filters : String → ListState → Bool
has_filters debounced_search s =
    nonempty debounced_search
    || (nonempty s.type_filter
        || (nonempty s.status_filter || (truthy s.dates.from || truthy s.dates.to)))

unfoldable pub empty_text : Bool → String
empty_text filtered =
    if filtered
    then "Try adjusting or clearing the filters below."
    else "Generate a report to see compliance aggregates."

unfoldable pub columns : Calendar → ℤ → List (PageColumn Report)
columns c now =
    col "title" "Report" true none (λ r. titled r.title (shown_text r.description))
    ∷ col "type" "Type" true none (λ r. plain (report_type_label (some r.type)))
    ∷ col "status" "Status" true none (λ r. badge (meta_of status_meta r.status))
    ∷ col "compliance_id" "Compliance" false (some md) (λ r. code (id_prefix r.compliance_id))
    ∷ col "generated_at" "Generated" true (some lg) (λ r. plain (format_date_time c r.generated_at))
    ∷ col "updated_at" "Updated" false (some lg)
        (λ r. plain (relative_time c now (some r.updated_at)))
    ∷ []
