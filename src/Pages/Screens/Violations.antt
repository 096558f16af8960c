-- ===== src/Pages/Screens/Violations.antt =====
-- The list of frontend/src/features/violations/pages/ViolationsPage.tsx: the state of its toolbar and sort,
-- what it asks the list hook for, and the columns of its table.
use workflow_enterprise_comp.Prelude.{
  String, Bool, true, false, ◌||◌, Option, none, some, List, [], ◌∷◌, nonempty, truthy, ℤ,
  if◌then◌else◌,
}
use workflow_enterprise_comp.Http.{SortSpec}
use workflow_enterprise_comp.CursorList.Composed.{ListOptions}
use workflow_enterprise_comp.Constants.{status_meta, severity_meta}
use workflow_enterprise_comp.Format.{Calendar, relative_time, format_date}
use workflow_enterprise_comp.Entities.{Violation}
use workflow_enterprise_comp.Session.{AuthState, can}
use workflow_enterprise_comp.Paths.Perm.{Perm, route}
use workflow_enterprise_comp.Pages.Common.{DateRangeValue}
use workflow_enterprise_comp.Pages.Cells.{
  PageColumn, col, md, lg, plain, badge, titled, meta_of, shown_text,
}
use workflow_enterprise_comp.Pages.Violations.{filters, date_range}

pub record ListState : Type 0 where
  pub search : String
  pub status_filter : String
  pub severity_filter : String
  pub dates : DateRangeValue
  pub sort : Option SortSpec

abbrev pub initial : ListState
initial = record {
  search = "";
  status_filter = "";
  severity_filter = "";
  dates = record { from = none; to = none };
  sort = none;
}

-- What the toolbar and the headers change.
pub data Edit : Type 0 where
  searched : String → Edit
  status_filter_picked : String → Edit
  severity_filter_picked : String → Edit
  dated : DateRangeValue → Edit
  sorted : Option SortSpec → Edit
  cleared : Edit

unfoldable pub edit : Edit → ListState → ListState
edit (searched text) s = record s { search = text }
edit (status_filter_picked value) s = record s { status_filter = value }
edit (severity_filter_picked value) s = record s { severity_filter = value }
edit (dated value) s = record s { dates = value }
edit (sorted sort) s = record s { sort = sort }
edit cleared s = record s {
  search = "";
  status_filter = "";
  severity_filter = "";
  dates = record { from = none; to = none };
}

-- The search that counts is the debounced one.
unfoldable pub list_options : String → ListState → ListOptions
unfolding filters date_range
list_options debounced_search s = record {
  limit = some 10;
  sort = s.sort;
  filters = some (filters debounced_search s.status_filter s.severity_filter);
  date_range = date_range s.dates;
  include_summary = none;
}

unfoldable pub has_filters : String → ListState → Bool
has_filters debounced_search s =
    nonempty debounced_search
    || (nonempty s.status_filter
        || (nonempty s.severity_filter || (truthy s.dates.from || truthy s.dates.to)))

unfoldable pub empty_text : Bool → String
empty_text filtered =
    if filtered
    then "Try adjusting or clearing the filters below."
    else "Violations raised by the compliance engine will appear here."

-- Whether a row has a menu.
unfoldable pub any_action : AuthState → Bool
any_action s =
    can s (route Perm.violations_update)
    || can s (route Perm.violations_delete)
    || can s (route Perm.violations_resolve)

unfoldable pub columns : Calendar → ℤ → List (PageColumn Violation)
columns c now =
    col "title" "Violation" true none (λ x. titled x.title (shown_text x.description))
    ∷ col "severity" "Severity" true none (λ x. badge (meta_of severity_meta x.severity))
    ∷ col "status" "Status" true none (λ x. badge (meta_of status_meta x.status))
    ∷ col "detected_at" "Detected" true (some md) (λ x. plain (format_date c x.detected_at))
    ∷ col "updated_at" "Updated" false (some lg)
        (λ x. plain (relative_time c now (some x.updated_at)))
    ∷ []
