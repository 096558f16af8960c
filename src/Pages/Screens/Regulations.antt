-- ===== src/Pages/Screens/Regulations.antt =====
-- The list of frontend/src/features/regulations/pages/RegulationsPage.tsx: the state of its toolbar and sort,
-- what it asks the list hook for, and the columns of its table.
use workflow_enterprise_comp.Prelude.{
  String, Bool, true, false, ◌||◌, Option, none, some, List, [], ◌∷◌, nonempty, truthy, or_else, ℤ,
  if◌then◌else◌,
}
use workflow_enterprise_comp.Http.{SortSpec}
use workflow_enterprise_comp.CursorList.Composed.{ListOptions}
use workflow_enterprise_comp.Constants.{status_meta}
use workflow_enterprise_comp.Format.{Calendar, relative_time, format_date}
use workflow_enterprise_comp.Entities.{Regulation}
use workflow_enterprise_comp.Session.{AuthState, can}
use workflow_enterprise_comp.Paths.Perm.{Perm, route}
use workflow_enterprise_comp.Pages.Common.{DateRangeValue}
use workflow_enterprise_comp.Pages.Cells.{
  PageColumn, col, md, lg, plain, code, badge, titled, meta_of, shown_text,
}
use workflow_enterprise_comp.Pages.Regulations.{filters, date_range}

pub record ListState : Type 0 where
  pub search : String
  pub status_filter : String
  pub jurisdiction_filter : String
  pub dates : DateRangeValue
  pub sort : Option SortSpec

abbrev pub initial : ListState
initial = record {
  search = "";
  status_filter = "";
  jurisdiction_filter = "";
  dates = record { from = none; to = none };
  sort = none;
}

-- What the toolbar and the headers change.
pub data Edit : Type 0 where
  searched : String → Edit
  status_filter_picked : String → Edit
  jurisdiction_filter_picked : String → Edit
  dated : DateRangeValue → Edit
  sorted : Option SortSpec → Edit
  cleared : Edit

unfoldable pub edit : Edit → ListState → ListState
edit (searched text) s = record s { search = text }
edit (status_filter_picked value) s = record s { status_filter = value }
edit (jurisdiction_filter_picked value) s = record s { jurisdiction_filter = value }
edit (dated value) s = record s { dates = value }
edit (sorted sort) s = record s { sort = sort }
edit cleared s = record s {
  search = "";
  status_filter = "";
  jurisdiction_filter = "";
  dates = record { from = none; to = none };
}

-- The search that counts is the debounced one.
unfoldable pub list_options : String → ListState → ListOptions
unfolding filters date_range
list_options debounced_search s = record {
  limit = some 10;
  sort = s.sort;
  filters = some (filters debounced_search s.status_filter s.jurisdiction_filter);
  date_range = date_range s.dates;
  include_summary = none;
}

unfoldable pub has_filters : String → ListState → Bool
has_filters debounced_search s =
    nonempty debounced_search
    || (nonempty s.status_filter
        || (nonempty s.jurisdiction_filter || (truthy s.dates.from || truthy s.dates.to)))

unfoldable pub empty_text : Bool → String
empty_text filtered =
    if filtered
    then "Try adjusting or clearing the filters below."
    else "Add your first regulation to start mapping requirements."

-- Whether a row has a menu.
unfoldable pub any_action : AuthState → Bool
any_action s = can s (route Perm.regulations_update) || can s (route Perm.regulations_delete)

unfoldable pub columns : Calendar → ℤ → List (PageColumn Regulation)
columns c now =
    col "code" "Code" true none (λ r. code r.code)
    ∷ col "title" "Regulation" true none (λ r. titled r.title (shown_text r.description))
    ∷ col "status" "Status" true none (λ r. badge (meta_of status_meta r.status))
    ∷ col "jurisdiction" "Jurisdiction" true (some md) (λ r. plain (or_else r.jurisdiction "—"))
    ∷ col "effective_date" "Effective" true (some lg) (λ r. plain (format_date c r.effective_date))
    ∷ col "updated_at" "Updated" false (some lg)
        (λ r. plain (relative_time c now (some r.updated_at)))
    ∷ []
