-- ===== src/Pages/Screens/Deadlines.antt =====
-- The list of frontend/src/features/deadlines/pages/DeadlinesPage.tsx: the state of its toolbar and sort,
-- what it asks the list hook for, and the columns of its table.
use workflow_enterprise_comp.Prelude.{
  String, Bool, true, false, ◌||◌, Option, none, some, List, [], ◌∷◌, nonempty, truthy, ◌+s◌, take,
  ℤ, if◌then◌else◌,
}
use workflow_enterprise_comp.Http.{SortSpec}
use workflow_enterprise_comp.CursorList.Composed.{ListOptions}
use workflow_enterprise_comp.Constants.{status_meta, entity_label}
use workflow_enterprise_comp.Format.{Calendar, relative_time, format_date_time}
use workflow_enterprise_comp.Entities.{Deadline}
use workflow_enterprise_comp.Session.{AuthState, can}
use workflow_enterprise_comp.Paths.Perm.{Perm, route}
use workflow_enterprise_comp.Pages.Common.{DateRangeValue}
use workflow_enterprise_comp.Pages.Cells.{
  PageColumn, col, md, lg, plain, badge, titled, meta_of, shown_text, linked,
}
use workflow_enterprise_comp.Pages.Deadlines.{filters, date_range}

pub record ListState : Type 0 where
  pub search : String
  pub status_filter : String
  pub entity_filter : String
  pub dates : DateRangeValue
  pub sort : Option SortSpec

abbrev pub initial : ListState
initial = record {
  search = "";
  status_filter = "";
  entity_filter = "";
  dates = record { from = none; to = none };
  sort = none;
}

-- What the toolbar and the headers change.
pub data Edit : Type 0 where
  searched : String → Edit
  status_filter_picked : String → Edit
  entity_filter_picked : String → Edit
  dated : DateRangeValue → Edit
  sorted : Option SortSpec → Edit
  cleared : Edit

unfoldable pub edit : Edit → ListState → ListState
edit (searched text) s = record s { search = text }
edit (status_filter_picked value) s = record s { status_filter = value }
edit (entity_filter_picked value) s = record s { entity_filter = value }
edit (dated value) s = record s { dates = value }
edit (sorted sort) s = record s { sort = sort }
edit cleared s = record s {
  search = "";
  status_filter = "";
  entity_filter = "";
  dates = record { from = none; to = none };
}

-- The search that counts is the debounced one.
unfoldable pub list_options : String → ListState → ListOptions
unfolding filters date_range
list_options debounced_search s = record {
  limit = some 10;
  sort = s.sort;
  filters = some (filters debounced_search s.status_filter s.entity_filter);
  date_range = date_range s.dates;
  include_summary = none;
}

unfoldable pub has_filters : String → ListState → Bool
has_filters debounced_search s =
    nonempty debounced_search
    || (nonempty s.status_filter
        || (nonempty s.entity_filter || (truthy s.dates.from || truthy s.dates.to)))

unfoldable pub empty_text : Bool → String
empty_text filtered =
    if filtered
    then "Try adjusting or clearing the filters below."
    else "Create a deadline to start tracking it."

-- Whether a row has a menu.
unfoldable pub any_action : AuthState → Bool
any_action s =
    can s (route Perm.deadlines_update)
    || can s (route Perm.deadlines_delete)
    || can s (route Perm.deadlines_complete)

unfoldable pub columns : Calendar → ℤ → List (PageColumn Deadline)
columns c now =
    col "title" "Deadline" true none (λ d. titled d.title (shown_text d.description))
    ∷ col "status" "Status" true none (λ d. badge (meta_of status_meta d.status))
    ∷ col "deadline_at" "Deadline at" true none
        (λ d. plain (format_date_time c (some d.deadline_at)))
    ∷ col "entity_type" "Entity" false (some md)
        (λ d. plain (entity_label d.entity_type +s linked (take 8) d.entity_id))
    ∷ col "updated_at" "Updated" false (some lg)
        (λ d. plain (relative_time c now (some d.updated_at)))
    ∷ []
