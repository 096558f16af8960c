-- ===== src/Pages/Screens/Users.antt =====
-- The list of frontend/src/features/users/pages/UsersPage.tsx: the state of its toolbar and sort,
-- what it asks the list hook for, and the columns of its table.
use workflow_enterprise_comp.Prelude.{
  String, Bool, true, false, ◌||◌, Option, none, some, List, [], ◌∷◌, nonempty, truthy, or_else, ℤ,
  get_or, str_eq, if◌then◌else◌,
}
use workflow_enterprise_comp.Http.{SortSpec}
use workflow_enterprise_comp.CursorList.Composed.{ListOptions}
use workflow_enterprise_comp.Constants.{status_meta}
use workflow_enterprise_comp.Format.{Calendar, format_date, smart_date_time, short_id}
use workflow_enterprise_comp.Entities.{User, Role}
use workflow_enterprise_comp.Session.{AuthState, can}
use workflow_enterprise_comp.Paths.Perm.{Perm, route}
use workflow_enterprise_comp.Pages.Common.{DateRangeValue}
use workflow_enterprise_comp.Pages.Cells.{PageColumn, col, md, lg, plain, badge, titled, meta_of}
use workflow_enterprise_comp.Pages.Users.{filters, date_range}

pub record ListState : Type 0 where
  pub search : String
  pub status_filter : String
  pub role_filter : String
  pub dates : DateRangeValue
  pub sort : Option SortSpec

abbrev pub initial : ListState
initial = record {
  search = "";
  status_filter = "";
  role_filter = "";
  dates = record { from = none; to = none };
  sort = none;
}

-- What the toolbar and the headers change.
pub data Edit : Type 0 where
  searched : String → Edit
  status_filter_picked : String → Edit
  role_filter_picked : String → Edit
  dated : DateRangeValue → Edit
  sorted : Option SortSpec → Edit
  cleared : Edit

unfoldable pub edit : Edit → ListState → ListState
edit (searched text) s = record s { search = text }
edit (status_filter_picked value) s = record s { status_filter = value }
edit (role_filter_picked value) s = record s { role_filter = value }
edit (dated value) s = record s { dates = value }
edit (sorted sort) s = record s { sort = sort }
edit cleared s = record s {
  search = "";
  status_filter = "";
  role_filter = "";
  dates = record { from = none; to = none };
}

-- The search that counts is the debounced one.
unfoldable pub list_options : String → ListState → ListOptions
unfolding filters date_range
list_options debounced_search s = record {
  limit = some 10;
  sort = s.sort;
  filters = some (filters debounced_search s.status_filter s.role_filter);
  date_range = date_range s.dates;
  include_summary = none;
}

unfoldable pub has_filters : String → ListState → Bool
has_filters debounced_search s =
    nonempty debounced_search
    || (nonempty s.status_filter
        || (nonempty s.role_filter || (truthy s.dates.from || truthy s.dates.to)))

unfoldable pub empty_text : Bool → String
empty_text filtered =
    if filtered
    then "Try adjusting or clearing the filters below."
    else "Invite your first operator to get started."

-- Whether a row has a menu.
unfoldable pub any_action : AuthState → Bool
any_action s = can s (route Perm.users_update) || can s (route Perm.users_delete)

abbrev later_or : Role → String → Option Role → Option Role
later_or r id (some later) = some later
later_or r id none = if str_eq r.id id then some r else none

-- `new Map(…).get(id)`: of roles with one id, the last.
unfoldable pub role_by_id : List Role → String → Option Role
role_by_id [] id = none
role_by_id (r ∷ rs) id = later_or r id (role_by_id rs id)

abbrev role_name : Option String → Option Role → String
role_name id none = short_id id
role_name id (some role) = role.name

unfoldable pub role_text : List Role → Option String → String
unfolding role_by_id
role_text roles id = role_name id (role_by_id roles (get_or id ""))

unfoldable pub format_login : Calendar → ℤ → Option String → String
format_login c now iso = if truthy iso then smart_date_time c now iso else "Never"

unfoldable pub columns : List Role → Calendar → ℤ → List (PageColumn User)
columns roles c now =
    col "username" "User" true none (λ u. titled u.username (some (or_else u.email "—")))
    ∷ col "role_id" "Role" true none (λ u. plain (role_text roles u.role_id))
    ∷ col "status" "Status" true none (λ u. badge (meta_of status_meta u.status))
    ∷ col "last_login_at" "Last login" false (some md)
        (λ u. plain (format_login c now u.last_login_at))
    ∷ col "created_at" "Created" true (some lg) (λ u. plain (format_date c (some u.created_at)))
    ∷ []
