-- ===== src/Observe/Dashboard.antt =====
-- The page of frontend/src/features/dashboard/pages/DashboardPage.tsx: what it asks for, and what
-- it makes of the summaries.
pub mod Groups
use workflow_enterprise_comp.Prelude.{
  ℕ, zero, suc, ◌+◌, String, Bool, true, false, ◌≡◌, Option, none, some, List, [], ◌∷◌, ltb,
  if◌then◌else◌, nonempty, ◌+s◌, decimal, length, ◌==◌, ℤ,
}
use workflow_enterprise_comp.Json
use workflow_enterprise_comp.Json.{Json, Fields, end, field, str, obj, arr, num, Elems, nil, cons}
use workflow_enterprise_comp.Client.{Request}
use workflow_enterprise_comp.Http.{ListQuery, asc, desc}
use workflow_enterprise_comp.Constants.{
  Meta, Tone, neutral, info, success, warning, danger, status_meta, severity_meta, risk_meta,
}
use workflow_enterprise_comp.Format.{Calendar, relative_time, short_id}
use workflow_enterprise_comp.Entities.{Alert, Compliance}
use workflow_enterprise_comp.Session.{AuthState, can}
use workflow_enterprise_comp.Paths.Perm.{Perm, route}
use workflow_enterprise_comp.Pages.Cells.{meta_of}
use workflow_enterprise_comp.Services.Alerts
use workflow_enterprise_comp.Services.Compliances
use workflow_enterprise_comp.Services.Violations
use workflow_enterprise_comp.Services.Users

pub record Group : Type 0 where
  pub label : String
  pub count : ℕ
  pub tone : Tone

pub record SummaryData : Type 0 where
  pub total : Option ℕ
  pub groups : List Group

abbrev as_number : Option Json → Option ℕ
as_number (some (num n)) = some n
as_number _ = none

group : List (String × Meta) → String → ℕ → Group
group meta k n = record { label = (meta_of meta k).label; count = n; tone = (meta_of meta k).tone }

-- The entries with a number, `Object.entries`; an array's keys are its indices.
unfoldable pub groups_of : List (String × Meta) → Fields → List Group
unfolding group
groups_of meta end = []
groups_of meta (field k (num n) fs) = group meta k n ∷ groups_of meta fs
groups_of meta (field k v fs) = groups_of meta fs

unfoldable pub groups_at : List (String × Meta) → ℕ → Elems → List Group
unfolding group
groups_at meta i nil = []
groups_at meta i (cons (num n) vs) = group meta (decimal i) n ∷ groups_at meta (suc i) vs
groups_at meta i (cons v vs) = groups_at meta (suc i) vs

unfoldable pub insert : Group → List Group → List Group
insert g [] = g ∷ []
insert g (h ∷ hs) = if ltb g.count h.count then h ∷ insert g hs else g ∷ h ∷ hs

-- `groups.sort((a, b) => b.count - a.count)`, which is stable.
unfoldable pub sort : List Group → List Group
unfolding insert
sort [] = []
sort (g ∷ gs) = insert g (sort gs)

unfoldable pub raw_groups : List (String × Meta) → Option Json → List Group
unfolding groups_of groups_at
raw_groups meta (some (obj fs)) = groups_of meta fs
raw_groups meta (some (arr vs)) = groups_at meta 0 vs
raw_groups meta _ = []

unfoldable pub parse_summary : Option Fields → String → List (String × Meta) → SummaryData
unfolding raw_groups sort
parse_summary none group_key meta = record { total = none; groups = [] }
parse_summary (some fs) group_key meta = record {
  total = as_number (Json.get "total" fs);
  groups = sort (raw_groups meta (Json.get group_key fs));
}

-- The six queries of the page.
pub data Tile : Type 0 where
  compliances open_alerts open_violations users recent_alerts recent_compliances : Tile

abbrev summarised : Option Fields → ListQuery
summarised filters = record {
  cursor = none;
  limit = some 1;
  sort = none;
  filters = filters;
  date_range = none;
  include_summary = some true;
}

abbrev latest : String → ListQuery
latest column = record {
  cursor = none;
  limit = some 5;
  sort = some (record { column = column; direction = desc });
  filters = none;
  date_range = none;
  include_summary = some false;
}

abbrev only_open : Fields
only_open = field "status" (str "open") end

unfoldable pub tile_request : Tile → Request
tile_request compliances = Compliances.search (summarised none)
tile_request open_alerts = Alerts.search (summarised (some only_open))
tile_request open_violations = Violations.search (summarised (some only_open))
tile_request users = Users.search (summarised none)
tile_request recent_alerts = Alerts.search (latest "created_at")
tile_request recent_compliances = Compliances.search (latest "updated_at")

-- Only the query of the users waits for a permission.
unfoldable pub tile_enabled : AuthState → Tile → Bool
tile_enabled a users = can a (route Perm.users_search)
tile_enabled a _ = true

unfoldable pub greeting : Option String → String
greeting none = "Good day"
greeting (some username) = "Good day, " +s username

pub record AlertItem : Type 0 where
  pub dot : Tone
  pub title : String
  pub line : String
  pub severity : Meta
  pub status : Meta

unfoldable pub alert_item : Calendar → ℤ → Alert → AlertItem
alert_item c now a = record {
  dot = (meta_of severity_meta a.severity).tone;
  title = a.title;
  line = a.type +s (" · " +s relative_time c now (some a.created_at));
  severity = meta_of severity_meta a.severity;
  status = meta_of status_meta a.status;
}

pub record ComplianceItem : Type 0 where
  pub title : String
  pub line : String
  pub status : Meta
  pub risk : Meta

abbrev owner_text : Option String → String
owner_text none = ""
owner_text (some id) = if nonempty id then "Owner " +s (short_id (some id) +s " · ") else ""

unfoldable pub compliance_item : Calendar → ℤ → Compliance → ComplianceItem
compliance_item c now x = record {
  title = x.name;
  line = owner_text x.owner_id +s ("updated " +s relative_time c now (some x.updated_at));
  status = meta_of status_meta x.status;
  risk = meta_of risk_meta x.risk_level;
}

pub data Recent (T : Type 0) : Type 0 where
  recent_loading recent_empty : Recent T
  recent_shown : List T → Recent T

abbrev recent_or_empty : {T : Type 0} → Option (List T) → Recent T
recent_or_empty none = recent_empty
recent_or_empty (some xs) = if length xs == 0 then recent_empty else recent_shown xs

unfoldable pub recent_state : {T : Type 0} → Bool → Option (List T) → Recent T
recent_state loading xs = if loading then recent_loading else recent_or_empty xs

unfoldable pub dot_for : Tone → String
dot_for info = "bg-info-500"
dot_for success = "bg-success-500"
dot_for warning = "bg-warning-500"
dot_for danger = "bg-danger-500"
dot_for neutral = "bg-slate-400"
