-- ===== src/Pages/Cells.antt =====
-- What the columns of the list pages show in a cell, frontend/src/features, and the state of a
-- table's body, frontend/src/components/ui/DataTable.tsx. Classes and icons are not modelled.
use workflow_enterprise_comp.Prelude.{
  ◌==◌, String, Bool, Option, none, some, List, get_or, or_else, truthy, nonempty, if◌then◌else◌,
  take, ◌+s◌, length, map,
}
use workflow_enterprise_comp.Constants.{Meta, neutral, lookup}
use workflow_enterprise_comp.Table.{Column}

pub data Cell : Type 0 where
  plain : String → Cell
  code : String → Cell
  badge : Meta → Cell
  titled : (title : String) → (sub : Option String) → Cell

pub data Breakpoint : Type 0 where
  sm md lg : Breakpoint

pub record PageColumn (T : Type 0) : Type 0 where
  pub column : Column
  pub header : String
  pub hide_below : Option Breakpoint
  pub render : T → Cell

abbrev pub col :
    {T : Type 0} → String → String → Bool → Option Breakpoint → (T → Cell) → PageColumn T
col key header sortable hide render = record {
  column = record { key = key; sortable = sortable; sort_key = none };
  header = header;
  hide_below = hide;
  render = render;
}

-- `table[v] ?? { label: v, tone: "neutral" }`.
unfoldable pub meta_of : List (String × Meta) → String → Meta
unfolding lookup
meta_of table v = get_or (lookup v table) (record { label = v; tone = neutral })

-- `text && <p>…</p>`.
abbrev pub shown_text : Option String → Option String
shown_text o = if truthy o then o else none

-- `id?.slice(0, 8) || "—"`.
unfoldable pub id_prefix : Option String → String
id_prefix none = "—"
id_prefix (some id) = or_else (some (take 8 id)) "—"

-- `id ? \` · ${…}\` : ""`.
abbrev pub linked : (String → String) → Option String → String
linked f none = ""
linked f (some id) = if nonempty id then " · " +s f id else ""

pub data Body (T : Type 0) : Type 0 where
  error_state empty_state skeleton : Body T
  rows : List (T × List Cell) → Body T

abbrev cells : {T : Type 0} → List (PageColumn T) → T → List Cell
cells columns row = map (λ c. c.render row) columns

abbrev body_rows : {T : Type 0} → List (PageColumn T) → Bool → Option (List T) → Body T
body_rows columns is_loading none = skeleton
body_rows columns is_loading (some rs) =
    if is_loading
    then skeleton
    else if length rs == 0
    then empty_state
    else rows (map (λ r. (r, cells columns r)) rs)

-- What a table shows: the error before all else, then that there is nothing, then that it waits.
unfoldable pub table_body :
    {T : Type 0} → List (PageColumn T) → (is_error is_loading : Bool) → Option (List T) → Body T
table_body columns is_error is_loading rs =
    if is_error then error_state else body_rows columns is_loading rs
