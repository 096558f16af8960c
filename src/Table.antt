-- ===== src/Table.antt =====
-- The sorting of frontend/src/components/ui/DataTable.tsx: a click on a column's header, and what
-- the header shows of the present sort.
pub mod Sorting
use workflow_enterprise_comp.Prelude.{
  String, Bool, Option, none, some, str_eq, get_or, if◌then◌else◌,
}
use workflow_enterprise_comp.Http.{SortSpec, SortDirection, asc, desc}

pub record Column : Type 0 where
  pub key : String
  pub sortable : Bool
  pub sort_key : Option String

abbrev pub column_key : Column → String
column_key col = get_or col.sort_key col.key

abbrev flipped : SortDirection → SortDirection
flipped asc = desc
flipped desc = asc

pub sort_on : String → Option SortSpec → SortSpec
sort_on key none = record { column = key; direction = desc }
sort_on key (some sort) =
    if str_eq sort.column key
    then record { column = key; direction = flipped sort.direction }
    else record { column = key; direction = desc }

-- `toggleSort`, for a table whose sort can change; the result is the sort that the page then has.
unfoldable pub toggle_sort : Column → Option SortSpec → Option SortSpec
unfolding sort_on
toggle_sort col sort = if col.sortable then some (sort_on (column_key col) sort) else sort

pub data AriaSort : Type 0 where
  ascending descending unsorted : AriaSort

abbrev direction_aria : SortDirection → AriaSort
direction_aria asc = ascending
direction_aria desc = descending

-- `aria-sort`, and the icon with it.
unfoldable pub aria_sort : Column → Option SortSpec → AriaSort
aria_sort col none = unsorted
aria_sort col (some sort) =
    if str_eq sort.column (column_key col) then direction_aria sort.direction else unsorted
