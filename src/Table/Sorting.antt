-- ===== src/Table/Sorting.antt =====
-- What clicks on headers do to the sort of a list.
use workflow_enterprise_comp.Prelude.{
  String, true, false, refl, ◌≡◌, ◌≢◌, Option, none, some, arith, eq_iff, eq_refl,
}
use workflow_enterprise_comp.Http.{SortSpec}
use workflow_enterprise_comp.Table.{
  Column, column_key, toggle_sort, sort_on, aria_sort, AriaSort, ascending, descending, unsorted,
}

-- What a click makes of the sort that a header shows.
pub next_sort : AriaSort → AriaSort
next_sort unsorted = descending
next_sort descending = ascending
next_sort ascending = descending

-- A click on the header of a column that can be sorted by: from unsorted it shows a descending
-- sort, from descending an ascending one, and from ascending a descending one again; and every
-- column with another key then shows none.
pub toggle_sort_cycle :
    (col other : Column) (sort : Option SortSpec)
    → col.sortable ≡ true
    → column_key other ≢ column_key col
    → (aria_sort col (toggle_sort col sort) ≡ next_sort (aria_sort col sort))
      × (aria_sort other (toggle_sort col sort) ≡ unsorted)
unfolding toggle_sort aria_sort next_sort
toggle_sort_cycle col other none h ne =
    ground (arith, eq_refl (column_key col), eq_iff (column_key col) (column_key other))
toggle_sort_cycle col other (some sort) h ne = ground (
  arith,
  eq_refl (column_key col),
  eq_iff (column_key col) (column_key other),
  eq_iff sort.column (column_key col),
)

pub toggle_sort-kept :
    (col : Column) (sort : Option SortSpec) → col.sortable ≡ false → toggle_sort col sort ≡ sort
unfolding toggle_sort
toggle_sort-kept col sort h = ground (arith, h)

pub sort_on-column : (key : String) (sort : Option SortSpec) → (sort_on key sort).column ≡ key
unfolding sort_on
sort_on-column key none = refl
sort_on-column key (some s) = ground arith

pub toggle_sort-sorted :
    (col : Column) (sort : Option SortSpec)
    → col.sortable ≡ true
    → toggle_sort col sort ≡ some (sort_on (column_key col) sort)
unfolding toggle_sort
toggle_sort-sorted col sort h = ground (arith, h)
