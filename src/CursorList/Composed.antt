-- ===== src/CursorList/Composed.antt =====
-- The list query that `useCursorList` composes, and what of it reaches the backend.
use workflow_enterprise_comp.Prelude.{ℕ, String, Bool, true, ◌≡◌, Option, none, some, get_or, arith}
use workflow_enterprise_comp.Json.{Json, bool, num, obj, Fields, prop, opt_str}
use workflow_enterprise_comp.Client.{strip_empty_strings}
use workflow_enterprise_comp.Client.Strip.{unless_empty}
use workflow_enterprise_comp.Http.{SortSpec, DateRangeSpec, ListQuery, query_json}
use workflow_enterprise_comp.CursorList.{CursorList, cursor}

-- The options that end up in the query.
pub record ListOptions : Type 0 where
  pub limit : Option ℕ
  pub sort : Option SortSpec
  pub filters : Option Fields
  pub date_range : Option DateRangeSpec
  pub include_summary : Option Bool

unfoldable pub list_query : {T : Type 0} → ListOptions → CursorList T → ListQuery
list_query opts s = record {
  cursor = cursor s;
  limit = some (get_or opts.limit 10);
  sort = opts.sort;
  filters = opts.filters;
  date_range = opts.date_range;
  include_summary = some (get_or opts.include_summary true);
}

abbrev pub opt_filters : Option Fields → Option Json
opt_filters none = none
opt_filters (some fs) = some (obj fs)

-- A field of the body that a search with the query sends.
abbrev pub sent : {T : Type 0} → ListOptions → CursorList T → String → Option Json
sent opts s k = prop k (strip_empty_strings (query_json (list_query opts s)))

-- A search of a list sends the cursor of the present page where there is one that is not empty,
-- the limit, ten if none is chosen, all filters as they are, and whether a summary is wanted, which
-- it is if nothing else is chosen.
pub list_query-Sends :
    {T : Type 0} (opts : ListOptions) (s : CursorList T)
    → (sent opts s "cursor" ≡ unless_empty (opt_str (cursor s)))
      × (sent opts s "limit" ≡ some (num (get_or opts.limit 10)))
      × (sent opts s "filters" ≡ opt_filters opts.filters)
      × (sent opts s "include_summary" ≡ some (bool (get_or opts.include_summary true)))
unfolding prop strip_empty_strings query_json list_query
list_query-Sends opts s = ground arith
