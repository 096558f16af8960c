-- ===== src/Http.antt =====
-- The `http` object of frontend/src/services/api/client.ts, and the bodies that the services
-- share: the list query of frontend/src/types/api.ts and the bodies with an id or a limit.
use workflow_enterprise_comp.Prelude.{ℕ, String, Bool, Option, none, some}
use workflow_enterprise_comp.Json.{
  Json, Fields, bool, num, str, obj, field, end, opt_field, opt_str, nullable_str,
}
use workflow_enterprise_comp.Client.{Method, Request}

abbrev pub get : String → Request
get path = record { method = Method.get; path = path; body = none }

abbrev pub post : String → Option Json → Request
post path body = record { method = Method.post; path = path; body = body }

abbrev pub patch : String → Option Json → Request
patch path body = record { method = Method.patch; path = path; body = body }

abbrev pub del : String → Option Json → Request
del path body = record { method = Method.delete; path = path; body = body }

pub data SortDirection : Type 0 where
  asc desc : SortDirection

pub record SortSpec : Type 0 where
  pub column : String
  pub direction : SortDirection

pub record DateRangeSpec : Type 0 where
  pub range_field : Option String
  pub from : Option (Option String)
  pub to : Option (Option String)

pub record ListQuery : Type 0 where
  pub cursor : Option String
  pub limit : Option ℕ
  pub sort : Option SortSpec
  pub filters : Option Fields
  pub date_range : Option DateRangeSpec
  pub include_summary : Option Bool

abbrev pub direction_name : SortDirection → String
direction_name asc = "asc"
direction_name desc = "desc"

sort_json : Option SortSpec → Option Json
sort_json none = none
sort_json (some s) =
    some (
      obj
        (field "column" (str s.column) (field "direction" (str (direction_name s.direction)) end)))

range_json : Option DateRangeSpec → Option Json
range_json none = none
range_json (some r) = some (
    obj (
      opt_field "field" (opt_str r.range_field)
        (opt_field "from" (nullable_str r.from) (opt_field "to" (nullable_str r.to) end))))

opt_num : Option ℕ → Option Json
opt_num none = none
opt_num (some n) = some (num n)

opt_bool : Option Bool → Option Json
opt_bool none = none
opt_bool (some b) = some (bool b)

opt_obj : Option Fields → Option Json
opt_obj none = none
opt_obj (some fs) = some (obj fs)

unfoldable pub query_json : ListQuery → Json
unfolding sort_json range_json opt_num opt_bool opt_obj
query_json q = obj (
    opt_field "cursor" (opt_str q.cursor) (
      opt_field "limit" (opt_num q.limit) (
        opt_field "sort" (sort_json q.sort) (
          opt_field "filters" (opt_obj q.filters) (
            opt_field "date_range" (range_json q.date_range)
              (opt_field "include_summary" (opt_bool q.include_summary) end))))))

-- `{ id }` and `{ limit }`.
abbrev pub id_body : String → Json
id_body id = obj (field "id" (str id) end)

abbrev pub limit_body : ℕ → Json
limit_body limit = obj (field "limit" (num limit) end)
