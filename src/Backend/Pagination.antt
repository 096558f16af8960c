-- ===== src/Backend/Pagination.antt =====
-- The pagination engine of backend/internal/pagination/pagination.go. The database is a record of
-- what the engine asks of it (`Sql`): a table in the order of a column and the id, the tests of the
-- conditions, and the fields of a row. A select keeps the rows that meet the conditions, in that
-- order. The JSON and base64 coding of a cursor and the reading of times are operations of the same
-- record. Errors of the database itself are not modelled.
pub mod Keyset
pub mod Fetched
pub mod Pages
pub mod Refused
use workflow_enterprise_comp.Prelude.{
  ℕ, ◌+◌, String, Bool, not, ◌&&◌, Option, none, some, List, [], ◌∷◌, ◌++◌, nonempty, str_eq,
  if◌then◌else◌, ltb, length, filter, all, ℤ, list_take, last?, map,
}
use workflow_enterprise_comp.Json.{Json, null, str}
use workflow_enterprise_comp.Backend.Request.{
  Query, Refusal, invalid_summary_column, invalid_cursor, other_sort_column, null_sort_value,
  invalid_time, Checked, ok, refused, ◌>>=◌, found, DataType, time, Arg, instant, raw, Condition,
  beyond, Columns, column_of, clamp, Ordering, ordering_of, filter_conditions, range_conditions,
}

pub record Cursor : Type 0 where
  pub sort_column : String
  pub sort_value : Json
  pub id : String

pub record DbSummary : Type 0 where
  pub total : ℕ
  pub groups : Option (List (String × ℕ))

pub record Summary : Type 0 where
  pub count : ℕ
  pub limit : ℕ
  pub has_more : Bool
  pub cursor : String
  pub next_cursor : String
  pub db_summary : Option DbSummary

pub record Result (T : Type 0) : Type 0 where
  pub items : List T
  pub pagination : Summary

pub record Sql (T : Type 0) : Type 0 where
  -- The table in the order of the column and then the id, both descending or both ascending.
  pub ordered : String → Bool → List T
  pub meets : Condition → T → Bool
  -- The distinct values of a column in some rows, without NULL, and whether a row has a value.
  pub distinct : String → List T → List String
  pub has_value : String → String → T → Bool
  -- The type of a column; the value of a column in a row, as JSON; and the id of a row.
  pub type_of : String → DataType
  pub value_of : String → T → Json
  pub id_of : T → String
  pub encode : Cursor → String
  pub decode : String → Option Cursor
  pub parse_time : String → Option ℤ

abbrev time_value : Option ℤ → Checked Arg
time_value none = refused invalid_time
time_value (some t) = ok (instant t)

module _ {T : Type 0} (sql : Sql T) where
  -- A number stays the number that it is: the conversions to whole numbers change none of these.
  unfoldable pub coerce : DataType → Json → Checked Arg
  coerce type null = refused null_sort_value
  coerce time (str s) = time_value (sql.parse_time s)
  coerce time v = refused invalid_time
  coerce type v = ok (raw v)

  -- The condition that a cursor adds, if the request has one.
  unfoldable pub keyset : Ordering → String → Checked (List Condition)
  unfolding coerce
  keyset o text = if not (nonempty text) then ok [] else do
    cur ← found invalid_cursor (sql.decode text)
    v ←
        if nonempty cur.sort_column && not (str_eq cur.sort_column o.sort_col)
        then refused (other_sort_column cur.sort_column)
        else coerce (sql.type_of o.sort_col) cur.sort_value
    ok (beyond o.sort_col o.desc v cur.id ∷ [])

  abbrev pub meets_all : List Condition → T → Bool
  meets_all cs x = all (λ c. sql.meets c x) cs

  -- The rows where the conditions hold, in the order asked for.
  abbrev pub select : Ordering → List Condition → List T
  select o cs = filter (meets_all cs) (sql.ordered o.sort_col o.desc)

  group_counts : String → List T → List String → List (String × ℕ)
  group_counts col rows values = map (λ v. (v, length (filter (sql.has_value col v) rows))) values

  unfoldable pub build_summary : Columns → String → List T → Checked DbSummary
  unfolding column_of group_counts
  build_summary columns summary_by rows =
      if not (nonempty summary_by) then ok (record { total = length rows; groups = none }) else do
        col ← found (invalid_summary_column summary_by) (column_of columns summary_by)
        ok (record {
          total = length rows;
          groups = some (group_counts col rows (sql.distinct col rows));
        })

  unfoldable pub opt_summary : Bool → Columns → String → List T → Checked (Option DbSummary)
  unfolding build_summary
  opt_summary wanted columns summary_by rows =
      if not wanted then ok none else do s ← build_summary columns summary_by rows; ok (some s)

  unfoldable pub cursor_for : String → T → Cursor
  cursor_for col x = record { sort_column = col; sort_value = sql.value_of col x; id = sql.id_of x }

  abbrev encoded_after : String → Option T → String
  encoded_after col none = ""
  encoded_after col (some x) = sql.encode (cursor_for col x)

  -- What is answered with the rows that were fetched, of which there is one more than the limit
  -- where another page follows.
  unfoldable pub page_of : Query → ℕ → String → List T → Option DbSummary → Result T
  page_of q limit col fetched summary =
      let more = ltb limit (length fetched) in
      let items = if more then list_take limit fetched else fetched in
      record {
        items = items;
        pagination = record {
          count = length items;
          limit = limit;
          has_more = more;
          cursor = q.cursor;
          next_cursor = if more then encoded_after col (last? items) else "";
          db_summary = summary;
        };
      }

  unfoldable pub apply : Query → Columns → String → Checked (Result T)
  unfolding clamp ordering_of filter_conditions range_conditions opt_summary keyset page_of
  apply q columns summary_by = do
    let limit = clamp q.limit
    o ← ordering_of columns q.sort
    wanted ← filter_conditions columns q.filters
    within ← range_conditions columns q.date_range
    let rows = select o (wanted ++ within)
    summary ← opt_summary q.include_summary columns summary_by rows
    after ← keyset o q.cursor
    let fetched = list_take (limit + 1) (select o (wanted ++ within ++ after))
    ok (page_of q limit o.sort_col fetched summary)
