-- ===== src/Backend/Pagination/Refused.antt =====
-- Cursors that the engine refuses.
use workflow_enterprise_comp.Prelude.{
  String, Bool, true, false, ◌≡◌, Option, none, some, nonempty, str_eq, arith, eq_refl, refl,
  Option-cases, inl, inr, if◌then◌else◌, not, ◌&&◌, ◌↔◌,
}
use workflow_enterprise_comp.Json.{Json, null}
use workflow_enterprise_comp.Backend.Request.{
  Query, refused, Refusal, invalid_cursor, other_sort_column, null_sort_value, Columns, Ordering,
  DataType,
}
use workflow_enterprise_comp.Backend.Pagination.{Sql, Cursor, keyset, coerce, cursor_for, apply}
use workflow_enterprise_comp.Backend.Pagination.Pages.{Accepted, with_cursor}

abbrev pub is_null : Json → Bool
is_null null = true
is_null _ = false

is_null_iff : (v : Json) → (is_null v ≡ true) ↔ (v ≡ null)
is_null_iff v = ground arith

-- What a decoded cursor is refused for.
abbrev pub refusal_of : Ordering → Option Cursor → Option Refusal
refusal_of o none = some invalid_cursor
refusal_of o (some cur) =
    if nonempty cur.sort_column && not (str_eq cur.sort_column o.sort_col)
    then some (other_sort_column cur.sort_column)
    else if is_null cur.sort_value
    then some null_sort_value
    else none

module _ {T : Type 0} (sql : Sql T) where
  coerce_null : (type : DataType) → coerce sql type null ≡ refused null_sort_value
  unfolding coerce
  coerce_null type = refl

module _ {T : Type 0} (sql : Sql T) (columns : Columns) (summary_by : String) (q : Query)
    (a : Accepted sql columns summary_by q) where
  apply-refused :
      (c : String) (e : Refusal)
      → keyset sql a.order c ≡ refused e
      → apply sql (with_cursor q c) columns summary_by ≡ refused e
  unfolding apply
  apply-refused c e h = rw (a.ordering, a.filters, a.range, a.summed, h) refl

  keyset-refused :
      (c : String) (e : Refusal)
      → nonempty c ≡ true
      → refusal_of a.order (sql.decode c) ≡ some e
      → keyset sql a.order c ≡ refused e
  unfolding keyset
  keyset-refused c e n h = elim (Option-cases (sql.decode c)) [
    | inl d ↦ ground (arith, n, d, h)
    | inr (cur, d) ↦
        ground (
          arith,
          n,
          d,
          h,
          is_null_iff cur.sort_value,
          coerce_null sql (sql.type_of a.order.sort_col),
        )
  ]

  -- A request whose sort, filters, date range and summary are accepted, with a cursor that is not
  -- empty, is refused where the cursor cannot be decoded, where it was made under
  -- a sort by another column, and where its sort value is null, each with its own error.
  pub cursor-refused :
      (c : String) (e : Refusal)
      → nonempty c ≡ true
      → refusal_of a.order (sql.decode c) ≡ some e
      → apply sql (with_cursor q c) columns summary_by ≡ refused e
  cursor-refused c e n h = apply-refused c e (keyset-refused c e n h)

  -- For a request whose sort, filters, date range and summary are accepted: the page after a row
  -- whose value in the sort column is null, if that row's cursor is printed as some text and read
  -- back as it was, is refused: the list cannot be read on from there.
  pub null_row_refused :
      (x : T)
      → nonempty (sql.encode (cursor_for sql a.order.sort_col x)) ≡ true
      → sql.decode (sql.encode (cursor_for sql a.order.sort_col x))
        ≡ some (cursor_for sql a.order.sort_col x)
      → sql.value_of a.order.sort_col x ≡ null
      → apply sql
          (with_cursor q (sql.encode (cursor_for sql a.order.sort_col x)))
          columns
          summary_by
        ≡ refused null_sort_value
  unfolding cursor_for
  null_row_refused x n d v =
      cursor-refused (sql.encode (cursor_for sql a.order.sort_col x)) null_sort_value n
        (ground (arith, d, v, eq_refl a.order.sort_col))
