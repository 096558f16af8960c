-- ===== src/Backend/Request.antt =====
-- A list request of backend/internal/pagination/pagination.go: its fields, the checks of its sort,
-- its filters and its date range against a module's column allowlist, and the conditions that they
-- come to. A map's keys are visited in the order they stand in; a message is the name in it.
use workflow_enterprise_comp.Prelude.{
  ℕ, String, Bool, true, false, Option, none, some, List, [], ◌∷◌, nonempty, str_eq, if◌then◌else◌,
  ltb, ℤ, pos, negsuc,
}
use workflow_enterprise_comp.Json.{Json, Fields, end, field}
use workflow_enterprise_comp.Constants.{lookup}

pub record Sort : Type 0 where
  pub column : String
  pub direction : String

-- A time is a number of nanoseconds.
pub record DateRange : Type 0 where
  pub range_field : String
  pub from : Option ℤ
  pub to : Option ℤ

pub record Query : Type 0 where
  pub cursor : String
  pub limit : ℤ
  pub sort : Option Sort
  pub filters : Fields
  pub date_range : Option DateRange
  pub include_summary : Bool

pub data Refusal : Type 0 where
  invalid_sort_column invalid_direction invalid_filter_column : String → Refusal
  invalid_range_column invalid_summary_column : String → Refusal
  invalid_cursor : Refusal
  other_sort_column : String → Refusal
  null_sort_value invalid_time : Refusal

pub data Checked {ℓ} (A : Type ℓ) : Type ℓ where
  ok : A → Checked A
  refused : Refusal → Checked A

infixl 5 ◌>>=◌
abbrev pub ◌>>=◌ {ℓ κ} : {A : Type ℓ} {B : Type κ} → Checked A → (A → Checked B) → Checked B
ok a >>= f = f a
refused e >>= f = refused e

-- `if !ok { return nil, e }` on a look-up.
abbrev pub found {ℓ} : {A : Type ℓ} → Refusal → Option A → Checked A
found e none = refused e
found e (some a) = ok a

-- The kinds of a schema field that a cursor value is read back for.
pub data DataType : Type 0 where
  time int uint other : DataType
  boolean : DataType

-- A value given to the database in a condition.
pub data Arg : Type 0 where
  instant : ℤ → Arg
  raw : Json → Arg

-- A condition on a row.
pub data Condition : Type 0 where
  equals : String → Json → Condition
  at_least at_most : String → ℤ → Condition
  beyond : (column : String) → (desc : Bool) → Arg → (id : String) → Condition

abbrev pub default_columns : List (String × String)
default_columns =
    ("id", "id")
    ∷ ("created_at", "created_at")
    ∷ ("updated_at", "updated_at")
    ∷ ("status", "status")
    ∷ []

-- The allowlist of a module: a table from the clients' column names to the database's.
abbrev pub Columns : Type 0
Columns = List (String × String)

or_default : String → Option String → Option String
unfolding lookup
or_default key none = lookup key default_columns
or_default key (some col) = some col

-- `cols[key]`, where the module's columns go over the defaults.
unfoldable pub column_of : Columns → String → Option String
unfolding or_default
column_of columns key = or_default key (lookup key columns)

unfoldable pub clamp : ℤ → ℕ
clamp (negsuc n) = 20
clamp (pos n) = if ltb n 1 then 20 else if ltb 100 n then 100 else n

unfoldable pub direction_of : String → Checked Bool
direction_of d =
    if str_eq d "asc"
    then ok false
    else if str_eq d "desc"
    then ok true
    else if str_eq d ""
    then ok true
    else refused (invalid_direction d)

pub record Ordering : Type 0 where
  pub sort_col : String
  pub desc : Bool

-- `cols["created_at"]`, which the defaults give unless the module's columns do.
abbrev created_at_column : Columns → Checked String
created_at_column columns =
    found (invalid_sort_column "created_at") (column_of columns "created_at")

unfoldable pub sort_column_of : Columns → String → Checked String
unfolding column_of
sort_column_of columns name =
    if nonempty name
    then found (invalid_sort_column name) (column_of columns name)
    else created_at_column columns

unfoldable pub ordering_of : Columns → Option Sort → Checked Ordering
unfolding sort_column_of direction_of
ordering_of columns none = do
  col ← created_at_column columns
  ok (record { sort_col = col; desc = true })
ordering_of columns (some s) = do
  col ← sort_column_of columns s.column
  down ← direction_of s.direction
  ok (record { sort_col = col; desc = down })

-- Each filter is a condition that the column equals the value, or is in the list.
unfoldable pub filter_conditions : Columns → Fields → Checked (List Condition)
unfolding column_of
filter_conditions columns end = ok []
filter_conditions columns (field key val fs) = do
  col ← found (invalid_filter_column key) (column_of columns key)
  rest ← filter_conditions columns fs
  ok (equals col val ∷ rest)

abbrev bound : (ℤ → Condition) → Option ℤ → List Condition → List Condition
bound c none rest = rest
bound c (some t) rest = c t ∷ rest

unfoldable pub range_column_of : Columns → String → Checked String
unfolding column_of
range_column_of columns name =
    if nonempty name
    then found (invalid_range_column name) (column_of columns name)
    else created_at_column columns

unfoldable pub range_conditions : Columns → Option DateRange → Checked (List Condition)
unfolding range_column_of
range_conditions columns none = ok []
range_conditions columns (some r) = do
  col ← range_column_of columns r.range_field
  ok (bound (at_least col) r.from (bound (at_most col) r.to []))
