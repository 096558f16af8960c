-- ===== src/Tests/Listings.antt =====
-- A list of three rows in pages of two, read through the engine and the hook.
use workflow_enterprise_comp.Prelude.{
  ℕ, suc, String, Bool, true, false, ◌≡◌, Option, none, some, List, [], ◌∷◌, refl, ap, arith,
  str_eq, ltb, if◌then◌else◌, pos, get_or,
}
use workflow_enterprise_comp.Json.{null, str, end}
use workflow_enterprise_comp.Constants.{lookup}
use workflow_enterprise_comp.CursorList.{Paginated}
use workflow_enterprise_comp.CursorList
use workflow_enterprise_comp.CursorList.Reading.{read}
use workflow_enterprise_comp.CursorList.Visits.{page_at, start_at}
use workflow_enterprise_comp.Backend.Request.{
  Query, Checked, ok, refused, Condition, beyond, other, raw, null_sort_value, invalid_cursor,
  clamp, ordering_of, filter_conditions, range_conditions, column_of,
}
use workflow_enterprise_comp.Backend.Pagination.{
  Sql, Cursor, Result, apply, cursor_for, opt_summary, build_summary, coerce,
}
use workflow_enterprise_comp.Backend.Pagination.Pages.{Accepted, Reliable, with_cursor}
use workflow_enterprise_comp.Backend.Pagination.Refused.{cursor-refused, null_row_refused}
use workflow_enterprise_comp.Backend.Listing.{as_page}
use workflow_enterprise_comp.Backend.Listing.Exhaustive.{pages_in_order, read_ends, rows_of}

record Item : Type 0 where
  id : String
  at : String

abbrev item : String → String → Item
item id at = record { id = id; at = at }

abbrev items : List Item
items = item "c" "3" ∷ item "b" "2" ∷ item "a" "1" ∷ []

abbrev rank : String → ℕ
rank id = if str_eq id "c" then 0 else if str_eq id "b" then 1 else 2

abbrev cursor : String → String → Cursor
cursor at id = record { sort_column = "created_at"; sort_value = str at; id = id }

abbrev meets : Condition → Item → Bool
meets (beyond column desc v id) x = ltb (rank id) (rank x.id)
meets _ x = true

abbrev decoded : String → Option Cursor
decoded text =
    if str_eq text "c"
    then some (cursor "3" "c")
    else if str_eq text "b"
    then some (cursor "2" "b")
    else if str_eq text "a"
    then some (cursor "1" "a")
    else none

abbrev sql : Sql Item
sql = record {
  ordered = λ column desc. items;
  meets = meets;
  distinct = λ column xs. [];
  has_value = λ column v x. false;
  type_of = λ column. other;
  value_of = λ column x. str x.at;
  id_of = λ x. x.id;
  encode = λ c. c.id;
  decode = decoded;
  parse_time = λ s. none;
}

abbrev two_each : Query
two_each = record {
  cursor = "";
  limit = pos 2;
  sort = none;
  filters = end;
  date_range = none;
  include_summary = true;
}

order : ordering_of [] none ≡ ok (record { sort_col = "created_at"; desc = true })
unfolding ordering_of column_of lookup
order = refl

wanted : filter_conditions [] end ≡ ok []
unfolding filter_conditions
wanted = refl

within : range_conditions [] none ≡ ok []
unfolding range_conditions
within = refl

summed : opt_summary sql true [] "" items ≡ ok (some (record { total = 3; groups = none }))
unfolding opt_summary build_summary
summed = refl

abbrev accepted : Accepted sql [] "" two_each
accepted = record {
  order = record { sort_col = "created_at"; desc = true };
  wanted = [];
  within = [];
  summary = some (record { total = 3; groups = none });
  ordering = order;
  filters = wanted;
  range = within;
  summed = summed;
}

reliable : Reliable sql accepted.order items
unfolding coerce cursor_for
reliable = record {
  marked = (
    record { printed = refl; coded = refl; value = raw (str "3"); readable = refl },
    (
      record { printed = refl; coded = refl; value = raw (str "2"); readable = refl },
      (record { printed = refl; coded = refl; value = raw (str "1"); readable = refl }, tt),
    ),
  );
  in_order = (refl, ((refl, refl), ((refl, refl), tt)), (refl, ((refl, refl), tt), (refl, tt, tt)));
}

no_page : Paginated Item
no_page = record {
  items = [];
  pagination = record {
    count = pos 0;
    limit = 0;
    has_more = false;
    cursor = none;
    next_cursor = none;
    total = none;
  };
}

abbrev page_or : Checked (Result Item) → Paginated Item
page_or (ok p) = as_page p
page_or (refused e) = no_page

abbrev backend : Option String → Paginated Item
backend c = page_or (apply sql (with_cursor two_each (get_or c "")) [] "")

serves :
    (c : Option String) (p : Result Item)
    → apply sql (with_cursor two_each (get_or c "")) [] "" ≡ ok p
    → backend c ≡ as_page p
serves c p h = ap page_or h

abbrev idle : CursorList.Query Item
idle = record { answer = none; is_pending = false; is_fetching = false; is_error = false }

pages_in_order_example :
    ((page_at backend 1).items ≡ item "a" "1" ∷ [])
    × (start_at backend 1 ≡ pos 3)
    × ((page_at backend 1).pagination.has_more ≡ false)
unfolding clamp
pages_in_order_example =
    pages_in_order sql [] "" two_each accepted reliable backend serves 1 (omega arith)

read_ends_example :
    (n : ℕ) × (rows_of (read backend (λ _. false) idle n).pages ≡ items)
    × (read backend (λ _. false) idle (suc n) ≡ read backend (λ _. false) idle n)
read_ends_example =
    read_ends sql [] "" two_each accepted reliable backend serves (λ _. false) idle (λ k. refl)

cursor-refused_example : apply sql (with_cursor two_each "x") [] "" ≡ refused invalid_cursor
cursor-refused_example = cursor-refused sql [] "" two_each accepted "x" invalid_cursor refl refl

-- A table whose sort column is null in every row.
abbrev nulls : Sql Item
nulls = record sql {
  value_of = λ column x. null;
  decode = λ text. some (record { sort_column = "created_at"; sort_value = null; id = text });
}

nulls_summed : opt_summary nulls true [] "" items ≡ ok (some (record { total = 3; groups = none }))
unfolding opt_summary build_summary
nulls_summed = refl

abbrev nulls_accepted : Accepted nulls [] "" two_each
nulls_accepted = record {
  order = record { sort_col = "created_at"; desc = true };
  wanted = [];
  within = [];
  summary = some (record { total = 3; groups = none });
  ordering = order;
  filters = wanted;
  range = within;
  summed = nulls_summed;
}

null_row_refused_example : apply nulls (with_cursor two_each "b") [] "" ≡ refused null_sort_value
unfolding cursor_for
null_row_refused_example =
    null_row_refused nulls [] "" two_each nulls_accepted (item "b" "2") refl refl refl
