-- ===== src/Backend/Pagination/Pages.antt =====
-- The requests of one list: the first, and those with the cursor of a row.
use workflow_enterprise_comp.Prelude.{
  ℕ, zero, suc, ◌+◌, String, Bool, true, false, ◌≡◌, Option, some, List, [], ◌∷◌, ◌++◌, get_elem?,
  nonempty, list_take, list_drop, All, refl, ◌∙◌, ap, subst, arith, eq_refl,
}
use workflow_enterprise_comp.Backend.Request.{
  Query, Condition, Checked, ok, refused, Arg, beyond, Columns, clamp, Ordering, ordering_of,
  filter_conditions, range_conditions,
}
use workflow_enterprise_comp.Backend.Pagination.{
  Sql, Result, DbSummary, coerce, keyset, select, opt_summary, cursor_for, page_of, apply,
  meets_all,
}
use workflow_enterprise_comp.Backend.Pagination.Keyset.{IsOrdered, filter-after}
use workflow_enterprise_comp.Backend.Pagination.Fetched.{select-append, filter-eq, filter-true}

module _ {T : Type 0} (sql : Sql T) (columns : Columns) (summary_by : String) (q : Query) where
  -- A request whose sort, filters, date range and summary the engine accepts, with what they come to.
  pub record Accepted : Type 0 where
    pub order : Ordering
    pub wanted : List Condition
    pub within : List Condition
    pub summary : Option DbSummary
    pub ordering : ordering_of columns q.sort ≡ ok order
    pub filters : filter_conditions columns q.filters ≡ ok wanted
    pub range : range_conditions columns q.date_range ≡ ok within
    pub summed :
        opt_summary sql q.include_summary columns summary_by (select sql order (wanted ++ within))
        ≡ ok summary

All-get {κ} :
    {A : Type 0} (P : A → Type κ) (xs : List A) (n : ℕ) (x : A)
    → All P xs
    → get_elem? xs n ≡ some x
    → P x
All-get P [] n x h e = absurd (ground (arith, e))
All-get P (y ∷ ys) zero x h e = subst P (ground (arith, e)) h.0
All-get P (y ∷ ys) (suc n) x h e = All-get P ys n x h.1 e

abbrev marks : {T : Type 0} → Sql T → Ordering → T → T → Checked Arg → Bool
marks sql o x y (ok v) = sql.meets (beyond o.sort_col o.desc v (sql.id_of x)) y
marks sql o x y (refused e) = false

module _ {T : Type 0} (sql : Sql T) (o : Ordering) where
  -- The value of the sort column in a row, as the engine reads it back from a cursor.
  abbrev pub marker : T → Checked Arg
  marker x = coerce sql (sql.type_of o.sort_col) (sql.value_of o.sort_col x)

  -- Whether the condition of one row's cursor holds of another row.
  abbrev pub after : T → T → Bool
  after x y = marks sql o x y (marker x)

  -- What is relied on for a row: its cursor is printed as some text and read back as it was, and
  -- its sort value, which is not null then, can be given to the database.
  pub record IsMarked (x : T) : Type 0 where
    pub printed : nonempty (sql.encode (cursor_for sql o.sort_col x)) ≡ true
    pub coded :
        sql.decode (sql.encode (cursor_for sql o.sort_col x)) ≡ some (cursor_for sql o.sort_col x)
    pub value : Arg
    pub readable : marker x ≡ ok value

  -- And for some rows in order: the condition of a row's cursor holds of just those that follow it.
  pub record Reliable (rows : List T) : Type 0 where
    pub marked : All IsMarked rows
    pub in_order : IsOrdered after rows

  keyset-cursor :
      (x : T) (m : IsMarked x)
      → keyset sql o (sql.encode (cursor_for sql o.sort_col x))
        ≡ ok (beyond o.sort_col o.desc m.value (sql.id_of x) ∷ [])
  unfolding keyset cursor_for
  keyset-cursor x m = ground (arith, m.printed, m.coded, m.readable, eq_refl o.sort_col)

abbrev pub with_cursor : Query → String → Query
with_cursor q c = record q { cursor = c }

module _ {T : Type 0} (sql : Sql T) (columns : Columns) (summary_by : String) (q : Query)
    (a : Accepted sql columns summary_by q) where
  -- All rows of the list, in its order.
  abbrev pub rows : List T
  rows = select sql a.order (a.wanted ++ a.within)

  abbrev pub answer : String → List T → Result T
  answer c ys =
      page_of sql (with_cursor q c) (clamp q.limit) a.order.sort_col
        (list_take (clamp q.limit + 1) ys) a.summary

  -- A request whose cursor comes to some conditions is answered from the rows that meet them.
  apply-keyset :
      (c : String) (ks : List Condition)
      → keyset sql a.order c ≡ ok ks
      → apply sql (with_cursor q c) columns summary_by
        ≡ ok (answer c (select sql a.order (a.wanted ++ a.within ++ ks)))
  unfolding apply
  apply-keyset c ks h = rw (a.ordering, a.filters, a.range, a.summed, h) refl

  pub apply_first : apply sql (with_cursor q "") columns summary_by ≡ ok (answer "" rows)
  unfolding keyset
  apply_first =
      apply-keyset "" [] refl
      ∙ ap (λ ys. ok (answer "" ys))
          (select-append sql a.order (a.wanted ++ a.within) []
            ∙ filter-true (meets_all sql []) rows (λ x. refl))

  pub IsMarked-at :
      (n : ℕ) (x : T)
      → Reliable sql a.order rows
      → get_elem? rows n ≡ some x
      → IsMarked sql a.order x
  IsMarked-at n x r e = All-get (IsMarked sql a.order) rows n x r.marked e

  -- A request with the cursor of a row is answered from the rows that follow it.
  pub apply_next :
      (n : ℕ) (x : T)
      → Reliable sql a.order rows
      → get_elem? rows n ≡ some x
      → apply sql
          (with_cursor q (sql.encode (cursor_for sql a.order.sort_col x)))
          columns
          summary_by
        ≡ ok (answer (sql.encode (cursor_for sql a.order.sort_col x)) (list_drop (suc n) rows))
  apply_next n x r e =
      let c = cursor_for sql a.order.sort_col x in
      let m = IsMarked-at n x r e in
      let ks = beyond a.order.sort_col a.order.desc m.value (sql.id_of x) ∷ [] in
      apply-keyset (sql.encode c) ks (keyset-cursor sql a.order x m)
      ∙ ap (λ ys. ok (answer (sql.encode c) ys))
          (select-append sql a.order (a.wanted ++ a.within) ks
            ∙ filter-eq (meets_all sql ks) (after sql a.order x) rows
                (λ y. ground (arith, m.readable))
            ∙ filter-after (after sql a.order) rows n x r.in_order e)
