-- ===== src/Backend/Listing.antt =====
-- The list hook of frontend/src/hooks/useCursorList.ts on the pages that the engine of
-- backend/internal/pagination/pagination.go answers with.
pub mod Exhaustive
use workflow_enterprise_comp.Prelude.{
  ℕ, zero, suc, ◌+◌, ◌-◌, ◌<◌, ◌≤◌, String, Bool, true, false, ◌≡◌, ◌⊎◌, Option, none, some, List,
  [], ◌∷◌, ◌++◌, if◌then◌else◌, ltb, length, get_elem?, get_or, nonempty, ℤ, pos, ◌+ℤ◌, list_take,
  list_drop, last?, refl, sym, ap, ◌∙◌, arith, list_take-take, last?-list_take, length-list_drop,
  get_elem?-list_drop, get_elem?-some, ltb→lt,
}
use workflow_enterprise_comp.CursorList.{Paginated}
use workflow_enterprise_comp.CursorList.Visits.{page_at, start_at}
use workflow_enterprise_comp.Backend.Request.{Query, Checked, ok, Columns, clamp}
use workflow_enterprise_comp.Backend.Pagination.{
  Sql, Result, Summary, DbSummary, apply, page_of, cursor_for,
}
use workflow_enterprise_comp.Backend.Pagination.Fetched.{items-fetched, more-fetched, clamp-pos}
use workflow_enterprise_comp.Backend.Pagination.Pages.{
  Accepted, Reliable, with_cursor, rows, answer, apply_first, apply_next, IsMarked-at, IsMarked,
}

-- `omitempty`.
abbrev pub unless_blank : String → Option String
unless_blank s = if nonempty s then some s else none

abbrev total_of : Option DbSummary → Option ℕ
total_of none = none
total_of (some s) = some s.total

-- An answer as the console reads it.
unfoldable pub as_page : {T : Type 0} → Result T → Paginated T
as_page r = record {
  items = r.items;
  pagination = record {
    count = pos r.pagination.count;
    limit = r.pagination.limit;
    has_more = r.pagination.has_more;
    cursor = unless_blank r.pagination.cursor;
    next_cursor = unless_blank r.pagination.next_cursor;
    total = total_of r.pagination.db_summary;
  };
}

-- Where a page starts in the result, from 0.
abbrev pub offset : ℕ → ℕ → ℕ
offset limit zero = 0
offset limit (suc k) = offset limit k + limit

module _ {T : Type 0} (sql : Sql T) (col : String) (limit : ℕ) where
  -- A page of so many rows from a position of the result.
  pub record IsCut (all_rows : List T) (n : ℕ) (p : Paginated T) : Type 0 where
    pub items : p.items ≡ list_take limit (list_drop n all_rows)
    pub count : p.pagination.count ≡ pos (length (list_take limit (list_drop n all_rows)))
    pub more : p.pagination.has_more ≡ ltb (n + limit) (length all_rows)
    pub next :
        p.pagination.has_more ≡ true
        → (x : T) × (get_elem? all_rows (n + limit - 1) ≡ some x)
          × (p.pagination.next_cursor ≡ unless_blank (sql.encode (cursor_for sql col x)))

  last-fetched :
      (m n : ℕ) (rows' : List T)
      → n + suc m < length rows'
      → last? (list_take (suc m) (list_take (suc m + 1) (list_drop n rows')))
        ≡ get_elem? rows' (n + suc m - 1)
  last-fetched m n rows' h =
      ap last? (list_take-take (suc m) (suc m + 1) (list_drop n rows') (omega arith))
      ∙ last?-list_take m (list_drop n rows') (omega (arith, length-list_drop n rows'))
      ∙ get_elem?-list_drop n m rows'
      ∙ ap (get_elem? rows') (omega arith)

  last-fetched_at :
      (k n : ℕ) (rows' : List T)
      → 0 < k
      → n + k < length rows'
      → last? (list_take k (list_take (k + 1) (list_drop n rows'))) ≡ get_elem? rows' (n + k - 1)
  last-fetched_at zero n rows' l h = absurd (omega arith)
  last-fetched_at (suc m) n rows' l h = last-fetched m n rows' h

  more-cut :
      (n : ℕ) (rows' : List T)
      → ltb limit (length (list_take (limit + 1) (list_drop n rows')))
        ≡ ltb (n + limit) (length rows')
  more-cut n rows' =
      ground (arith, more-fetched limit (list_drop n rows'), length-list_drop n rows')

  next-cut :
      (q : Query) (s : Option DbSummary) (n : ℕ) (rows' : List T)
      → 0 < limit
      → ltb (n + limit) (length rows') ≡ true
      → (x : T) × (get_elem? rows' (n + limit - 1) ≡ some x)
        × ((as_page (
              page_of sql q limit col
                (list_take (limit + 1) (list_drop n rows'))
                s)).pagination.next_cursor
            ≡ unless_blank (sql.encode (cursor_for sql col x)))
  unfolding as_page page_of
  next-cut q s n rows' l h =
      let g = get_elem?-some rows' (n + limit - 1) (ground (arith, h)) in
      (
        g.0,
        g.1,
        ground (
          arith,
          more-cut n rows',
          last-fetched_at limit n rows' l (ltb→lt (n + limit) (length rows') h),
          g.1,
          h,
        ),
      )

  page_of-IsCut :
      (q : Query) (s : Option DbSummary) (n : ℕ) (rows' : List T)
      → 0 < limit
      → IsCut rows' n
          (as_page (page_of sql q limit col (list_take (limit + 1) (list_drop n rows')) s))
  unfolding as_page page_of
  page_of-IsCut q s n rows' l = record {
    items = items-fetched limit (list_drop n rows');
    count = ap (λ ys. pos (length ys)) (items-fetched limit (list_drop n rows'));
    more = more-cut n rows';
    next = λ h. next-cut q s n rows' l (sym (more-cut n rows') ∙ h);
  }

module _ {T : Type 0} (sql : Sql T) (columns : Columns) (summary_by : String) (q : Query)
    (a : Accepted sql columns summary_by q)
    (r : Reliable sql a.order (rows sql columns summary_by q a))
    (backend : Option String → Paginated T)
    (serves : (c : Option String) (p : Result T)
      → apply sql (with_cursor q (get_or c "")) columns summary_by ≡ ok p
      → backend c ≡ as_page p) where
  abbrev pub all_rows : List T
  all_rows = rows sql columns summary_by q a

  abbrev pub page_size : ℕ
  page_size = clamp q.limit

  abbrev pub IsPage : ℕ → Paginated T → Type 0
  IsPage = λ n p. IsCut sql a.order.sort_col page_size all_rows n p

  first-IsPage : IsPage 0 (page_at backend 0)
  unfolding page_at
  first-IsPage =
      rw
        (serves none (answer sql columns summary_by q a "" all_rows)
          (apply_first sql columns summary_by q a))
        (page_of-IsCut sql a.order.sort_col page_size (with_cursor q "") a.summary 0 all_rows
          ((clamp-pos q.limit).0))

  next-IsPage :
      (n : ℕ) (p : Paginated T)
      → IsPage n p
      → p.pagination.has_more ≡ true
      → IsPage (n + page_size) (backend p.pagination.next_cursor)
  next-IsPage n p i h =
      let g = i.next h in
      let c = cursor_for sql a.order.sort_col g.0 in
      let asked : p.pagination.next_cursor ≡ some (sql.encode c) = ground (
        arith,
        g.2,
        (IsMarked-at sql columns summary_by q a (n + page_size - 1) g.0 r g.1).printed,
      ) in
      let at : suc (n + page_size - 1) ≡ n + page_size = omega (arith, clamp-pos q.limit) in
      let answered =
        serves (some (sql.encode c)) _
          (apply_next sql columns summary_by q a (n + page_size - 1) g.0 r g.1) in
      rw (asked, answered, at)
        (page_of-IsCut sql a.order.sort_col page_size (with_cursor q (sql.encode c)) a.summary
          (n + page_size) all_rows ((clamp-pos q.limit).0))

  -- Every page that is reached where there is more is the next cut of the rows.
  page_at-IsPage :
      (k : ℕ)
      → offset page_size k < length all_rows
      → IsPage (offset page_size k) (page_at backend k)
  unfolding page_at
  page_at-IsPage zero h = first-IsPage
  page_at-IsPage (suc k) h =
      let i = page_at-IsPage k (omega arith) in
      next-IsPage (offset page_size k) (page_at backend k) i (ground (arith, i.more, h))
