-- ===== src/Backend/Listing/Exhaustive.antt =====
-- Reading a list to its end with the button for the next page, and how far one gets where the pages
-- are asked for again meanwhile.
use workflow_enterprise_comp.Prelude.{
  ℕ, zero, suc, ◌+◌, ◌<◌, ◌≤◌, String, Bool, true, false, ◌≡◌, Option, some, List, [], ◌∷◌, ◌++◌,
  ltb, length, get_or, pos, ◌+ℤ◌, list_take, list_drop, refl, sym, ap, ◌∙◌, arith, Bool-cases, inl,
  inr, length-list_drop, length-list_take, list_take-of_le, take-append-drop,
}
use workflow_enterprise_comp.CursorList.{
  CursorList, PageEntry, Paginated, need_fetch, load_next, click_next, settle, empty, shown,
  has_more, is_fetching,
}
use workflow_enterprise_comp.CursorList
use workflow_enterprise_comp.CursorList.Visits.{
  page_at, start_at, visit, pages-visit, pages-visit_zero,
}
use workflow_enterprise_comp.CursorList.Revalidation.{active-browse, browse_first}
use workflow_enterprise_comp.CursorList.Reading.{
  read, click, click-more, click-end, read-visit_zero, read-browse,
}
use workflow_enterprise_comp.Backend.Request.{Query, ok, Columns, clamp}
use workflow_enterprise_comp.Backend.Pagination.{Sql, Result, apply}
use workflow_enterprise_comp.Backend.Pagination.Fetched.{clamp-pos}
use workflow_enterprise_comp.Backend.Pagination.Pages.{Accepted, Reliable, with_cursor, rows}
use workflow_enterprise_comp.Backend.Listing.{as_page, offset, IsCut, first-IsPage, page_at-IsPage}

module _ {T : Type 0} where
  -- The rows on the pages of a stack.
  abbrev pub rows_of : List (PageEntry T) → List T
  rows_of [] = []
  rows_of (e ∷ es) = e.page.items ++ rows_of es

  append-nil : (xs : List T) → xs ++ [] ≡ xs
  append-nil [] = refl
  append-nil (x ∷ xs) = ap (λ l. x ∷ l) (append-nil xs)

  append_assoc : (xs ys zs : List T) → xs ++ (ys ++ zs) ≡ xs ++ ys ++ zs
  append_assoc [] ys zs = refl
  append_assoc (x ∷ xs) ys zs = ap (λ l. x ∷ l) (append_assoc xs ys zs)

  rows_of-append :
      (es : List (PageEntry T)) (e : PageEntry T)
      → rows_of (es ++ e ∷ []) ≡ rows_of es ++ e.page.items
  rows_of-append [] e = append-nil e.page.items
  rows_of-append (f ∷ es) e =
      ap (λ l. f.page.items ++ l) (rows_of-append es e)
      ∙ append_assoc f.page.items (rows_of es) e.page.items

module _ {T : Type 0} (sql : Sql T) (columns : Columns) (summary_by : String) (q : Query)
    (a : Accepted sql columns summary_by q)
    (r : Reliable sql a.order (rows sql columns summary_by q a))
    (backend : Option String → Paginated T)
    (serves : (c : Option String) (p : Result T)
      → apply sql (with_cursor q (get_or c "")) columns summary_by ≡ ok p
      → backend c ≡ as_page p) where
  abbrev pub list_rows : List T
  list_rows = rows sql columns summary_by q a

  -- Where page k starts in the list, from 0.
  abbrev pub page_start : ℕ → ℕ
  page_start k = offset (clamp q.limit) k

  -- The list has a page k: its first page, or one that a row stands on.
  abbrev pub IsReached : ℕ → Type 0
  IsReached zero = Unit
  IsReached (suc k) = page_start (suc k) < length list_rows

  before-IsReached : (k : ℕ) → IsReached (suc k) → IsReached k
  before-IsReached zero h = tt
  before-IsReached (suc k) h = omega arith

  at_page :
      (k : ℕ)
      → IsReached k
      → IsCut sql a.order.sort_col (clamp q.limit) list_rows (page_start k) (page_at backend k)
  at_page zero h = first-IsPage sql columns summary_by q a r backend serves
  at_page (suc k) h = page_at-IsPage sql columns summary_by q a r backend serves (suc k) h

  length-page :
      (k : ℕ)
      → IsReached (suc k)
      → length (list_take (clamp q.limit) (list_drop (page_start k) list_rows)) ≡ clamp q.limit
  length-page k h = ground (
    arith,
    length-list_take (clamp q.limit) (list_drop (page_start k) list_rows),
    length-list_drop (page_start k) list_rows,
    h,
  )

  start_at-page : (k : ℕ) → IsReached k → start_at backend k ≡ pos (1 + page_start k)
  unfolding start_at ◌+ℤ◌
  start_at-page zero h = refl
  start_at-page (suc k) h =
      let i = before-IsReached k h in
      let p = at_page k i in ground (arith, start_at-page k i, p.count, length-page k h)

  -- For a list request that the engine accepts, on rows whose cursors are read back and hold of just
  -- the rows that follow, and a console that is answered with the engine's pages:
  -- the first page, and every page k that a row stands on, holds the list's rows from k
  -- times the page size on, as many as fit a page; its first row is numbered by its position in the
  -- list, from 1; and it says that there is more just where a row follows. So the pages neither
  -- repeat a row nor leave one out.
  pub pages_in_order :
      (k : ℕ)
      → IsReached k
      → ((page_at backend k).items ≡ list_take (clamp q.limit) (list_drop (page_start k) list_rows))
        × (start_at backend k ≡ pos (1 + page_start k))
        × ((page_at backend k).pagination.has_more
            ≡ ltb (page_start k + clamp q.limit) (length list_rows))
  pages_in_order k h = ((at_page k h).items, start_at-page k h, (at_page k h).more)

  -- Page n is the last: no row follows it.
  IsLast : ℕ → Type 0
  IsLast n = IsReached n × (length list_rows ≤ page_start n + clamp q.limit)

  find-IsLast :
      (fuel k : ℕ) → IsReached k → length list_rows < page_start k + fuel → (n : ℕ) × IsLast n
  unfolding IsLast
  find-IsLast zero k h f = (k, (h, omega arith))
  find-IsLast (suc fuel) k h f =
      let c = clamp-pos q.limit in
      elim (Bool-cases (ltb (page_start (suc k)) (length list_rows))) [
        | inl more ↦ find-IsLast fuel (suc k) (ground (arith, more)) (omega arith)
        | inr done ↦ (k, (h, ground (arith, done)))
      ]

  rows_of-visit :
      (k : ℕ)
      → IsReached k
      → rows_of (visit backend k).pages ≡ list_take (page_start (suc k)) list_rows
  rows_of-visit zero h =
      ap rows_of (pages-visit_zero backend)
      ∙ append-nil (page_at backend 0).items
      ∙ (at_page 0 tt).items
      ∙ ap (λ n. list_take n list_rows) (omega arith)
  rows_of-visit (suc k) h =
      ap rows_of (pages-visit backend k)
      ∙ rows_of-append (visit backend k).pages _
      ∙ ap (λ l. l ++ (page_at backend (suc k)).items) (rows_of-visit k (before-IsReached k h))
      ∙ ap (λ l. list_take (page_start (suc k)) list_rows ++ l) (at_page (suc k) h).items
      ∙ take-append-drop (page_start (suc k)) (clamp q.limit) list_rows

  read-visit :
      (again : ℕ → Bool) (query : CursorList.Query T)
      → ((k : ℕ) → again k ≡ false)
      → (k : ℕ) → IsReached k
      → read backend again query k ≡ visit backend k
  read-visit again query ahead zero h = read-visit_zero backend again query (ahead 0)
  read-visit again query ahead (suc k) h =
      let i = before-IsReached k h in
      ap (click backend again query (suc k)) (read-visit again query ahead k i)
      ∙ click-more backend again query k (ahead (suc k)) (ground (arith, (at_page k i).more, h))

  -- For a list request that the engine accepts, on rows whose cursors are read back and hold of just
  -- the rows that follow, a console that is answered with the engine's pages, and a reader who
  -- leaves every page before the query that asks for it again is answered: clicking for the next
  -- page comes to an end. After so many clicks the pages of the stack hold all rows of the list,
  -- each once and in its order, and a further click changes nothing.
  pub read_ends :
      (again : ℕ → Bool) (query : CursorList.Query T)
      → ((k : ℕ) → again k ≡ false)
      → (n : ℕ) × (rows_of (read backend again query n).pages ≡ list_rows)
        × (read backend again query (suc n) ≡ read backend again query n)
  unfolding IsLast
  read_ends again query ahead =
      let l = find-IsLast (length list_rows + 1) 0 tt (omega arith) in
      let b = read-visit again query ahead l.0 l.1.0 in
      (
        l.0,
        ap (λ s. rows_of s.pages) b
            ∙ rows_of-visit l.0 l.1.0
            ∙ list_take-of_le (page_start (suc l.0)) list_rows l.1.1,
        ap (click backend again query (suc l.0)) b
            ∙ click-end backend again query (suc l.0) l.0
                (ground (arith, (at_page l.0 l.1.0).more, l.1.1))
            ∙ sym b,
      )

  -- For such a request and console, and a reader who waits on every page until the query that asks
  -- for it again is answered: in a list with more rows than a page holds the reader never gets to
  -- its end. Every click goes on to a further page, and the page that is shown then is always the
  -- first one, with the first rows of the list.
  pub read_never_ends :
      (again : ℕ → Bool) (query : CursorList.Query T)
      → ((k : ℕ) → again k ≡ true)
      → clamp q.limit < length list_rows
      → (n : ℕ)
      → ((read backend again query n).active ≡ n)
        × (shown query (read backend again query n) ≡ some (page_at backend 0))
        × ((page_at backend 0).items ≡ list_take (clamp q.limit) list_rows)
  unfolding page_at
  read_never_ends again query waits large n =
      let first = at_page 0 tt in
      let b = read-browse backend again query waits (ground (arith, first.more, large)) n in
      (
        ap (λ s. s.active) b ∙ active-browse backend n,
        ap (shown query) b ∙ (browse_first backend n query).0,
        first.items,
      )
