-- ===== src/CursorList.antt =====
-- The hook `useCursorList` of frontend/src/hooks/useCursorList.ts, with the pagination types of
-- frontend/src/types/api.ts. The state of the hook is its page stack and the active index. The
-- query library is not modelled: `Query` is what it answers for the present key, and `settle` is
-- one query for the present key that succeeds, against a backend given as a function of the cursor.
pub mod Bounds
pub mod Composed
pub mod Visits
pub mod Revalidation
pub mod Reading
pub mod Revisit
use workflow_enterprise_comp.Prelude.{
  ℕ, ◌+◌, ◌-◌, String, Bool, true, false, not, ◌&&◌, Option, none, some, List, [], ◌∷◌, ◌++◌,
  if◌then◌else◌, leb, ltb, ◌==◌, get_or, length, get_elem?, set, ℤ, pos, ◌+ℤ◌, ◌-ℤ◌, is_zero,
}

-- `summary.total`, where the summary holds a number under that key, is all that is read of it.
pub record PaginationSummary : Type 0 where
  pub count : ℤ
  pub limit : ℕ
  pub has_more : Bool
  pub cursor : Option String
  pub next_cursor : Option String
  pub total : Option ℕ

pub record Paginated (T : Type 0) : Type 0 where
  pub items : List T
  pub pagination : PaginationSummary

pub record PageEntry (T : Type 0) : Type 0 where
  pub page : Paginated T
  pub start : ℤ

pub record CursorList (T : Type 0) : Type 0 where
  pub pages : List (PageEntry T)
  pub active : ℕ

-- What the query library answers for the present key.
pub record Query (T : Type 0) : Type 0 where
  pub answer : Option (Paginated T)
  pub is_pending : Bool
  pub is_fetching : Bool
  pub is_error : Bool

-- "Showing a–b", with " of n" where the total is known.
pub data RangeText : Type 0 where
  showing : (start last : ℤ) → RangeText
  showing_of : (start last : ℤ) → (total : ℕ) → RangeText

abbrev with_total : ℤ → ℤ → Option ℕ → RangeText
with_total start last none = showing start last
with_total start last (some total) = showing_of start last total

module _ {T : Type 0} where
  abbrev pub empty : CursorList T
  empty = record { pages = []; active = 0 }

  -- The effect that runs when the sort, the filters, the date range or the limit changes, where the
  -- query library has no page for the new ones yet; where it has one, see `Revisit`.
  unfoldable pub reset : CursorList T → CursorList T
  reset s = empty

  unfoldable pub need_fetch : CursorList T → Bool
  need_fetch s = leb (length s.pages) s.active

  abbrev next_cursor_of : Option (PageEntry T) → Option String
  next_cursor_of none = none
  next_cursor_of (some e) = e.page.pagination.next_cursor

  -- The cursor that the present query asks with.
  unfoldable pub cursor : CursorList T → Option String
  unfolding need_fetch
  cursor s =
      if need_fetch s
      then if s.active == 0 then none else next_cursor_of (get_elem? s.pages (s.active - 1))
      else none

  -- `next[activeIdx - 1]`, which is undefined for the first page.
  before : CursorList T → Option (PageEntry T)
  before s = if s.active == 0 then none else get_elem? s.pages (s.active - 1)

  start_after : Option (PageEntry T) → ℤ
  start_after none = pos 1 +ℤ pos 0
  start_after (some e) = e.start +ℤ e.page.pagination.count

  abbrev with_page :
      Paginated T → Option (PageEntry T) → List (PageEntry T) → ℕ → List (PageEntry T)
  with_page page none pages i = pages
  with_page page (some e) pages i = set pages i (record { page = page; start = e.start })

  -- The effect that commits the answer. At the end of the stack the slot is a new one: the active
  -- index is never past that (`Bounds`).
  unfoldable pub commit : Paginated T → CursorList T → CursorList T
  unfolding before start_after
  commit page s = record s {
    pages =
        if ltb s.active (length s.pages)
        then with_page page (get_elem? s.pages s.active) s.pages s.active
        else s.pages ++ record { page = page; start = start_after (before s) } ∷ [];
  }

  unfoldable pub load_next : CursorList T → CursorList T
  unfolding need_fetch
  load_next s = if need_fetch s then s else record s { active = s.active + 1 }

  -- `Math.max(0, i - 1)`.
  unfoldable pub load_previous : CursorList T → CursorList T
  load_previous s = record s { active = s.active - 1 }

  entry_page : Option (PageEntry T) → Option (Paginated T)
  entry_page none = none
  entry_page (some e) = some e.page

  -- The page that is shown.
  unfoldable pub shown : Query T → CursorList T → Option (Paginated T)
  unfolding need_fetch entry_page
  shown q s = if need_fetch s then q.answer else entry_page (get_elem? s.pages s.active)

  abbrev start_of : Option (PageEntry T) → ℤ
  start_of none = pos 1
  start_of (some e) = e.start

  unfoldable pub shown_start : CursorList T → ℤ
  shown_start s = start_of (get_elem? s.pages s.active)

  unfoldable pub extract_total : Option (Paginated T) → Option ℕ
  extract_total none = none
  extract_total (some p) = p.pagination.total

  unfoldable pub has_more : Option (Paginated T) → Bool
  has_more none = false
  has_more (some p) = p.pagination.has_more

  unfoldable pub range_text : ℤ → Option (Paginated T) → Option ℕ → Option RangeText
  range_text start none total = none
  range_text start (some p) total =
      if is_zero p.pagination.count
      then none
      else some (with_total start (start +ℤ p.pagination.count -ℤ pos 1) total)

  unfoldable pub is_loading : Query T → CursorList T → Bool
  unfolding need_fetch
  is_loading q s = need_fetch s && q.is_pending

  unfoldable pub is_fetching : Query T → CursorList T → Bool
  unfolding need_fetch
  is_fetching q s = need_fetch s && q.is_fetching

  unfoldable pub page_number : CursorList T → ℕ
  page_number s = s.active + 1

  -- The buttons of frontend/src/components/ui/PaginationBar.tsx, which are disabled on the first
  -- page, and where there is no more or a page is on its way.
  unfoldable pub click_previous : CursorList T → CursorList T
  unfolding load_previous
  click_previous s = if s.active == 0 then s else load_previous s

  unfoldable pub click_next : Query T → CursorList T → CursorList T
  unfolding load_next shown has_more is_fetching
  click_next q s = if has_more (shown q s) && not (is_fetching q s) then load_next s else s

  module _ (backend : Option String → Paginated T) where
    -- The query for the present key succeeds and is committed.
    unfoldable pub settle : CursorList T → CursorList T
    unfolding commit cursor
    settle s = commit (backend (cursor s)) s
