-- ===== src/CursorList/Bounds.antt =====
-- Where the active index stands, over all that moves it, and how long the stack is.
use workflow_enterprise_comp.Prelude.{
  ℕ, ◌+◌, ◌≤◌, ◌<◌, ◌≡◌, ◌⊎◌, List, [], ◌∷◌, Option, none, some, refl, arith, length, get_elem?,
  length-append, length-set,
}
use workflow_enterprise_comp.CursorList.{
  CursorList, PageEntry, Paginated, Query, empty, reset, commit, load_next, load_previous,
  click_next, click_previous, with_page, before, start_after,
}

-- What moves the hook: an answer for the present key, the two buttons, the two functions behind
-- them, and a change of the sort, filters or dates to ones that no page is cached for.
pub data Event (T : Type 0) : Type 0 where
  answered : Paginated T → Event T
  next previous changed : Event T
  next_clicked : Query T → Event T
  previous_clicked : Event T

module _ {T : Type 0} where
  abbrev pub step : CursorList T → Event T → CursorList T
  step s (answered page) = commit page s
  step s next = load_next s
  step s previous = load_previous s
  step s changed = reset s
  step s (next_clicked q) = click_next q s
  step s previous_clicked = click_previous s

  abbrev pub run : CursorList T → List (Event T) → CursorList T
  run s [] = s
  run s (e ∷ es) = run (step s e) es

  abbrev pub IsWithin : CursorList T → Type 0
  IsWithin s = s.active ≤ length s.pages

  length-with_page :
      (page : Paginated T) (e : Option (PageEntry T)) (pages : List (PageEntry T)) (i : ℕ)
      → length (with_page page e pages i) ≡ length pages
  length-with_page page none pages i = refl
  length-with_page page (some e) pages i = length-set pages i _

  -- An answer never shortens the stack, and adds one page if it is for a new one.
  pub length-commit :
      (page : Paginated T) (s : CursorList T)
      → IsWithin s
      → ((s.active < length s.pages) × (length (commit page s).pages ≡ length s.pages))
        ⊎ ((s.active ≡ length s.pages) × (length (commit page s).pages ≡ length s.pages + 1))
  unfolding commit
  length-commit page s h = ground (
    arith,
    length-with_page page (get_elem? s.pages s.active) s.pages s.active,
    length-append s.pages (record { page = page; start = start_after (before s) } ∷ []),
  )

  step-IsWithin : (s : CursorList T) (e : Event T) → IsWithin s → IsWithin (step s e)
  unfolding load_next load_previous reset click_next click_previous commit
  step-IsWithin s (answered page) h = ground (
    arith,
    length-with_page page (get_elem? s.pages s.active) s.pages s.active,
    length-append s.pages (record { page = page; start = start_after (before s) } ∷ []),
  )
  step-IsWithin s next h = ground arith
  step-IsWithin s previous h = ground arith
  step-IsWithin s changed h = ground arith
  step-IsWithin s (next_clicked q) h = ground arith
  step-IsWithin s previous_clicked h = ground arith

  run-IsWithin_from : (es : List (Event T)) (s : CursorList T) → IsWithin s → IsWithin (run s es)
  run-IsWithin_from [] s h = h
  run-IsWithin_from (e ∷ es) s h = run-IsWithin_from es (step s e) (step-IsWithin s e h)

  -- In every sequence of answers, moves, clicks and changes of the query to ones that no page is
  -- cached for, the active index is at most the number of committed pages: the page before it is
  -- committed, so its cursor is known.
  pub run-IsWithin : (es : List (Event T)) → IsWithin (run empty es)
  run-IsWithin es = run-IsWithin_from es empty (omega arith)
