-- ===== src/CursorList/Visits.antt =====
-- The pages that are reached by going on from page to page, before any of them is asked for again.
use workflow_enterprise_comp.Prelude.{
  ℕ, zero, suc, ◌+◌, ◌≤◌, ◌≡◌, String, [], ◌∷◌, ◌++◌, Option, none, some, refl, arith, length,
  get_elem?, length-append, get_elem?-append_left, get_elem?-append_length, ℤ, pos, ◌+ℤ◌,
}
use workflow_enterprise_comp.CursorList.{
  CursorList, PageEntry, Paginated, empty, commit, load_next, need_fetch, cursor, settle, before,
  start_after,
}

module _ {T : Type 0} (backend : Option String → Paginated T) where
  -- The pages of the result in order: each is asked for by the cursor that the one before gives.
  unfoldable pub page_at : ℕ → Paginated T
  page_at zero = backend none
  page_at (suc n) = backend (page_at n).pagination.next_cursor

  -- The position of the first row of a page in the whole result, from 1.
  unfoldable pub start_at : ℕ → ℤ
  start_at zero = pos 1 +ℤ pos 0
  start_at (suc n) = start_at n +ℤ (page_at n).pagination.count

  entry_at : ℕ → PageEntry T
  entry_at n = record { page = page_at n; start = start_at n }

  unfoldable pub visit : ℕ → CursorList T
  visit zero = settle backend empty
  visit (suc n) = settle backend (load_next (visit n))

  -- A stack of the first pages, with its end shown.
  record IsPrefix (n : ℕ) (s : CursorList T) : Type 0 where
    at_end : s.active ≡ n
    full : length s.pages ≡ n + 1
    pages : (i : ℕ) → i ≤ n → get_elem? s.pages i ≡ some (entry_at i)

  load_next_at :
      (n : ℕ) (s : CursorList T) → IsPrefix n s → load_next s ≡ record s { active = suc n }
  unfolding load_next need_fetch
  load_next_at n s p = ground (arith, p.at_end, p.full)

  cursor_at :
      (n : ℕ) (s : CursorList T)
      → IsPrefix n s
      → cursor (record s { active = suc n }) ≡ (page_at n).pagination.next_cursor
  unfolding cursor need_fetch entry_at
  cursor_at n s p = ground (arith, p.full, p.pages n)

  pages-settle_at :
      (n : ℕ) (s : CursorList T)
      → IsPrefix n s
      → settle backend (record s { active = suc n })
        ≡ record { pages = s.pages ++ entry_at (suc n) ∷ []; active = suc n }
  unfolding settle commit before start_after entry_at page_at start_at
  pages-settle_at n s p = ground (arith, p.full, p.pages n, cursor_at n s p)

  IsPrefix-append :
      (n : ℕ) (s : CursorList T)
      → IsPrefix n s
      → IsPrefix (suc n) (record { pages = s.pages ++ entry_at (suc n) ∷ []; active = suc n })
  IsPrefix-append n s p = record {
    at_end = refl;
    full = omega (arith, p.full, length-append {0} s.pages (entry_at (suc n) ∷ []));
    pages = λ i h. ground (
      arith,
      p.full,
      p.pages i,
      get_elem?-append_left s.pages (entry_at (suc n) ∷ []) i,
      get_elem?-append_length s.pages (entry_at (suc n)),
    );
  }

  first_pages : (i : ℕ) → i ≤ 0 → get_elem? (settle backend empty).pages i ≡ some (entry_at i)
  unfolding settle commit cursor need_fetch before start_after entry_at page_at start_at
  first_pages zero h = refl
  first_pages (suc i) h = absurd (omega arith)

  first-IsPrefix : IsPrefix 0 (settle backend empty)
  unfolding settle commit
  first-IsPrefix = record { at_end = refl; full = refl; pages = first_pages }

  visit-IsPrefix : (n : ℕ) → IsPrefix n (visit n)
  unfolding visit
  visit-IsPrefix zero = first-IsPrefix
  visit-IsPrefix (suc n) =
      let p = visit-IsPrefix n in
      rw (load_next_at n (visit n) p, pages-settle_at n (visit n) p) (IsPrefix-append n (visit n) p)

  pub pages-visit_zero : (visit 0).pages ≡ record { page = page_at 0; start = start_at 0 } ∷ []
  unfolding visit settle commit cursor need_fetch before start_after page_at start_at
  pages-visit_zero = refl

  pub pages-visit :
      (n : ℕ)
      → (visit (suc n)).pages
        ≡ (visit n).pages ++ record { page = page_at (suc n); start = start_at (suc n) } ∷ []
  unfolding visit entry_at
  pages-visit n =
      let p = visit-IsPrefix n in
      rw (load_next_at n (visit n) p, pages-settle_at n (visit n) p) refl

  -- Going on from the start to page n, each page answered once before the next is asked for: the
  -- stack holds the pages of the result from the first to page n, each asked for by the cursor of
  -- the one before, and each with the position of its first row, and page n is the active one.
  pub visit_pages :
      (n i : ℕ)
      → i ≤ n
      → ((visit n).active ≡ n)
        × (length (visit n).pages ≡ n + 1)
        × (get_elem? (visit n).pages i ≡ some (record { page = page_at i; start = start_at i }))
  unfolding entry_at
  visit_pages n i h = let p = visit-IsPrefix n in (p.at_end, p.full, p.pages i h)
