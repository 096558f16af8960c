-- ===== src/CursorList/Reading.antt =====
-- Reading a list of frontend/src/hooks/useCursorList.ts with the button for the next page. Once a
-- page is committed the query has another key and asks again (`Revalidation`): `again k` says
-- whether the reader waits on page k until this is answered, and so committed, before going on.
use workflow_enterprise_comp.Prelude.{
  ℕ, zero, suc, String, Bool, true, false, ◌≡◌, Option, none, some, if◌then◌else◌, refl, ap, ◌∙◌,
  arith,
}
use workflow_enterprise_comp.CursorList.{
  CursorList, Paginated, Query, need_fetch, load_next, click_next, settle, empty, shown, has_more,
  is_fetching,
}
use workflow_enterprise_comp.CursorList.Visits.{page_at, visit, visit_pages}
use workflow_enterprise_comp.CursorList.Revalidation.{
  browse, browse_first, need_fetch-browse, need_fetch-load_next-browse, visit_settled,
}

module _ {T : Type 0} (backend : Option String → Paginated T) (again : ℕ → Bool) (q : Query T) where
  -- Page k is asked for and arrives, and is asked for again.
  abbrev pub arrive : ℕ → CursorList T → CursorList T
  arrive k s = let t = settle backend s in if again k then settle backend t else t

  -- A click on the button on the way to page k; where it leads to a new page that page arrives.
  abbrev pub click : ℕ → CursorList T → CursorList T
  click k s = let t = click_next q s in if need_fetch t then arrive k t else t

  -- The list after so many clicks.
  abbrev pub read : ℕ → CursorList T
  read zero = arrive 0 empty
  read (suc n) = click (suc n) (read n)

  click_next-settled :
      (s : CursorList T) (p : Paginated T)
      → need_fetch s ≡ false
      → shown q s ≡ some p
      → click_next q s ≡ (if p.pagination.has_more then load_next s else s)
  unfolding click_next is_fetching has_more
  click_next-settled s p idle here = ground (arith, idle, here)

  need_fetch-visit : (n : ℕ) → need_fetch (visit backend n) ≡ false
  unfolding need_fetch
  need_fetch-visit n = ground (arith, visit_pages backend n n (omega arith))

  need_fetch-load_next : (n : ℕ) → need_fetch (load_next (visit backend n)) ≡ true
  unfolding need_fetch load_next
  need_fetch-load_next n = ground (arith, visit_pages backend n n (omega arith))

  shown-visit : (n : ℕ) → shown q (visit backend n) ≡ some (page_at backend n)
  unfolding shown
  shown-visit n = ground (arith, need_fetch-visit n, visit_pages backend n n (omega arith))

  click_next-visit :
      (n : ℕ)
      → click_next q (visit backend n) ≡ (
          if (page_at backend n).pagination.has_more
          then load_next (visit backend n)
          else visit backend n)
  click_next-visit n =
      click_next-settled (visit backend n) (page_at backend n) (need_fetch-visit n) (shown-visit n)

  -- Going on from a page that was not asked for again.
  pub click-more :
      (n : ℕ)
      → again (suc n) ≡ false
      → (page_at backend n).pagination.has_more ≡ true
      → click (suc n) (visit backend n) ≡ visit backend (suc n)
  unfolding visit
  click-more n fresh h = rw (click_next-visit n, h, need_fetch-load_next n, fresh) refl

  pub click-end :
      (k n : ℕ)
      → (page_at backend n).pagination.has_more ≡ false
      → click k (visit backend n) ≡ visit backend n
  click-end k n h = rw (click_next-visit n, h, need_fetch-visit n) refl

  pub read-visit_zero : again 0 ≡ false → read 0 ≡ visit backend 0
  unfolding visit
  read-visit_zero fresh = rw fresh refl

  -- Where every page is asked for again before the reader goes on, and the first page says that
  -- there is more, the button always goes on.
  pub read-browse :
      ((k : ℕ) → again k ≡ true)
      → (backend none).pagination.has_more ≡ true
      → (n : ℕ) → read n ≡ browse backend n
  unfolding browse visit_settled
  read-browse waits h zero = rw (waits 0) refl
  read-browse waits h (suc n) =
      let there =
        click_next-settled (browse backend n) (backend none) (need_fetch-browse backend n)
          ((browse_first backend n q).0) in
      ap (click (suc n)) (read-browse waits h n)
      ∙ rw (there, h, need_fetch-load_next-browse backend n, waits (suc n)) refl
