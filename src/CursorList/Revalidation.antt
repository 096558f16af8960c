-- ===== src/CursorList/Revalidation.antt =====
-- What the query for a page that is committed already asks for.
use workflow_enterprise_comp.Prelude.{
  ℕ, zero, suc, true, false, ◌+◌, ◌<◌, ◌≡◌, String, [], ◌∷◌, Option, none, some, refl, ap, ◌∙◌,
  arith, length, get_elem?, length-append, length-set, get_elem?-set_self, get_elem?-some,
}
use workflow_enterprise_comp.CursorList.{
  CursorList, PageEntry, Paginated, Query, empty, commit, load_next, need_fetch, cursor, settle,
  shown, before, start_after, entry_page,
}

module _ {T : Type 0} (backend : Option String → Paginated T) where
  -- The query for a committed page asks for the first page, and its answer takes the place of the
  -- page that is shown, at the same position in the stack.
  pub settle_committed :
      (s : CursorList T) (q : Query T)
      → s.active < length s.pages
      → (cursor s ≡ none)
        × (shown q (settle backend s) ≡ some (backend none))
        × (length (settle backend s).pages ≡ length s.pages)
        × ((settle backend s).active ≡ s.active)
  unfolding settle commit cursor need_fetch shown entry_page
  settle_committed s q h =
      let (e, found) = get_elem?-some s.pages s.active h in
      ground (
        arith,
        found,
        length-set s.pages s.active (record { page = backend none; start = e.start }),
        get_elem?-set_self s.pages s.active (record { page = backend none; start = e.start }) h,
      )

  -- One page of browsing: its first query and the one that revalidates it.
  unfoldable pub visit_settled : CursorList T → CursorList T
  visit_settled s = settle backend (settle backend s)

  unfoldable pub browse : ℕ → CursorList T
  browse zero = visit_settled empty
  browse (suc n) = visit_settled (load_next (browse n))

  -- A full stack whose last page is the first page of the result.
  record EndsInFirst (n : ℕ) (s : CursorList T) : Type 0 where
    at_end : s.active ≡ n
    full : length s.pages ≡ n + 1
    last : (e : PageEntry T) × (get_elem? s.pages n ≡ some e) × (e.page ≡ backend none)

  EndsInFirst-committed :
      (n : ℕ) (s : CursorList T)
      → s.active ≡ n
      → length s.pages ≡ n + 1
      → EndsInFirst n (settle backend s)
  unfolding settle commit cursor need_fetch
  EndsInFirst-committed n s at full =
      let (e, found) = get_elem?-some s.pages s.active (omega arith) in
      let fresh : PageEntry T = record { page = backend none; start = e.start } in
      record {
        at_end = at;
        full = ground (arith, found, length-set s.pages s.active fresh);
        last = (
          fresh,
          ground (arith, found, get_elem?-set_self s.pages s.active fresh (omega arith)),
          refl,
        );
      }

  settle_new :
      (n : ℕ) (s : CursorList T)
      → s.active ≡ n
      → length s.pages ≡ n
      → ((settle backend s).active ≡ n) × (length (settle backend s).pages ≡ n + 1)
  unfolding settle commit
  settle_new n s at full = ground (
    arith,
    length-append s.pages
        (record { page = backend (cursor s); start = start_after (before s) } ∷ []),
  )

  visit_settled-EndsInFirst :
      (n : ℕ) (s : CursorList T)
      → s.active ≡ n
      → length s.pages ≡ n
      → EndsInFirst n (visit_settled s)
  unfolding visit_settled
  visit_settled-EndsInFirst n s at full =
      let (at', full') = settle_new n s at full in
      EndsInFirst-committed n (settle backend s) at' full'

  load_next_from :
      (n : ℕ) (s : CursorList T)
      → EndsInFirst n s
      → ((load_next s).active ≡ suc n)
        × ((load_next s).pages ≡ s.pages)
        × (cursor (load_next s) ≡ (backend none).pagination.next_cursor)
  unfolding load_next need_fetch cursor
  load_next_from n s p =
      let (e, found, first) = p.last in ground (arith, p.at_end, p.full, found, first)

  browse-EndsInFirst : (n : ℕ) → EndsInFirst n (browse n)
  unfolding browse
  browse-EndsInFirst zero = visit_settled-EndsInFirst 0 empty refl refl
  browse-EndsInFirst (suc n) =
      let p = browse-EndsInFirst n in
      let (at, same, _) = load_next_from n (browse n) p in
      visit_settled-EndsInFirst (suc n) (load_next (browse n)) at
        (ap length same ∙ p.full ∙ omega arith)

  pub active-browse : (n : ℕ) → (browse n).active ≡ n
  active-browse n = (browse-EndsInFirst n).at_end

  pub need_fetch-browse : (n : ℕ) → need_fetch (browse n) ≡ false
  unfolding need_fetch
  need_fetch-browse n = let p = browse-EndsInFirst n in ground (arith, p.at_end, p.full)

  pub need_fetch-load_next-browse : (n : ℕ) → need_fetch (load_next (browse n)) ≡ true
  unfolding need_fetch load_next
  need_fetch-load_next-browse n = let p = browse-EndsInFirst n in ground (arith, p.at_end, p.full)

  -- Browsing from the start to page n, with each page left once its revalidation has answered:
  -- whatever n is, the page that is shown in the end is the first one of the result, and going on
  -- asks with the cursor of the first page, so for the second page.
  pub browse_first :
      (n : ℕ) (q : Query T)
      → (shown q (browse n) ≡ some (backend none))
        × (cursor (load_next (browse n)) ≡ (backend none).pagination.next_cursor)
  unfolding shown need_fetch entry_page
  browse_first n q =
      let p = browse-EndsInFirst n in
      let (e, found, first) = p.last in
      (ground (arith, p.at_end, p.full, found, first), (load_next_from n (browse n) p).2)
