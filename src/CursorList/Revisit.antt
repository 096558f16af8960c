-- ===== src/CursorList/Revisit.antt =====
-- What happens in frontend/src/hooks/useCursorList.ts when the sort, the filters, the dates or the
-- limit change to ones for which the query library still has a page. In the render with the new ones
-- the active index is the old one: the effect that resets the stack and the one that commits the
-- page run one after the other, and the second still writes at that index. So the stack is an array
-- here, whose slots can be missing.
use workflow_enterprise_comp.Prelude.{
  ℕ, zero, suc, ◌+◌, ◌-◌, ◌<◌, ◌≤◌, ◌≡◌, ◌==◌, Bool, false, Option, none, some, List, [], ◌∷◌, ◌++◌,
  map, if◌then◌else◌, leb, ltb, length, get_elem?, set, refl, ap, ◌∙◌, arith, Bool-cases, inl, inr,
  get_elem?-some,
}
use workflow_enterprise_comp.CursorList.{
  CursorList, PageEntry, Paginated, Query, commit, before, start_after,
}

pub record SlotList (T : Type 0) : Type 0 where
  pub slots : List (Option (PageEntry T))
  pub active : ℕ

module _ {T : Type 0} where
  -- `next[i] = e`, which leaves slots out where the array is shorter.
  unfoldable pub assign :
      ℕ → PageEntry T → List (Option (PageEntry T)) → List (Option (PageEntry T))
  assign zero e [] = some e ∷ []
  assign zero e (x ∷ xs) = some e ∷ xs
  assign (suc i) e [] = none ∷ assign i e []
  assign (suc i) e (x ∷ xs) = x ∷ assign i e xs

  -- `next[i]`, which is undefined for a missing slot and past the end.
  abbrev pub slot : List (Option (PageEntry T)) → ℕ → Option (PageEntry T)
  slot [] i = none
  slot (x ∷ xs) zero = x
  slot (x ∷ xs) (suc i) = slot xs i

  slot_before : List (Option (PageEntry T)) → ℕ → Option (PageEntry T)
  slot_before slots i = if i == 0 then none else slot slots (i - 1)

  -- The page takes the place of the one in the slot. A missing slot has no `start`: reading it
  -- throws, and there is no stack then.
  abbrev pub replace :
      ℕ
      → Paginated T
      → Option (PageEntry T)
      → List (Option (PageEntry T))
      → Option (List (Option (PageEntry T)))
  replace i page none slots = none
  replace i page (some e) slots = some (assign i (record { page = page; start = e.start }) slots)

  -- The updater of the effect that commits.
  unfoldable pub commit_at :
      ℕ → Paginated T → List (Option (PageEntry T)) → Option (List (Option (PageEntry T)))
  unfolding slot_before start_after assign
  commit_at i page slots =
      if ltb i (length slots)
      then replace i page (slot slots i) slots
      else some (assign i (record { page = page; start = start_after (slot_before slots i) }) slots)

  abbrev pub from_start : Option (List (Option (PageEntry T))) → Option (SlotList T)
  from_start none = none
  from_start (some slots) = some (record { slots = slots; active = 0 })

  -- Both effects, by the page that the query library has for the new inputs at the old index.
  unfoldable pub change_inputs : Option (Paginated T) → CursorList T → Option (SlotList T)
  unfolding commit_at
  change_inputs none s = from_start (some [])
  change_inputs (some page) s = from_start (commit_at s.active page [])

  unfoldable pub need_fetch : SlotList T → Bool
  need_fetch s = leb (length s.slots) s.active

  abbrev pub page_of : Option (PageEntry T) → Option (Paginated T)
  page_of none = none
  page_of (some e) = some e.page

  unfoldable pub shown : Query T → SlotList T → Option (Paginated T)
  unfolding need_fetch
  shown q s = if need_fetch s then q.answer else page_of (slot s.slots s.active)

  slot-map : (es : List (PageEntry T)) (i : ℕ) → slot (map some es) i ≡ get_elem? es i
  slot-map [] i = refl
  slot-map (e ∷ es) zero = refl
  slot-map (e ∷ es) (suc i) = slot-map es i

  length-map-some : (es : List (PageEntry T)) → length (map some es) ≡ length es
  length-map-some [] = refl
  length-map-some (e ∷ es) = omega (arith, length-map-some es)

  assign-map-set :
      (es : List (PageEntry T)) (i : ℕ) (e : PageEntry T)
      → i < length es
      → assign i e (map some es) ≡ map some (set es i e)
  unfolding assign
  assign-map-set [] i e h = absurd (omega arith)
  assign-map-set (x ∷ es) zero e h = refl
  assign-map-set (x ∷ es) (suc i) e h = ap (λ l. some x ∷ l) (assign-map-set es i e (omega arith))

  assign-map-end :
      (es : List (PageEntry T)) (e : PageEntry T)
      → assign (length es) e (map some es) ≡ map some (es ++ e ∷ [])
  unfolding assign
  assign-map-end [] e = refl
  assign-map-end (x ∷ es) e = ap (λ l. some x ∷ l) (assign-map-end es e)

  slot_before-map :
      (es : List (PageEntry T)) (i : ℕ)
      → slot_before (map some es) i ≡ before (record { pages = es; active = i })
  unfolding slot_before before
  slot_before-map es i = ground (arith, slot-map es (i - 1))

  -- On a stack without missing slots this is the commit of the hook.
  pub commit_at-commit :
      (page : Paginated T) (s : CursorList T)
      → s.active ≤ length s.pages
      → commit_at s.active page (map some s.pages) ≡ some (map some (commit page s).pages)
  unfolding commit_at commit
  commit_at-commit page s h = elim (Bool-cases (ltb s.active (length s.pages))) [
    | inl inside ↦
        let lt : s.active < length s.pages = ground (arith, inside) in
        let (e, found) = get_elem?-some s.pages s.active lt in
        rw (length-map-some s.pages, inside, slot-map s.pages s.active, found)
          (ap some (assign-map-set s.pages s.active (record { page = page; start = e.start }) lt))
    | inr outside ↦
        let at_end : s.active ≡ length s.pages = ground (arith, outside, h) in
        let e : PageEntry T = record { page = page; start = start_after (before s) } in
        rw (length-map-some s.pages, outside, slot_before-map s.pages s.active)
          (ap some (ap (λ i. assign i e (map some s.pages)) at_end ∙ assign-map-end s.pages e))
  ]

  length-assign : (i : ℕ) (e : PageEntry T) → length (assign i e []) ≡ i + 1
  unfolding assign
  length-assign zero e = refl
  length-assign (suc i) e = omega (arith, length-assign i e)

  -- When the inputs change, on a page past the first, to ones for which the query library has a page
  -- at this index, the first slot is missing: the list stands on its first page, shows nothing, and
  -- counts as committed; and committing the first page of the new inputs then throws.
  pub change_inputs-Breaks :
      (page first : Paginated T) (q : Query T) (s : CursorList T)
      → 0 < s.active
      → (t : SlotList T) × (change_inputs (some page) s ≡ some t)
        × (t.active ≡ 0)
        × (need_fetch t ≡ false)
        × (shown q t ≡ none)
        × (commit_at t.active first t.slots ≡ none)
  unfolding change_inputs commit_at need_fetch shown assign slot_before
  change_inputs-Breaks page first q s h = breaks s.active h
    where
      breaks :
          (i : ℕ)
          → 0 < i
          → (t : SlotList T) × (from_start (commit_at i page []) ≡ some t)
            × (t.active ≡ 0)
            × (need_fetch t ≡ false)
            × (shown q t ≡ none)
            × (commit_at t.active first t.slots ≡ none)
      breaks zero l = absurd (omega arith)
      breaks (suc i) l =
          let e : PageEntry T = record {
            page = page;
            start = start_after (slot_before [] (suc i));
          } in
          (
            record { slots = none ∷ assign i e []; active = 0 },
            ground arith,
            refl,
            ground (arith, length-assign i e),
            ground (arith, length-assign i e),
            ground (arith, length-assign i e),
          )
