-- ===== src/Backend/Accepts/Clicks.antt =====
-- The sort that clicks on the headers of a table lead to.
use workflow_enterprise_comp.Prelude.{
  ℕ, zero, suc, Bool, true, ◌≡◌, Option, none, some, List, [], ◌∷◌, get_elem?, arith, refl, eq_refl,
  any, Option-cases, inl, inr, Bool-cases,
}
use workflow_enterprise_comp.Http.{SortSpec}
use workflow_enterprise_comp.Table.{toggle_sort, column_key}
use workflow_enterprise_comp.Table.Sorting.{toggle_sort-kept, toggle_sort-sorted, sort_on-column}
use workflow_enterprise_comp.Pages.Cells.{PageColumn}
use workflow_enterprise_comp.Backend.Accepts.{offered}

any-get :
    {A : Type 0} (p : A → Bool) (xs : List A) (i : ℕ) (x : A)
    → get_elem? xs i ≡ some x
    → p x ≡ true
    → any p xs ≡ true
any-get p [] i x e h = absurd (ground (arith, e))
any-get p (y ∷ ys) zero x e h = ground (arith, e, h)
any-get p (y ∷ ys) (suc i) x e h = ground (arith, any-get p ys i x e h)

module _ {T : Type 0} (columns : List (PageColumn T)) where
  abbrev clicked_on : Option (PageColumn T) → Option SortSpec → Option SortSpec
  clicked_on none sort = sort
  clicked_on (some c) sort = toggle_sort c.column sort

  -- The sort after clicks on the headers of the columns at these positions, the last first.
  abbrev pub after_clicks : List ℕ → Option SortSpec
  after_clicks [] = none
  after_clicks (i ∷ is) = clicked_on (get_elem? columns i) (after_clicks is)

  toggle_sort-offered :
      (c : PageColumn T) (i : ℕ) (sort : Option SortSpec)
      → get_elem? columns i ≡ some c
      → offered columns sort ≡ true
      → offered columns (toggle_sort c.column sort) ≡ true
  toggle_sort-offered c i sort e h = elim (Bool-cases c.column.sortable) [
    | inl s ↦ rw (toggle_sort-sorted c.column sort s) (
        any-get _ columns i c e (
          ground
            (arith, s, sort_on-column (column_key c.column) sort, eq_refl (column_key c.column))))
    | inr f ↦ rw (toggle_sort-kept c.column sort f) h
  ]

  -- Whatever headers are clicked, the list is not sorted, or sorted by a column that can be.
  pub after_clicks-offered : (is : List ℕ) → offered columns (after_clicks is) ≡ true
  after_clicks-offered [] = refl
  after_clicks-offered (i ∷ is) = elim (Option-cases (get_elem? columns i)) [
    | inl e ↦ rw e (after_clicks-offered is)
    | inr (c, e) ↦ rw e (toggle_sort-offered c i (after_clicks is) e (after_clicks-offered is))
  ]
