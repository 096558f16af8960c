-- ===== src/Backend/Accepts.antt =====
-- The requests that the lists of the console make, before the checks of the engine.
pub mod Clicks
pub mod AuditLogs
pub mod Lists
use workflow_enterprise_comp.Prelude.{
  ℕ, String, Bool, true, false, ◌≡◌, ◌&&◌, Option, none, some, List, [], ◌∷◌, arith, nonempty,
  truthy, refl, any, All, is_some, str_eq, eq_iff, subst, sym, ℤ, Bool-cases, inl, inr,
  if◌then◌else◌,
}
use workflow_enterprise_comp.Json.{Fields, end, field, str}
use workflow_enterprise_comp.Http.{SortSpec, SortDirection, asc, desc, direction_name}
use workflow_enterprise_comp.Constants.{lookup}
use workflow_enterprise_comp.Entities.{Role}
use workflow_enterprise_comp.Format.{Calendar}
use workflow_enterprise_comp.CursorList.Composed.{ListOptions}
use workflow_enterprise_comp.Table.{column_key}
use workflow_enterprise_comp.Pages.Cells.{PageColumn}
use workflow_enterprise_comp.Pages.Common.{filter_field, date_to_range, DateRangeValue}
use workflow_enterprise_comp.Backend.Request.{
  Checked, ok, refused, Columns, column_of, Query, Sort, DateRange, ordering_of, sort_column_of,
  direction_of, filter_conditions, range_conditions, range_column_of, Condition,
}
use workflow_enterprise_comp.Backend.Allowlists.{
  received, search_columns, received_sort, received_range,
}

abbrev pub is_ok {ℓ} : {A : Type ℓ} → Checked A → Bool
is_ok (ok a) = true
is_ok (refused e) = false

-- The sort is one that a click on a header can ask for.
abbrev pub offered : {T : Type 0} → List (PageColumn T) → Option SortSpec → Bool
offered columns none = true
offered columns (some s) =
    any (λ c. c.column.sortable && str_eq s.column (column_key c.column)) columns

pub offered_elim {ℓ} :
    {T : Type 0} (P : String → Type ℓ) (columns : List (PageColumn T)) (x : String)
    → All (λ c. c.column.sortable ≡ true → P (column_key c.column)) columns
    → any (λ c. c.column.sortable && str_eq x (column_key c.column)) columns ≡ true
    → P x
offered_elim P [] x h e = absurd (ground (arith, e))
offered_elim P (c ∷ cs) x h e =
    elim (Bool-cases (c.column.sortable && str_eq x (column_key c.column))) [
      | inl here ↦
          subst P (ground (arith, here, eq_iff x (column_key c.column)))
            (h.0 (ground (arith, here)))
      | inr away ↦ offered_elim P cs x h.1 (ground (arith, e, away))
    ]

module _ (columns : Columns) where
  abbrev pub IsAllowed : String → Type 0
  IsAllowed name = (nonempty name ≡ true) × (is_some (column_of columns name) ≡ true)

  pub filter_field-ok :
      (key text : String) (fs : Fields)
      → IsAllowed key
      → is_ok (filter_conditions columns fs) ≡ true
      → is_ok (filter_conditions columns (filter_field key text fs)) ≡ true
  unfolding filter_field filter_conditions
  filter_field-ok key text fs k h = ground (arith, k, h)

  pub filters-ok :
      (k₁ k₂ k₃ t₁ t₂ t₃ : String)
      → IsAllowed k₁
      → IsAllowed k₂
      → IsAllowed k₃
      → is_ok (
          filter_conditions columns
            (filter_field k₁ t₁ (filter_field k₂ t₂ (filter_field k₃ t₃ end))))
        ≡ true
  unfolding filter_conditions
  filters-ok k₁ k₂ k₃ t₁ t₂ t₃ a b c =
      filter_field-ok k₁ t₁ _ a (filter_field-ok k₂ t₂ _ b (filter_field-ok k₃ t₃ end c refl))

  pub range-ok :
      (parse : String → Option ℤ) (name : String) (v : DateRangeValue)
      → IsAllowed name
      → is_ok (range_conditions columns (received_range parse (date_to_range name v))) ≡ true
  unfolding range_conditions date_to_range range_column_of
  range-ok parse name v k = ground (arith, k)

  direction-ok : (d : SortDirection) → is_ok (direction_of (direction_name d)) ≡ true
  unfolding direction_of
  direction-ok asc = refl
  direction-ok desc = refl

  sort_column-ok : (name : String) → IsAllowed name → is_ok (sort_column_of columns name) ≡ true
  unfolding sort_column_of
  sort_column-ok name k = ground (arith, k)

  pub sort-ok :
      (s : SortSpec)
      → IsAllowed s.column
      → is_ok (ordering_of columns (received_sort (some s))) ≡ true
  unfolding ordering_of
  sort-ok s k = ground (arith, direction-ok s.direction, sort_column-ok s.column k)
