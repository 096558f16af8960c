-- ===== src/Ui/DateRange.antt =====
-- The two date inputs of frontend/src/components/ui/Toolbar.tsx.
use workflow_enterprise_comp.Prelude.{
  String, Bool, false, ◌||◌, ◌≡◌, Option, none, some, nonempty, truthy, if◌then◌else◌, arith, ◌↔◌,
}
use workflow_enterprise_comp.Pages.Common.{DateRangeValue, date_to_range}

pub data Edit : Type 0 where
  from_typed to_typed : String → Edit
  range_cleared : Edit

-- `text || null`.
abbrev chosen : String → Option String
chosen text = if nonempty text then some text else none

unfoldable pub edit : Edit → DateRangeValue → DateRangeValue
edit (from_typed text) v = record v { from = chosen text }
edit (to_typed text) v = record v { to = chosen text }
edit range_cleared v = record { from = none; to = none }

-- Whether the button that clears the dates is shown.
unfoldable pub clear_shown : DateRangeValue → Bool
clear_shown v = truthy v.from || truthy v.to

-- The button that clears the dates is shown just where the request has a date range.
pub clear_shown_iff :
    (column : String) (v : DateRangeValue)
    → (clear_shown v ≡ false) ↔ (date_to_range column v ≡ none)
unfolding clear_shown date_to_range
clear_shown_iff column v = ground arith
