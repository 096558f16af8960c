-- ===== src/Tests/Screens.antt =====
-- Toasts, tables, comboboxes, labels and times.
use workflow_enterprise_comp.Prelude.{
  String, true, false, ◌≡◌, none, some, List, [], ◌∷◌, refl, arith, any, str_eq, pos, list_drop,
  ◌*◌,
}
use workflow_enterprise_comp.Toasts.{ToastState, initial_state, success, error}
use workflow_enterprise_comp.Toasts.Queue
use workflow_enterprise_comp.Toasts.Queue.{push, dismiss, bridge, has_id, dismissed_one}
use workflow_enterprise_comp.Toasts.Timers
use workflow_enterprise_comp.Toasts.Timers.Ends.{wait-happens, wait-render}
use workflow_enterprise_comp.Toasts.Timers.{
  event, millisecond, auto_dismiss_ms, wait, happens, render,
}
use workflow_enterprise_comp.Format.{relative, days}
use workflow_enterprise_comp.Format.Elapsed.{Tells, relative-Tells}
use workflow_enterprise_comp.Table.{Column}
use workflow_enterprise_comp.Options.{OptionItem}
use workflow_enterprise_comp.Combobox.{Combobox, opened, arrow_down, enter, merged}
use workflow_enterprise_comp.Combobox.Highlight
use workflow_enterprise_comp.Combobox.Highlight.{InRange, Use, press, relist, stop}
use workflow_enterprise_comp.Combobox.Merging.{HasDistinctIds, merged-HasDistinctIds}

abbrev events : List Queue.Event
events = bridge ∷ push success "Saved" none ∷ push error "Failed" (some "Conflict") ∷ dismiss 1 ∷ []

run-IsValid_example : Queue.IsValid (Queue.run initial_state events)
run-IsValid_example = Queue.run-IsValid events

abbrev two_toasts : ToastState
two_toasts = record {
  toasts =
      record { id = 1; kind = success; title = "Saved"; description = none }
      ∷ record { id = 2; kind = error; title = "Failed"; description = none }
      ∷ [];
  next_id = 3;
  bridged = true;
}

two_toasts-IsValid : Queue.IsValid two_toasts
two_toasts-IsValid = record { few = omega arith; rising = ground arith }

abbrev busy : List Timers.Happening
busy =
    event bridge
    ∷ event (push success "Saved" none)
    ∷ millisecond
    ∷ event (push error "Failed" none)
    ∷ millisecond
    ∷ event (dismiss 1)
    ∷ []

wait-happens_example :
    (wait (auto_dismiss_ms * 5) (happens (render initial_state) busy)).store.toasts ≡ []
wait-happens_example = wait-happens busy

wait-render_example :
    (wait (auto_dismiss_ms * 1) (render two_toasts)).store.toasts ≡ list_drop 1 two_toasts.toasts
wait-render_example = wait-render 1 two_toasts two_toasts-IsValid

two_days : relative (pos 172800000) ≡ days 2
unfolding relative
two_days = refl

relative-Tells_example : Tells 90000 (relative (pos 90000))
relative-Tells_example = relative-Tells 90000

abbrev title_column : Column
title_column = record { key = "title"; sortable = true; sort_key = none }

abbrev due_column : Column
due_column = record { key = "due"; sortable = true; sort_key = some "due_date" }

abbrev option_of : String → OptionItem
option_of id = record { id = id; name = id; sub = none }

abbrev options : List OptionItem
options = option_of "u1" ∷ option_of "u2" ∷ []

abbrev closed_box : Combobox
closed_box = record { open_panel = false; query = ""; highlight = 7; value = "" }

abbrev use_of_box : Use options
use_of_box =
    Use.then (press arrow_down)
      (relist (option_of "u1" ∷ []) (Use.then (press arrow_down) (Use.then (press enter) stop)))

run-InRange_example :
    InRange (option_of "u1" ∷ []) (Highlight.run use_of_box (opened false closed_box))
run-InRange_example = Highlight.run-InRange options use_of_box closed_box

merged-HasDistinctIds_example :
    HasDistinctIds (merged (some (option_of "u9")) options)
    × (any (λ (j : OptionItem). str_eq j.id "u9") (merged (some (option_of "u9")) options) ≡ true)
merged-HasDistinctIds_example = merged-HasDistinctIds (option_of "u9") options (refl, (refl, tt))
