-- ===== src/Tests/Lists.antt =====
-- Lists by cursor, and the cached pages of an optimistic deletion.
use workflow_enterprise_comp.Prelude.{
  String, true, false, ◌≡◌, Option, none, some, List, [], ◌∷◌, refl, arith, str_eq, ◌-ℤ◌,
  if◌then◌else◌, length, get_elem?, pos,
}
use workflow_enterprise_comp.CursorList.{
  CursorList, Paginated, Query, empty, cursor, load_next, settle, shown,
}
use workflow_enterprise_comp.CursorList.Bounds
use workflow_enterprise_comp.CursorList.Bounds.{IsWithin, answered, next, previous, changed}
use workflow_enterprise_comp.CursorList.Revisit
use workflow_enterprise_comp.CursorList.Revisit.{
  SlotList, change_inputs, commit_at, change_inputs-Breaks,
}
use workflow_enterprise_comp.Json.{str, field, end}
use workflow_enterprise_comp.CursorList.Composed.{ListOptions}
use workflow_enterprise_comp.CursorList.Visits.{visit, visit_pages, page_at, start_at}
use workflow_enterprise_comp.CursorList.Revalidation.{browse, browse_first, settle_committed}
use mathlib.Core.List.{Sublistᴰ}
use workflow_enterprise_comp.Pages.Dialogs.{all_closed, open_delete, confirm_delete, close_delete}
use workflow_enterprise_comp.Pages.Dialogs.Asked as Dialogs
use workflow_enterprise_comp.Pages.Optimistic.{without, count-without, holds}

abbrev page_of : List String → Option String → Paginated String
page_of items next_cursor = record {
  items = items;
  pagination = record {
    count = pos (length items);
    limit = 2;
    has_more = true;
    cursor = none;
    next_cursor = next_cursor;
    total = none;
  };
}

abbrev backend : Option String → Paginated String
backend none = page_of ("a" ∷ "b" ∷ []) (some "k1")
backend (some k) =
    if str_eq k "k1" then page_of ("c" ∷ "d" ∷ []) (some "k2") else page_of ("e" ∷ []) none

abbrev idle_query : Query String
idle_query = record { answer = none; is_pending = false; is_fetching = false; is_error = false }

third_cursor : cursor (load_next (settle backend (load_next (settle backend empty)))) ≡ some "k2"
unfolding cursor load_next settle
third_cursor = refl

visit_pages_example :
    ((visit backend 2).active ≡ 2)
    × (length (visit backend 2).pages ≡ 3)
    × (get_elem? (visit backend 2).pages 1
        ≡ some (record { page = page_at backend 1; start = start_at backend 1 }))
visit_pages_example = visit_pages backend 2 1 (omega arith)

browse_first_example :
    (shown idle_query (browse backend 2) ≡ some (backend none))
    × (cursor (load_next (browse backend 2)) ≡ some "k1")
browse_first_example = browse_first backend 2 idle_query

abbrev list_options : ListOptions
list_options = record {
  limit = none;
  sort = none;
  filters = some (field "status" (str "open") end);
  date_range = none;
  include_summary = none;
}

abbrev second_page : CursorList String
second_page = record { pages = record { page = backend none; start = pos 1 } ∷ []; active = 1 }

abbrev one_page : CursorList String
one_page = record { pages = record { page = backend (some "k1"); start = pos 1 } ∷ []; active = 0 }

settle_committed_example :
    (cursor one_page ≡ none)
    × (shown idle_query (settle backend one_page) ≡ some (backend none))
    × (length (settle backend one_page).pages ≡ 1)
    × ((settle backend one_page).active ≡ 0)
settle_committed_example = settle_committed backend one_page idle_query (omega arith)

change_inputs-Breaks_example :
    (t : SlotList String) × (change_inputs (some (backend (some "k1"))) second_page ≡ some t)
    × (t.active ≡ 0)
    × (Revisit.need_fetch t ≡ false)
    × (Revisit.shown idle_query t ≡ none)
    × (commit_at t.active (backend none) t.slots ≡ none)
change_inputs-Breaks_example =
    change_inputs-Breaks (backend (some "k1")) (backend none) idle_query second_page (omega arith)

run-IsWithin_example :
    IsWithin (Bounds.run empty (answered (backend none) ∷ next ∷ next ∷ previous ∷ changed ∷ []))
run-IsWithin_example =
    Bounds.run-IsWithin (answered (backend none) ∷ next ∷ next ∷ previous ∷ changed ∷ [])

abbrev id_of : String → String
id_of x = x

count-without_example :
    (holds id_of "z" (without id_of "z" (backend none)).items ≡ false)
    × ((without id_of "z" (backend none)).pagination.count ≡ pos 1)
unfolding without ◌-ℤ◌
count-without_example = count-without id_of "z" (backend none) (refl, (refl, tt)) refl

abbrev dialog_events : List (Dialogs.Event String)
dialog_events =
    Dialogs.ask "a" ∷ Dialogs.cancel ∷ Dialogs.ask "b" ∷ Dialogs.confirm ∷ Dialogs.confirm ∷ []

deleted_once : Dialogs.deleted all_closed dialog_events ≡ "b" ∷ []
unfolding open_delete confirm_delete close_delete
deleted_once = refl

deleted-Sublist_example :
    Sublistᴰ (Dialogs.deleted all_closed dialog_events) (Dialogs.asked dialog_events)
deleted-Sublist_example = Dialogs.deleted-Sublist dialog_events
