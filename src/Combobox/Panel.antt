-- ===== src/Combobox/Panel.antt =====
-- The panel of frontend/src/components/ui/SearchableSelect.tsx: what is asked for, what it shows, and
-- the closing by a press outside.
use workflow_enterprise_comp.Prelude.{
  ℕ, String, Bool, true, false, not, ◌&&◌, ◌||◌, ◌≡◌, Option, none, some, List, [], ◌∷◌, nonempty,
  length, ◌==◌, if◌then◌else◌, arith, filter,
}
use workflow_enterprise_comp.Options.{OptionItem}
use workflow_enterprise_comp.Combobox.{Combobox}

-- How the query of the list stands; an answer that was there before stays while it is refetched.
pub data Listing : Type 0 where
  pending : Listing
  failed : Option (List OptionItem) → Listing
  answered : List OptionItem → Listing

-- The query of the list runs while the panel is open or a search text is there.
unfoldable pub list_enabled : String → Combobox → Bool
list_enabled debounced s = s.open_panel || nonempty debounced

-- A press outside closes the panel and keeps what was typed.
unfoldable pub pressed_outside : Combobox → Combobox
pressed_outside s = record s { open_panel = false }

abbrev pub is_pending : Listing → Bool
is_pending pending = true
is_pending _ = false

abbrev pub is_failed : Listing → Bool
is_failed (failed kept) = true
is_failed _ = false

unfoldable pub is_loading : Listing → Combobox → Bool
is_loading q s = s.open_panel && is_pending q

unfoldable pub is_error : Listing → Combobox → Bool
is_error q s = s.open_panel && is_failed q

unfoldable pub is_empty : Listing → List OptionItem → Combobox → Bool
unfolding is_loading is_error
is_empty q items s =
    s.open_panel && (not (is_loading q s) && (not (is_error q s) && length items == 0))

-- Whether the panel lists its items: `!isLoading && !isError`, in an open panel.
unfoldable pub lists_items : Listing → List OptionItem → Combobox → Bool
unfolding is_loading is_error
lists_items q items s =
    s.open_panel && (not (is_loading q s) && (not (is_error q s) && not (length items == 0)))

-- The text of the trigger.
unfoldable pub label : Option OptionItem → String → Combobox → String
label selected placeholder s = if nonempty (name_or selected) then name_or selected else placeholder
  where
    name_or : Option OptionItem → String
    name_or none = s.value
    name_or (some i) = i.name

-- The button that clears the value.
unfoldable pub clear_shown : (clearable disabled : Bool) → Combobox → Bool
clear_shown clearable disabled s = clearable && (nonempty s.value && not disabled)

abbrev count_true : List Bool → ℕ
count_true bs = length (filter (λ b. b) bs)

-- An open panel shows one thing at a time: that it loads, that it failed, that nothing fits, or the
-- items; a closed one shows none of them.
pub panel_shows_one :
    (q : Listing) (items : List OptionItem) (s : Combobox)
    → count_true (is_loading q s ∷ is_error q s ∷ is_empty q items s ∷ lists_items q items s ∷ [])
      ≡ (if s.open_panel then 1 else 0)
unfolding is_loading is_error is_empty lists_items
panel_shows_one pending items s = ground arith
panel_shows_one (failed kept) items s = ground arith
panel_shows_one (answered loaded) items s = ground arith
