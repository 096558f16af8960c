-- ===== src/Combobox.antt =====
-- The combobox of frontend/src/components/ui/SearchableSelect.tsx: its state, the list that it
-- shows, and its keys and clicks. `value` is the form's field, which `onChange` sets. The list that
-- the server sent and the item of the stored value are arguments; `lower` is `toLowerCase`.
pub mod Highlight
pub mod Merging
pub mod Panel
use Prim.Native.Char.{Char, code}
use Prim.Native.String
use workflow_enterprise_comp.Prelude.{
  ℕ, ◌+◌, ◌-◌, String, Bool, true, false, not, ◌&&◌, ◌||◌, Option, none, some, List, [], ◌∷◌,
  str_eq, nonempty, get_or, ltb, leb, ◌==◌, if◌then◌else◌, length, get_elem?, filter, any, trim,
}
use workflow_enterprise_comp.Options.{OptionItem}

pub record Combobox : Type 0 where
  pub open_panel : Bool
  pub query : String
  pub highlight : ℕ
  pub value : String

starts : String → String → Bool
starts String.[] s = true
starts (String.◌∷◌ c q) String.[] = false
starts (String.◌∷◌ c q) (String.◌∷◌ d s) = code c == code d && starts q s

-- `s.includes(q)`.
includes : String → String → Bool
unfolding starts
includes q String.[] = starts q String.[]
includes q (String.◌∷◌ c s) = starts q (String.◌∷◌ c s) || includes q s

has_item : String → List OptionItem → Bool
has_item id items = any (λ (i : OptionItem). str_eq i.id id) items

-- The stored value's item goes first where the loaded list lacks it.
unfoldable pub merged : Option OptionItem → List OptionItem → List OptionItem
unfolding has_item
merged none loaded = loaded
merged (some selected) loaded =
    if not (has_item selected.id loaded) then selected ∷ loaded else loaded

module _ (lower : String → String) where
  fits : String → OptionItem → Bool
  unfolding includes
  fits q i = includes q (lower i.name) || includes q (lower (get_or i.sub ""))

  unfoldable pub shown_items : String → List OptionItem → List OptionItem
  unfolding fits
  shown_items query items =
      if nonempty (lower (trim query)) then filter (fits (lower (trim query))) items else items

-- The effect that runs when the number of items changes.
unfoldable pub clamp : List OptionItem → Combobox → Combobox
clamp items s =
    if leb (length items) s.highlight then record s { highlight = length items - 1 } else s

-- The list changes: the effect runs if its length does.
unfoldable pub relisted : List OptionItem → List OptionItem → Combobox → Combobox
unfolding clamp
relisted before now s = if length now == length before then s else clamp now s

unfoldable pub opened : Bool → Combobox → Combobox
opened disabled s =
    if disabled then s else record s { open_panel = true; query = ""; highlight = 0 }

unfoldable pub closed : Combobox → Combobox
closed s = record s { open_panel = false; query = "" }

-- A click on the trigger, which does nothing while it is disabled.
unfoldable pub toggled : Bool → Combobox → Combobox
unfolding opened closed
toggled disabled s = if disabled then s else if s.open_panel then closed s else opened disabled s

unfoldable pub picked : OptionItem → Combobox → Combobox
unfolding closed
picked item s = closed (record s { value = item.id })

unfoldable pub cleared : Combobox → Combobox
cleared s = record s { value = ""; query = ""; highlight = 0 }

unfoldable pub typed : String → Combobox → Combobox
typed text s = record s { query = text; highlight = 0 }

unfoldable pub hovered : ℕ → Combobox → Combobox
hovered i s = record s { highlight = i }

pub data Key : Type 0 where
  arrow_down arrow_up enter escape other : Key

abbrev min : ℕ → ℕ → ℕ
min a b = if ltb a b then a else b

abbrev picked_if : Option OptionItem → Combobox → Combobox
unfolding picked
picked_if none s = s
picked_if (some item) s = picked item s

-- `onKeyDown`, over the items that are shown.
unfoldable pub key_down : List OptionItem → Key → Combobox → Combobox
unfolding closed picked
key_down items arrow_down s = record s { highlight = min (s.highlight + 1) (length items - 1) }
key_down items arrow_up s = record s { highlight = s.highlight - 1 }
key_down items enter s = picked_if (get_elem? items s.highlight) s
key_down items escape s = closed s
key_down items other s = s
