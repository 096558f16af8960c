-- ===== src/Ui/Dropdown.antt =====
-- The menu of frontend/src/components/ui/Dropdown.tsx. What an item does is an `A`.
use workflow_enterprise_comp.Prelude.{
  ℕ, Bool, true, false, not, ◌&&◌, ◌≡◌, String, Option, none, some, List, get_elem?, str_eq,
  if◌then◌else◌, arith,
}

pub record Item (A : Type 0) : Type 0 where
  pub key : String
  pub label : String
  pub danger : Bool
  pub disabled : Bool
  pub on_select : Option A

-- What happens to a menu: its trigger, an item by its place, a press of the pointer inside or
-- outside, and a key.
pub data Event : Type 0 where
  toggled pressed_inside pressed_outside : Event
  item_clicked : ℕ → Event
  key_down : String → Event

pub record After (A : Type 0) : Type 0 where
  pub is_open : Bool
  pub selected : Option A

module _ {A : Type 0} where
  abbrev stay : Bool → After A
  stay shown = record { is_open = shown; selected = none }

  -- An item that is disabled takes no click.
  abbrev click : Option (Item A) → After A
  click none = stay true
  click (some i) =
      if i.disabled then stay true else record { is_open = false; selected = i.on_select }

  -- The listeners and the items are there only while the menu is open.
  unfoldable pub step : List (Item A) → Event → Bool → After A
  step items toggled shown = stay (not shown)
  step items pressed_inside shown = stay shown
  step items pressed_outside shown = stay false
  step items (item_clicked i) false = stay false
  step items (item_clicked i) true = click (get_elem? items i)
  step items (key_down key) shown = stay (shown && not (str_eq key "Escape"))

  -- An item is selected only from an open menu, and the menu is closed then.
  pub step-selected :
      (items : List (Item A)) (e : Event) (shown : Bool) (a : A)
      → (step items e shown).selected ≡ some a
      → (shown ≡ true) × ((step items e shown).is_open ≡ false)
  unfolding step
  step-selected items toggled shown a h = absurd (ground (arith, h))
  step-selected items pressed_inside shown a h = absurd (ground (arith, h))
  step-selected items pressed_outside shown a h = absurd (ground (arith, h))
  step-selected items (item_clicked i) false a h = absurd (ground (arith, h))
  step-selected items (item_clicked i) true a h = ground (arith, h)
  step-selected items (key_down key) shown a h = absurd (ground (arith, h))
