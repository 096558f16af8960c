-- ===== src/Combobox/Highlight.antt =====
-- Where the highlight stands in the list that is shown, over all that is pressed.
use workflow_enterprise_comp.Prelude.{
  false, ℕ, String, ◌<◌, ◌≡◌, ◌⊎◌, inl, inr, Bool, List, refl, arith, length,
}
use workflow_enterprise_comp.Options.{OptionItem}
use workflow_enterprise_comp.Combobox.{
  Combobox, Key, arrow_down, arrow_up, enter, escape, other, clamp, relisted, opened, typed,
  toggled, picked, cleared, hovered, key_down,
}

-- The highlight is in the list, or at 0 where the list is empty.
abbrev pub InRange : List OptionItem → Combobox → Type 0
InRange items s = (s.highlight ≡ 0) ⊎ (s.highlight < length items)

relisted-InRange :
    (before now : List OptionItem) (s : Combobox)
    → InRange before s
    → InRange now (relisted before now s)
unfolding relisted clamp
relisted-InRange before now s r = ground arith

-- What can be done to the combobox while one list of items is shown.
pub data Act (items : List OptionItem) : Type 0 where
  press : Key → Act items
  trigger : Bool → Act items
  pick : OptionItem → Act items
  write : String → Act items
  clear : Act items
  hover : (i : ℕ) → i < length items → Act items

module _ {items : List OptionItem} where
  abbrev pub act : Act items → Combobox → Combobox
  act (press key) s = key_down items key s
  act (trigger disabled) s = toggled disabled s
  act (pick item) s = picked item s
  act (write text) s = typed text s
  act clear s = cleared s
  act (hover i h) s = hovered i s

  act-InRange : (a : Act items) (s : Combobox) → InRange items s → InRange items (act a s)
  unfolding key_down toggled picked typed cleared hovered
  act-InRange (press arrow_down) s r = ground arith
  act-InRange (press arrow_up) s r = ground arith
  act-InRange (press enter) s r = ground arith
  act-InRange (press escape) s r = r
  act-InRange (press other) s r = r
  act-InRange (trigger disabled) s r = ground arith
  act-InRange (pick item) s r = r
  act-InRange (write text) s r = inl refl
  act-InRange clear s r = inl refl
  act-InRange (hover i h) s r = inr h

-- A use of the combobox that starts with one list: what is done, and the lists that arrive.
pub data Use : List OptionItem → Type 0 where
  stop : {items : List OptionItem} → Use items
  then : {items : List OptionItem} → Act items → Use items → Use items
  relist : {items : List OptionItem} → (now : List OptionItem) → Use now → Use items

abbrev pub last_items : {items : List OptionItem} → Use items → List OptionItem
last_items {items} stop = items
last_items (then a u) = last_items u
last_items (relist now u) = last_items u

abbrev pub run : {items : List OptionItem} → Use items → Combobox → Combobox
run stop s = s
run (then a u) s = run u (act a s)
run {items} (relist now u) s = run u (relisted items now s)

run-InRange_from :
    {items : List OptionItem} (u : Use items) (s : Combobox)
    → InRange items s
    → InRange (last_items u) (run u s)
run-InRange_from stop s r = r
run-InRange_from (then a u) s r = run-InRange_from u (act a s) (act-InRange a s r)
run-InRange_from {items} (relist now u) s r =
    run-InRange_from u (relisted items now s) (relisted-InRange items now s r)

-- Once the panel has been opened, the highlight stands in the list that is shown, or at 0, after
-- every sequence of keys, clicks, movements, typing and lists that arrive.
pub run-InRange :
    (items : List OptionItem) (u : Use items) (s : Combobox)
    → InRange (last_items u) (run u (opened false s))
unfolding opened
run-InRange items u s = run-InRange_from u (opened false s) (inl refl)
