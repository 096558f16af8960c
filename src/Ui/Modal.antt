-- ===== src/Ui/Modal.antt =====
-- What closes a dialog and what its buttons do: frontend/src/components/ui/Modal.tsx,
-- frontend/src/components/ui/ConfirmDialog.tsx and the test of frontend/src/components/ui/Button.tsx.
-- A pressed key reaches a modal only while it is open, when the effect listens.
use workflow_enterprise_comp.Prelude.{
  String, Bool, true, false, ◌||◌, ◌≡◌, Option, none, some, is_some, str_eq, if◌then◌else◌, arith,
}
use workflow_enterprise_comp.Pages.Dialogs.{Dialogs, close_delete, confirm_delete}

-- What a user does to a dialog.
pub data Gesture : Type 0 where
  key : String → Gesture
  click_overlay click_cross click_cancel click_confirm : Gesture

-- The callback that is called.
pub data Callback : Type 0 where
  on_close on_confirm : Callback

unfoldable pub is_disabled : Bool → Bool → Bool
is_disabled disabled loading = disabled || loading

-- `disabled` and `loading` of the button, and what a click calls.
abbrev pub button : Bool → Bool → Callback → Option Callback
unfolding is_disabled
button disabled loading call = if is_disabled disabled loading then none else some call

abbrev pub on_key : String → Option Callback
on_key k = if str_eq k "Escape" then some on_close else none

abbrev pub when_open : Bool → Option Callback → Option Callback
when_open is_open call = if is_open then call else none

-- `open` and `loading` of the dialog.
unfoldable pub confirm_dialog : Bool → Bool → Gesture → Option Callback
confirm_dialog is_open loading (key k) = when_open is_open (on_key k)
confirm_dialog is_open loading click_overlay = when_open is_open (some on_close)
confirm_dialog is_open loading click_cross = when_open is_open (some on_close)
confirm_dialog is_open loading click_cancel = when_open is_open (button loading false on_close)
confirm_dialog is_open loading click_confirm = when_open is_open (button false loading on_confirm)

module _ {T : Type 0} where
  abbrev pub run_callback : Dialogs T → Option Callback → Dialogs T × Option T
  run_callback d none = (d, none)
  run_callback d (some on_close) = (close_delete d, none)
  run_callback d (some on_confirm) = confirm_delete d

  -- The question before a deletion, with whether a deletion is pending: the dialogs after a gesture,
  -- and the row that it deletes.
  unfoldable pub respond : Bool → Dialogs T → Gesture → Dialogs T × Option T
  unfolding confirm_dialog
  respond pending d g = run_callback d (confirm_dialog (is_some d.delete_target) pending g)

  -- While a deletion is pending, no gesture makes another one.
  pub respond-pending : (d : Dialogs T) (g : Gesture) → (respond true d g).1 ≡ none
  unfolding respond confirm_dialog close_delete is_disabled
  respond-pending d (key k) = ground arith
  respond-pending d click_overlay = ground arith
  respond-pending d click_cross = ground arith
  respond-pending d click_cancel = ground arith
  respond-pending d click_confirm = ground arith

  -- A gesture that deletes a row deletes the one that was asked about, and closes the question.
  pub respond-asked :
      (pending : Bool) (d : Dialogs T) (g : Gesture) (row : T)
      → (respond pending d g).1 ≡ some row
      → (d.delete_target ≡ some row) × ((respond pending d g).0.delete_target ≡ none)
  unfolding respond confirm_dialog close_delete confirm_delete is_disabled
  respond-asked pending d (key k) row h = ground arith
  respond-asked pending d click_overlay row h = ground arith
  respond-asked pending d click_cross row h = ground arith
  respond-asked pending d click_cancel row h = ground arith
  respond-asked pending d click_confirm row h = ground arith
