-- ===== src/Pages/Dialogs.antt =====
-- The dialogs of a list page, as in frontend/src/features/audits/pages/AuditsPage.tsx: the form for
-- a new record or one that is edited, and the question before a deletion. The pages differ in what
-- they call; `submit` stands for that.
pub mod Asked
use workflow_enterprise_comp.Prelude.{String, Bool, true, false, ◌||◌, Option, none, some, is_some}
use workflow_enterprise_comp.Client.{Request}

pub record Dialogs (T : Type 0) : Type 0 where
  pub create_open : Bool
  pub edit_target : Option T
  pub delete_target : Option T

module _ {T : Type 0} where
  abbrev pub all_closed : Dialogs T
  all_closed = record { create_open = false; edit_target = none; delete_target = none }

  unfoldable pub open_create : Dialogs T → Dialogs T
  open_create d = record d { create_open = true }

  unfoldable pub open_edit : T → Dialogs T → Dialogs T
  open_edit row d = record d { edit_target = some row }

  -- `onClose` of the form, and what `onSubmit` does once the mutation has succeeded.
  unfoldable pub close_form : Dialogs T → Dialogs T
  close_form d = record d { create_open = false; edit_target = none }

  unfoldable pub form_open : Dialogs T → Bool
  form_open d = d.create_open || is_some d.edit_target

  unfoldable pub open_delete : T → Dialogs T → Dialogs T
  open_delete row d = record d { delete_target = some row }

  unfoldable pub close_delete : Dialogs T → Dialogs T
  close_delete d = record d { delete_target = none }

  -- `onConfirm`, with the row that it deletes, if there is one.
  unfoldable pub confirm_delete : Dialogs T → Dialogs T × Option T
  unfolding close_delete
  confirm_delete d = (close_delete d, d.delete_target)

  -- `onSubmit` up to the mutation: the record that the form's values go to, if it edits one.
  unfoldable pub submit_form : {V : Type 0} → (Option T → V → Request) → V → Dialogs T → Request
  submit_form submit values d = submit d.edit_target values
