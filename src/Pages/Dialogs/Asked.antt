-- ===== src/Pages/Dialogs/Asked.antt =====
-- The rows that are deleted against those that the user was asked about.
use workflow_enterprise_comp.Prelude.{Option, none, some, List, [], ◌∷◌, ◌++◌, refl}
use mathlib.Core.List.{Sublistᴰ}
use workflow_enterprise_comp.Pages.Dialogs.{
  Dialogs, all_closed, open_create, open_edit, close_form, open_delete, close_delete,
  confirm_delete,
}

-- What the user does on a page with its dialogs.
pub data Event (T : Type 0) : Type 0 where
  new close confirm cancel : Event T
  change ask : T → Event T

abbrev pub optional : {T : Type 0} → Option T → List T
optional none = []
optional (some x) = x ∷ []

module _ {T : Type 0} where
  -- The dialogs after an event, and the row that it deletes.
  abbrev pub step : Dialogs T → Event T → Dialogs T × Option T
  step d new = (open_create d, none)
  step d close = (close_form d, none)
  step d confirm = confirm_delete d
  step d cancel = (close_delete d, none)
  step d (change row) = (open_edit row d, none)
  step d (ask row) = (open_delete row d, none)

  -- The rows deleted over a sequence of events, in order.
  abbrev pub deleted : Dialogs T → List (Event T) → List T
  deleted d [] = []
  deleted d (e ∷ es) = optional (step d e).1 ++ deleted (step d e).0 es

  abbrev pub asked_by : Event T → List T
  asked_by (ask row) = row ∷ []
  asked_by _ = []

  -- The rows that the user was asked about, in order.
  abbrev pub asked : List (Event T) → List T
  asked [] = []
  asked (e ∷ es) = asked_by e ++ asked es

  skip : (o : Option T) {xs ys : List T} → Sublistᴰ xs ys → Sublistᴰ xs (optional o ++ ys)
  skip none sub = sub
  skip (some x) sub = Sublistᴰ.cons sub

  keep :
      (o : Option T) {xs ys : List T}
      → Sublistᴰ xs ys
      → Sublistᴰ (optional o ++ xs) (optional o ++ ys)
  keep none sub = sub
  keep (some x) sub = Sublistᴰ.cons-cons refl sub

  deleted-Sublist_from :
      (es : List (Event T)) (d : Dialogs T)
      → Sublistᴰ (deleted d es) (optional d.delete_target ++ asked es)
  unfolding open_create open_edit close_form open_delete close_delete confirm_delete
  deleted-Sublist_from [] d = skip d.delete_target Sublistᴰ.slnil
  deleted-Sublist_from (new ∷ es) d = deleted-Sublist_from es (open_create d)
  deleted-Sublist_from (close ∷ es) d = deleted-Sublist_from es (close_form d)
  deleted-Sublist_from (change row ∷ es) d = deleted-Sublist_from es (open_edit row d)
  deleted-Sublist_from (confirm ∷ es) d =
      keep d.delete_target (deleted-Sublist_from es (close_delete d))
  deleted-Sublist_from (cancel ∷ es) d =
      skip d.delete_target (deleted-Sublist_from es (close_delete d))
  deleted-Sublist_from (ask row ∷ es) d =
      skip d.delete_target (deleted-Sublist_from es (open_delete row d))

  -- On a page whose dialogs are closed at first, the rows that are deleted are, in order, among
  -- those that the user was asked about: none is deleted unasked, and none twice for one question.
  pub deleted-Sublist : (es : List (Event T)) → Sublistᴰ (deleted all_closed es) (asked es)
  deleted-Sublist es = deleted-Sublist_from es all_closed
