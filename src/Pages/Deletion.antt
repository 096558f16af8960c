-- ===== src/Pages/Deletion.antt =====
-- A deletion on a list page from the confirmation to its end, as in
-- frontend/src/features/audits/pages/AuditsPage.tsx: `ConfirmDialog` and `deleteMutation`. What the
-- pages put in differs, and stands in a `DeletePage`. Of the query library's cache it holds the
-- pages of the list, and whether they are marked as out of date.
pub mod Instances
use workflow_enterprise_comp.Prelude.{
  String, Bool, true, false, ◌≡◌, Option, none, some, List, [], ◌∷◌, refl, ap, if◌then◌else◌,
}
use workflow_enterprise_comp.Client.{Request, ApiError, user_message}
use workflow_enterprise_comp.Toasts.{ToastState, error, notify}
use workflow_enterprise_comp.Pages.Common.{Mutation, Outcome, succeeded, failed, lost, finish, note}
use workflow_enterprise_comp.Pages.Dialogs.{Dialogs, open_delete, confirm_delete, close_delete}
use workflow_enterprise_comp.CursorList.{Paginated}
use workflow_enterprise_comp.Pages.Optimistic.{
  remove_cached, restore, HasDistinctKeys, restore-remove_cached, IsGone, remove_cached-IsGone,
}

pub record DeletePage (T : Type 0) : Type 0 where
  pub id_of : T → String
  pub list_key : String
  pub title : String
  pub question : T → String
  pub remove : Mutation String (Unit {0})

-- The cached pages of the list, by their keys.
abbrev pub Cached : Type 0 → Type 0
Cached T = List (String × Option (Paginated T))

pub record DeleteState (T : Type 0) : Type 0 where
  pub dialogs : Dialogs T
  pub cache : Cached T
  pub snapshot : Option (Cached T)
  pub is_stale : Bool
  pub toasts : ToastState

module _ {T : Type 0} (p : DeletePage T) where
  -- The text of the dialog.
  unfoldable pub description : Option T → String
  description none = ""
  description (some row) = p.question row

  -- `onMutate`.
  unfoldable pub mutate : String → DeleteState T → DeleteState T
  mutate id s = record s { cache = remove_cached p.id_of id s.cache; snapshot = some s.cache }

  start_delete : Option T → DeleteState T → DeleteState T × Option Request
  unfolding mutate
  start_delete none s = (s, none)
  start_delete (some row) s = (mutate (p.id_of row) s, some (p.remove.request (p.id_of row)))

  -- `onConfirm`, with the request that it makes.
  unfoldable pub confirm : DeleteState T → DeleteState T × Option Request
  unfolding start_delete confirm_delete
  confirm s =
      let asked = confirm_delete s.dialogs in start_delete asked.1 (record s { dialogs = asked.0 })

  put_back : Option (Cached T) → Cached T → Cached T
  put_back none cache = cache
  put_back (some snapshot) cache = restore p.id_of snapshot cache

  restored : Outcome (Unit {0}) → DeleteState T → Cached T
  unfolding put_back
  restored (succeeded x) s = s.cache
  restored _ s = put_back s.snapshot s.cache

  -- `onError` or `onSuccess`, and `onSettled`, which marks the list as out of date.
  unfoldable pub settle : Outcome (Unit {0}) → DeleteState T → DeleteState T
  unfolding restored finish
  settle outcome s = record s {
    cache = restored outcome s;
    is_stale = true;
    toasts = finish p.remove outcome s.toasts;
  }

  -- A deletion that the user confirms and the backend refuses makes one request, for the row that
  -- was asked about. After it the question is closed, the cached pages of the list are as they were
  -- before, if their keys differ and nothing else has changed them, they are marked as out of date,
  -- and a toast tells why.
  pub settle-confirm_refused :
      (row : T) (e : ApiError) (s : DeleteState T)
      → s.dialogs.delete_target ≡ some row
      → HasDistinctKeys p.id_of s.cache
      → ((confirm s).1 ≡ some (p.remove.request (p.id_of row)))
        × ((settle (failed e) (confirm s).0).dialogs.delete_target ≡ none)
        × ((settle (failed e) (confirm s).0).cache ≡ s.cache)
        × ((settle (failed e) (confirm s).0).is_stale ≡ true)
        × ((settle (failed e) (confirm s).0).toasts
            ≡ notify error p.remove.failure (some (user_message e)) s.toasts)
  unfolding settle confirm mutate close_delete finish restored put_back start_delete confirm_delete
  settle-confirm_refused row e s h distinct =
      rw h (refl, refl, restore-remove_cached p.id_of (p.id_of row) s.cache distinct, refl, refl)

  -- A deletion that the user confirms and the backend makes: no cached page of the list shows the
  -- row from the confirmation on, and the success is told.
  pub settle-confirm_made :
      (row : T) (s : DeleteState T)
      → s.dialogs.delete_target ≡ some row
      → (IsGone p.id_of (p.id_of row) (confirm s).0.cache)
        × (IsGone p.id_of (p.id_of row) (settle (succeeded tt) (confirm s).0).cache)
        × ((settle (succeeded tt) (confirm s).0).toasts
            ≡ (let n = p.remove.success_note tt in notify n.kind n.title n.description s.toasts))
  unfolding settle confirm mutate close_delete finish restored start_delete confirm_delete
  settle-confirm_made row s h =
      let gone = remove_cached-IsGone p.id_of (p.id_of row) s.cache in rw h (gone, gone, refl)
