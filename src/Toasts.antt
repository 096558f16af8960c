-- ===== src/Toasts.antt =====
-- The toasts: frontend/src/store/toast.slice.ts. The module variables `nextId` and `dispatchRef`
-- stand in the state, the second by whether store/index.ts has set it.
pub mod Queue
pub mod Timers
use workflow_enterprise_comp.Prelude.{
  ℕ, ◌+◌, String, Bool, true, false, not, Option, none, some, List, [], ◌∷◌, ◌++◌, ◌==◌, ltb,
  if◌then◌else◌, length, filter,
}

pub data ToastKind : Type 0 where
  success error info warning : ToastKind

pub record Toast : Type 0 where
  pub id : ℕ
  pub kind : ToastKind
  pub title : String
  pub description : Option String

pub record ToastState : Type 0 where
  pub toasts : List Toast
  pub next_id : ℕ
  pub bridged : Bool

abbrev pub initial_state : ToastState
initial_state = record { toasts = []; next_id = 1; bridged = false }

-- `toasts.shift()`.
shift : List Toast → List Toast
shift [] = []
shift (t ∷ ts) = ts

keep_five : List Toast → List Toast
unfolding shift
keep_five ts = if ltb 5 (length ts) then shift ts else ts

unfoldable pub pushed : ToastKind → String → Option String → ToastState → ToastState
unfolding keep_five
pushed kind title description s = record s {
  toasts = keep_five (
      s.toasts
      ++ record { id = s.next_id; kind = kind; title = title; description = description } ∷ []);
  next_id = s.next_id + 1;
}

unfoldable pub dismissed : ℕ → ToastState → ToastState
dismissed id s = record s { toasts = filter (λ (t : Toast). not (t.id == id)) s.toasts }

-- `setDispatch(store.dispatch)`.
unfoldable pub set_dispatch : ToastState → ToastState
set_dispatch s = record s { bridged = true }

-- `dispatchRef?.(…)`.
unfoldable pub notify : ToastKind → String → Option String → ToastState → ToastState
unfolding pushed
notify kind title description s = if s.bridged then pushed kind title description s else s
