-- ===== src/Toasts/Timers.antt =====
-- The timers of frontend/src/components/ui/Toaster.tsx over the toasts of the store. Time passes in
-- steps of a millisecond, and a timer is the number of them that it has left. The effect of a
-- `ToastItem` depends on `onDismiss`, which every render of the Toaster makes anew, and the Toaster
-- renders whenever the array of toasts is another one: so a render sets every timer again. Of the
-- timers that are due at a time the first fires, and the render that follows clears the others.
pub mod Ends
use workflow_enterprise_comp.Prelude.{
  ℕ, zero, suc, ◌-◌, String, Option, none, some, List, [], ◌∷◌, map, leb, if◌then◌else◌,
}
use workflow_enterprise_comp.Toasts.{Toast, ToastKind, ToastState, dismissed, set_dispatch, notify}
use workflow_enterprise_comp.Toasts.Queue.{Event, push, dismiss, bridge}

abbrev pub auto_dismiss_ms : ℕ
auto_dismiss_ms = 4000

pub record Toaster : Type 0 where
  pub store : ToastState
  pub timers : List (ℕ × ℕ)

abbrev pub set_timers : ℕ → List Toast → List (ℕ × ℕ)
set_timers left ts = map (λ (t : Toast). (t.id, left)) ts

unfoldable pub render : ToastState → Toaster
render s = record { store = s; timers = set_timers auto_dismiss_ms s.toasts }

-- `onDismiss`, by the timer or by a click on the cross.
unfoldable pub close : ℕ → Toaster → Toaster
unfolding render
close id v = render (dismissed id v.store)

unfoldable pub raise : ToastKind → String → Option String → Toaster → Toaster
unfolding render
raise kind title description v =
    if v.store.bridged then render (notify kind title description v.store) else v

unfoldable pub due : List (ℕ × ℕ) → Option ℕ
due [] = none
due (t ∷ ts) = if leb t.1 1 then some t.0 else due ts

abbrev pub fire : Option ℕ → Toaster → Toaster
fire none v = record v { timers = map (λ (t : ℕ × ℕ). (t.0, t.1 - 1)) v.timers }
fire (some id) v = close id v

-- A millisecond passes.
unfoldable pub tick : Toaster → Toaster
unfolding due close
tick v = fire (due v.timers) v

unfoldable pub wait : ℕ → Toaster → Toaster
unfolding tick
wait zero v = v
wait (suc n) v = wait n (tick v)

-- What happens: an event of the store, or a millisecond.
pub data Happening : Type 0 where
  event : Event → Happening
  millisecond : Happening

unfoldable pub happen : Toaster → Happening → Toaster
unfolding raise close tick
happen v (event (push kind title description)) = raise kind title description v
happen v (event (dismiss id)) = close id v
happen v (event bridge) = record v { store = set_dispatch v.store }
happen v millisecond = tick v

abbrev pub happens : Toaster → List Happening → Toaster
happens v [] = v
happens v (h ∷ hs) = happens (happen v h) hs
