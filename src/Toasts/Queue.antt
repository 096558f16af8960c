-- ===== src/Toasts/Queue.antt =====
-- The queue of toasts: its length and its identifiers, over all that pushes and dismisses them.
use workflow_enterprise_comp.Prelude.{
  ℕ, suc, ◌+◌, ◌≤◌, ◌<◌, ◌≡◌, String, Bool, true, false, not, Option, List, [], ◌∷◌, ◌++◌, refl,
  arith, ◌==◌, length, filter, any, length-append, length-filter-le,
}
use workflow_enterprise_comp.Toasts.{
  Toast, ToastKind, ToastState, initial_state, shift, keep_five, pushed, dismissed, set_dispatch,
  notify,
}

-- The identifiers rise from the first toast to the last, between two bounds.
abbrev pub Rises : ℕ → List Toast → ℕ → Type 0
Rises low [] high = low ≤ high
Rises low (t ∷ ts) high = (low ≤ t.id) × Rises (suc t.id) ts high

pub record IsValid (s : ToastState) : Type 0 where
  pub few : length s.toasts ≤ 5
  pub rising : Rises 1 s.toasts s.next_id

Rises-weaken :
    (low low' : ℕ) (ts : List Toast) (high : ℕ)
    → low' ≤ low
    → Rises low ts high
    → Rises low' ts high
Rises-weaken low low' [] high h r = omega arith
Rises-weaken low low' (t ∷ ts) high h r = (omega (arith, r.0), r.1)

Rises-append :
    (low : ℕ) (ts : List Toast) (t : Toast)
    → Rises low ts t.id
    → Rises low (ts ++ t ∷ []) (t.id + 1)
Rises-append low [] t r = omega arith
Rises-append low (u ∷ ts) t r = (r.0, Rises-append (suc u.id) ts t r.1)

Rises-shift : (low : ℕ) (ts : List Toast) (high : ℕ) → Rises low ts high → Rises low (shift ts) high
unfolding shift
Rises-shift low [] high r = r
Rises-shift low (t ∷ ts) high r = Rises-weaken (suc t.id) low ts high (omega (arith, r.0)) r.1

Rises-keep_five :
    (low : ℕ) (ts : List Toast) (high : ℕ) → Rises low ts high → Rises low (keep_five ts) high
unfolding keep_five
Rises-keep_five low ts high r = ground (arith, Rises-shift low ts high r)

length-keep_five : (ts : List Toast) → length ts ≤ 6 → length (keep_five ts) ≤ 5
unfolding keep_five shift
length-keep_five [] h = ground arith
length-keep_five (t ∷ ts) h = ground arith

Rises-filter :
    (p : Toast → Bool) (low : ℕ) (ts : List Toast) (high : ℕ)
    → Rises low ts high
    → Rises low (filter p ts) high
Rises-filter p low [] high r = r
Rises-filter p low (t ∷ ts) high r =
    let later = Rises-filter p (suc t.id) ts high r.1 in
    ground (arith, Rises-weaken (suc t.id) low (filter p ts) high)

-- What happens to the toasts: a call of the helper, a dismissal by hand or by the timer, and the
-- store's start.
pub data Event : Type 0 where
  push : ToastKind → String → Option String → Event
  dismiss : ℕ → Event
  bridge : Event

abbrev pub step : ToastState → Event → ToastState
step s (push kind title description) = notify kind title description s
step s (dismiss id) = dismissed id s
step s bridge = set_dispatch s

abbrev pub run : ToastState → List Event → ToastState
run s [] = s
run s (e ∷ es) = run (step s e) es

pub pushed-IsValid :
    (kind : ToastKind) (title : String) (description : Option String) (s : ToastState)
    → IsValid s
    → IsValid (pushed kind title description s)
unfolding pushed
pushed-IsValid kind title description s v =
    let t : Toast = record {
      id = s.next_id;
      kind = kind;
      title = title;
      description = description;
    } in
    record {
      few =
          length-keep_five (s.toasts ++ t ∷ [])
            (omega (arith, v.few, length-append {0} s.toasts (t ∷ [])));
      rising =
          Rises-keep_five 1 (s.toasts ++ t ∷ []) (s.next_id + 1)
            (Rises-append 1 s.toasts t v.rising);
    }

pub step-IsValid : (s : ToastState) (e : Event) → IsValid s → IsValid (step s e)
unfolding notify dismissed set_dispatch
step-IsValid s (push kind title description) v =
    ground (arith, pushed-IsValid kind title description s v)
step-IsValid s (dismiss id) v = record {
  few = omega (arith, v.few, length-filter-le {0} (λ (t : Toast). not (t.id == id)) s.toasts);
  rising = Rises-filter (λ (t : Toast). not (t.id == id)) 1 s.toasts s.next_id v.rising;
}
step-IsValid s bridge v = record { few = v.few; rising = v.rising }

run-IsValid_from : (es : List Event) (s : ToastState) → IsValid s → IsValid (run s es)
run-IsValid_from [] s v = v
run-IsValid_from (e ∷ es) s v = run-IsValid_from es (step s e) (step-IsValid s e v)

-- After any sequence of toasts, dismissals and starts, at most five toasts are shown, and their
-- identifiers rise strictly from 1 on and stay below the next one to be given.
pub run-IsValid : (es : List Event) → IsValid (run initial_state es)
run-IsValid es =
    run-IsValid_from es initial_state (record { few = omega arith; rising = omega arith })

abbrev pub has_id : ℕ → Toast → Bool
has_id id t = t.id == id

pub dismiss_later :
    (id low : ℕ) (ts : List Toast) (high : ℕ)
    → id < low
    → Rises low ts high
    → filter (λ (t : Toast). not (t.id == id)) ts ≡ ts
dismiss_later id low [] high h r = refl
dismiss_later id low (t ∷ ts) high h r =
    ground (arith, dismiss_later id (suc t.id) ts high (omega (arith, r.0)) r.1)

dismiss_one :
    (id low : ℕ) (ts : List Toast) (high : ℕ)
    → Rises low ts high
    → any (has_id id) ts ≡ true
    → length (filter (λ (t : Toast). not (t.id == id)) ts) + 1 ≡ length ts
dismiss_one id low [] high r h = ground arith
dismiss_one id low (t ∷ ts) high r h =
    ground (arith, dismiss_one id (suc t.id) ts high r.1, dismiss_later id (suc t.id) ts high)

dismiss_all :
    (id : ℕ) (ts : List Toast)
    → any (has_id id) (filter (λ (t : Toast). not (t.id == id)) ts) ≡ false
dismiss_all id [] = refl
dismiss_all id (t ∷ ts) = ground (arith, dismiss_all id ts)

-- Dismissing a toast that is shown, in a state with rising identifiers, takes exactly one away, and
-- none with its identifier is left.
pub dismissed_one :
    (id : ℕ) (s : ToastState)
    → IsValid s
    → any (has_id id) s.toasts ≡ true
    → (length (dismissed id s).toasts + 1 ≡ length s.toasts)
      × (any (has_id id) (dismissed id s).toasts ≡ false)
unfolding dismissed
dismissed_one id s v h = (dismiss_one id 1 s.toasts s.next_id v.rising h, dismiss_all id s.toasts)
