-- ===== src/Toasts/Timers/Ends.antt =====
-- How long the toasts stay, over the timers of frontend/src/components/ui/Toaster.tsx.
use workflow_enterprise_comp.Prelude.{
  ℕ, zero, suc, ◌+◌, ◌-◌, ◌*◌, ◌≤◌, ◌<◌, ◌≡◌, ◌∙◌, Bool, true, false, not, none, List, [], ◌∷◌,
  refl, sym, ap, subst, arith, map, ◌==◌, length, if◌then◌else◌, filter, list_drop,
}
use workflow_enterprise_comp.Toasts.{
  Toast, ToastState, initial_state, dismissed, set_dispatch, notify,
}
use workflow_enterprise_comp.Toasts.Queue.{
  push, dismiss, bridge, Rises, IsValid, step-IsValid, dismiss_later,
}
use workflow_enterprise_comp.Toasts.Timers.{
  auto_dismiss_ms, Toaster, set_timers, render, close, raise, due, fire, tick, wait, Happening,
  event, millisecond, happen, happens,
}

at : ℕ → ToastState → Toaster
at left s = record { store = s; timers = set_timers left s.toasts }

due-set_timers : (left : ℕ) (ts : List Toast) → due (set_timers (suc (suc left)) ts) ≡ none
unfolding due
due-set_timers left [] = refl
due-set_timers left (t ∷ ts) = ground (arith, due-set_timers left ts)

passed :
    (left : ℕ) (ts : List Toast)
    → map (λ (t : ℕ × ℕ). (t.0, t.1 - 1)) (set_timers (suc left) ts) ≡ set_timers left ts
passed left [] = refl
passed left (t ∷ ts) =
    let one : suc left - 1 ≡ left = omega arith in
    ap (λ k. (t.id, k) ∷ map (λ (u : ℕ × ℕ). (u.0, u.1 - 1)) (set_timers (suc left) ts)) one
    ∙ ap (λ r. (t.id, left) ∷ r) (passed left ts)

tick-at : (left : ℕ) (s : ToastState) → tick (at (suc (suc left)) s) ≡ at (suc left) s
unfolding tick at
tick-at left s =
    ap (λ o. fire o (at (suc (suc left)) s)) (due-set_timers left s.toasts)
    ∙ ap (λ r. record { store = s; timers = r }) (passed (suc left) s.toasts)

wait-at : (left : ℕ) (s : ToastState) → wait (suc left) (at (suc left) s) ≡ tick (at 1 s)
unfolding wait
wait-at zero s = refl
wait-at (suc left) s = ap (wait (suc left)) (tick-at left s) ∙ wait-at left s

wait-add : (n m : ℕ) (v : Toaster) → wait (n + m) v ≡ wait m (wait n v)
unfolding wait
wait-add zero m v = let none_more : 0 + m ≡ m = omega arith in ap (λ k. wait k v) none_more
wait-add (suc n) m v =
    let one_more : suc n + m ≡ suc (n + m) = omega arith in
    ap (λ k. wait k v) one_more ∙ wait-add n m (tick v)

idle :
    (n : ℕ) (next : ℕ) (b : Bool)
    → (wait n (record {
      store = record { toasts = []; next_id = next; bridged = b };
      timers = [];
    })).store.toasts
      ≡ []
unfolding wait tick due
idle zero next b = refl
idle (suc n) next b = idle n next b

abbrev holding : List Toast → ℕ → Bool → ToastState
holding ts next b = record { toasts = ts; next_id = next; bridged = b }

first_goes :
    (t : Toast) (ts : List Toast) (low high : ℕ)
    → Rises low (t ∷ ts) high
    → filter (λ (u : Toast). not (u.id == t.id)) (t ∷ ts) ≡ ts
first_goes t ts low high r = ground (arith, dismiss_later t.id (suc t.id) ts high (omega arith) r.1)

tick-fires :
    (t : Toast) (ts : List Toast) (next : ℕ) (b : Bool) (low high : ℕ)
    → Rises low (t ∷ ts) high
    → tick (at 1 (holding (t ∷ ts) next b)) ≡ render (holding ts next b)
unfolding tick due close dismissed at
tick-fires t ts next b low high r =
    ap (λ us. render (holding us next b)) (first_goes t ts low high r)

-- Once the time of the first of them is over, the others have all of theirs.
wait-first :
    (t : Toast) (ts : List Toast) (left n next : ℕ) (b : Bool) (low high : ℕ)
    → Rises low (t ∷ ts) high
    → left < n
    → wait n (at (suc left) (holding (t ∷ ts) next b))
      ≡ wait (n - suc left) (render (holding ts next b))
wait-first t ts left n next b low high r h =
    let rest = n - suc left in
    let split : n ≡ suc left + rest = omega arith in
    let here = at (suc left) (holding (t ∷ ts) next b) in
    ap (λ k. wait k here) split
    ∙ wait-add (suc left) rest here
    ∙ ap (wait rest) (wait-at left (holding (t ∷ ts) next b) ∙ tick-fires t ts next b low high r)

clear :
    (ts : List Toast) (left n next : ℕ) (b : Bool) (low high : ℕ)
    → Rises low ts high
    → left < auto_dismiss_ms
    → auto_dismiss_ms * length ts ≤ n
    → (wait n (at (suc left) (holding ts next b))).store.toasts ≡ []
unfolding at render
clear [] left n next b low high r h e = idle n next b
clear (t ∷ ts) left n next b low high r h e =
    ap (λ v. v.store.toasts) (wait-first t ts left n next b low high r (omega arith))
    ∙ clear ts 3999 (n - suc left) next b (suc t.id) high r.1 (omega arith) (omega arith)

record Ready (v : Toaster) : Type 0 where
  left : ℕ
  soon : left < auto_dismiss_ms
  same : v.timers ≡ set_timers (suc left) v.store.toasts
  valid : IsValid v.store

with_timers : ToastState → List (ℕ × ℕ) → Toaster
with_timers s ts = record { store = s; timers = ts }

Ready-at : (v : Toaster) (r : Ready v) → v ≡ at (suc r.left) v.store
unfolding at with_timers
Ready-at v r = ap (with_timers v.store) r.same

render-Ready : (s : ToastState) → IsValid s → Ready (render s)
unfolding render
render-Ready s valid = record { left = 3999; soon = omega arith; same = refl; valid = valid }

kept_valid :
    (t : Toast) (ts : List Toast) (next : ℕ) (b : Bool)
    → IsValid (holding (t ∷ ts) next b)
    → IsValid (holding ts next b)
unfolding dismissed
kept_valid t ts next b v =
    subst (λ us. IsValid (holding us next b)) (first_goes t ts 1 next v.rising)
      (step-IsValid (holding (t ∷ ts) next b) (dismiss t.id) v)

last-Ready :
    (ts : List Toast) (next : ℕ) (b : Bool)
    → IsValid (holding ts next b)
    → Ready (tick (at 1 (holding ts next b)))
unfolding tick due at
last-Ready [] next b v = record { left = 0; soon = omega arith; same = refl; valid = v }
last-Ready (t ∷ ts) next b v =
    subst Ready (sym (tick-fires t ts next b 1 next v.rising))
      (render-Ready (holding ts next b) (kept_valid t ts next b v))

tick-Ready :
    (left : ℕ) (s : ToastState)
    → left < auto_dismiss_ms
    → IsValid s
    → Ready (tick (at (suc left) s))
unfolding at
tick-Ready zero s h v = last-Ready s.toasts s.next_id s.bridged v
tick-Ready (suc left) s h v =
    subst Ready (sym (tick-at left s))
      (record { left = left; soon = omega arith; same = refl; valid = v })

either-Ready : (b : Bool) (u v : Toaster) → Ready u → Ready v → Ready (if b then u else v)
either-Ready true u v ru rv = ru
either-Ready false u v ru rv = rv

happen-Ready : (v : Toaster) (h : Happening) → Ready v → Ready (happen v h)
unfolding happen raise close at set_dispatch
happen-Ready v (event (push kind title description)) r =
    either-Ready v.store.bridged (render (notify kind title description v.store)) v
      (render-Ready (notify kind title description v.store)
        (step-IsValid v.store (push kind title description) r.valid))
      r
happen-Ready v (event (dismiss id)) r =
    render-Ready (dismissed id v.store) (step-IsValid v.store (dismiss id) r.valid)
happen-Ready v (event bridge) r = record {
  left = r.left;
  soon = r.soon;
  same = r.same;
  valid = step-IsValid v.store bridge r.valid;
}
happen-Ready v millisecond r =
    subst (λ u. Ready (tick u)) (sym (Ready-at v r)) (tick-Ready r.left v.store r.soon r.valid)

happens-Ready : (hs : List Happening) (v : Toaster) → Ready v → Ready (happens v hs)
happens-Ready [] v r = r
happens-Ready (h ∷ hs) v r = happens-Ready hs (happen v h) (happen-Ready v h r)

start : IsValid initial_state
start = record { few = omega arith; rising = omega arith }

-- Whatever has been raised, dismissed and waited for since the start, the toasts do not stay: when
-- nothing more is raised or dismissed by hand, five times the delay later none is shown.
pub wait-happens :
    (hs : List Happening)
    → (wait (auto_dismiss_ms * 5) (happens (render initial_state) hs)).store.toasts ≡ []
wait-happens hs =
    let v = happens (render initial_state) hs in
    let r = happens-Ready hs (render initial_state) (render-Ready initial_state start) in
    ap (λ u. (wait (auto_dismiss_ms * 5) u).store.toasts) (Ready-at v r)
    ∙ clear v.store.toasts r.left (auto_dismiss_ms * 5) v.store.next_id v.store.bridged 1
        v.store.next_id r.valid.rising r.soon (omega (arith, r.valid.few))

wait-none : (n : ℕ) (v : Toaster) → n ≡ 0 → wait n v ≡ v
unfolding wait
wait-none zero v h = refl
wait-none (suc n) v h = absurd (omega (arith, h))

leave :
    (k : ℕ) (ts : List Toast) (next : ℕ) (b : Bool) (low high : ℕ)
    → Rises low ts high
    → (wait (auto_dismiss_ms * k) (render (holding ts next b))).store.toasts ≡ list_drop k ts
unfolding at render
leave zero ts next b low high r =
    ap (λ v. v.store.toasts)
      (wait-none (auto_dismiss_ms * 0) (render (holding ts next b)) (omega arith))
leave (suc k) [] next b low high r = idle (auto_dismiss_ms * suc k) next b
leave (suc k) (t ∷ ts) next b low high r =
    let later : auto_dismiss_ms * suc k - auto_dismiss_ms ≡ auto_dismiss_ms * k = omega arith in
    ap (λ v. v.store.toasts)
      (wait-first t ts 3999 (auto_dismiss_ms * suc k) next b low high r (omega arith))
    ∙ ap (λ n. (wait n (render (holding ts next b))).store.toasts) later
    ∙ leave k ts next b (suc t.id) high r.1

-- Toasts that are shown together, in a state with rising identifiers, leave one by one: so many
-- times the delay after a render, just so many are gone, the oldest ones.
pub wait-render :
    (k : ℕ) (s : ToastState)
    → IsValid s
    → (wait (auto_dismiss_ms * k) (render s)).store.toasts ≡ list_drop k s.toasts
wait-render k s v = leave k s.toasts s.next_id s.bridged 1 s.next_id v.rising
