-- ===== src/Ui/Debounce.antt =====
-- The hook of frontend/src/hooks/useDebounce.ts. Time passes in steps of a millisecond; a timer is
-- the number of them that it has left. A timer of the browser fires at its time or later: here it
-- is at its time.
use workflow_enterprise_comp.Prelude.{
  ℕ, zero, suc, ◌<◌, ◌≤◌, ◌≡◌, Option, none, some, refl, ap, arith,
}

pub record Debounced (A : Type 0) : Type 0 where
  pub value : A
  pub debounced : A
  pub timer : Option ℕ

module _ {A : Type 0} where
  -- The first render, whose effect starts a timer as well.
  unfoldable pub mount : ℕ → A → Debounced A
  mount delay v = record { value = v; debounced = v; timer = some delay }

  -- A render with another value: the cleanup clears the timer and the effect starts a new one.
  unfoldable pub change : ℕ → A → Debounced A → Debounced A
  change delay v s = record s { value = v; timer = some delay }

  abbrev fire : Debounced A → Debounced A
  fire s = record s { debounced = s.value; timer = none }

  abbrev pass : ℕ → Debounced A → Debounced A
  pass zero s = fire s
  pass (suc zero) s = fire s
  pass (suc (suc n)) s = record s { timer = some (suc n) }

  abbrev step : Option ℕ → Debounced A → Debounced A
  step none s = s
  step (some n) s = pass n s

  -- A millisecond passes.
  unfoldable pub tick : Debounced A → Debounced A
  tick s = step s.timer s

  unfoldable pub wait : ℕ → Debounced A → Debounced A
  unfolding tick
  wait zero s = s
  wait (suc n) s = wait n (tick s)

  idle :
      (n : ℕ) (v d : A)
      → wait n (record { value = v; debounced = d; timer = none })
        ≡ record { value = v; debounced = d; timer = none }
  unfolding wait tick
  idle zero v d = refl
  idle (suc n) v d = idle n v d

  fired :
      (n m : ℕ) (v d : A)
      → m < n
      → (wait n (record { value = v; debounced = d; timer = some (suc m) })).debounced ≡ v
  unfolding wait tick
  fired zero m v d h = absurd (omega arith)
  fired (suc n) zero v d h = ap (λ s. s.debounced) (idle n v v)
  fired (suc n) (suc m) v d h = fired n m v d (omega arith)

  waiting :
      (n m : ℕ) (v d : A)
      → n ≤ m
      → (wait n (record { value = v; debounced = d; timer = some (suc m) })).debounced ≡ d
  unfolding wait tick
  waiting zero m v d h = refl
  waiting (suc n) zero v d h = absurd (omega arith)
  waiting (suc n) (suc m) v d h = waiting n m v d (omega arith)

  -- A value that stays as long as the delay, and for a moment at least, is taken over, whatever was pending before.
  pub wait-change :
      (delay n : ℕ) (v : A) (s : Debounced A)
      → delay ≤ n
      → 0 < n
      → (wait n (change delay v s)).debounced ≡ v
  unfolding change wait tick
  wait-change zero zero v s h l = absurd (omega arith)
  wait-change zero (suc n) v s h l = ap (λ t. t.debounced) (idle n v v)
  wait-change (suc delay) n v s h l = fired n delay v s.debounced (omega arith)

  -- Before that nothing changes: a change that is followed by another within the delay is not seen.
  pub wait-early :
      (delay n : ℕ) (v : A) (s : Debounced A)
      → n < delay
      → (wait n (change delay v s)).debounced ≡ s.debounced
  unfolding change
  wait-early zero n v s h = absurd (omega arith)
  wait-early (suc delay) n v s h = waiting n delay v s.debounced (omega arith)
