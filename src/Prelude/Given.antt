-- ===== src/Prelude/Given.antt =====
-- Texts that are not empty.
use Prim.Native.Nat.{ℕ, suc}
use Prim.Native.Char.{Char}
use Prim.Native.String.compare
use Prim.Native.String.{String}
use mathlib.Core.Path.{◌≡◌, ◌∙◌, ap}
use mathlib.Core.Bool.{true, not}
use mathlib.Core.Option.{Option, none, some}
use mathlib.Core.Logic.{inl, inr}
use text.Mathlib.Text.{is_eq}
use text.Mathlib.TextLemmas.{cons-append, nil-append}
use workflow_enterprise_comp.Prelude.Tests.{nonempty, or_else, Bool-cases}
use workflow_enterprise_comp.Prelude.Text.{◌+s◌, take}

pub nonempty-cons : (c : Char) (s : String) → nonempty (String.◌∷◌ c s) ≡ true
nonempty-cons c s = ap (λ o. not (is_eq o)) (compare.cons-nil c s)

pub nonempty-append : (s : String) (c : Char) (t : String) → nonempty (s +s String.◌∷◌ c t) ≡ true
nonempty-append String.[] c t = ap nonempty (nil-append (String.◌∷◌ c t)) ∙ nonempty-cons c t
nonempty-append (String.◌∷◌ d s) c t =
    ap nonempty (cons-append d s (String.◌∷◌ c t)) ∙ nonempty-cons d (s +s String.◌∷◌ c t)

pub nonempty-take : (n : ℕ) (s : String) → nonempty s ≡ true → nonempty (take (suc n) s) ≡ true
nonempty-take n String.[] h = h
nonempty-take n (String.◌∷◌ c s) h = nonempty-cons c (take n s)

pub or_else-nonempty :
    (o : Option String) (d : String) → nonempty d ≡ true → nonempty (or_else o d) ≡ true
or_else-nonempty none d h = h
or_else-nonempty (some s) d h = elim (Bool-cases (nonempty s)) [
  | inl full ↦ rw full full
  | inr blank ↦ rw blank h
]
