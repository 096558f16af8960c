-- ===== src/Prelude/Trim.antt =====
-- What `trim` leaves: no blank at either end, and a text that a second `trim` keeps.
use Prim.Native.Char.{Char}
use Prim.Native.String.{String}
use mathlib.Core.Path.{◌≡◌, refl, ap, ◌∙◌}
use mathlib.Core.Bool.{false}
use native.Mathlib.Omega.{arith}
use mathlib.Core.Logic.{inl, inr}
use workflow_enterprise_comp.Prelude.Tests.{Bool-cases}
use workflow_enterprise_comp.Prelude.Text.{is_space, trim_start, trim_end, trim, cons_unless_blank}

abbrev pub NoLeadingBlank : String → Type 0
NoLeadingBlank String.[] = Unit
NoLeadingBlank (String.◌∷◌ c s) = is_space c ≡ false

abbrev pub NoTrailingBlank : String → Type 0
NoTrailingBlank String.[] = Unit
NoTrailingBlank (String.◌∷◌ c String.[]) = is_space c ≡ false
NoTrailingBlank (String.◌∷◌ c (String.◌∷◌ d s)) = NoTrailingBlank (String.◌∷◌ d s)

trim_start-NoLeadingBlank : (s : String) → NoLeadingBlank (trim_start s)
unfolding trim_start
trim_start-NoLeadingBlank String.[] = tt
trim_start-NoLeadingBlank (String.◌∷◌ c s) = ground (arith, trim_start-NoLeadingBlank s)

cons-NoTrailingBlank :
    (c : Char) (t : String) → NoTrailingBlank t → NoTrailingBlank (cons_unless_blank c t)
unfolding cons_unless_blank
cons-NoTrailingBlank c String.[] h = elim (Bool-cases (is_space c)) [
  | inl blank ↦ rw blank tt
  | inr solid ↦ rw solid solid
]
cons-NoTrailingBlank c (String.◌∷◌ d t) h = h

trim_end-NoTrailingBlank : (s : String) → NoTrailingBlank (trim_end s)
unfolding trim_end
trim_end-NoTrailingBlank String.[] = tt
trim_end-NoTrailingBlank (String.◌∷◌ c s) =
    cons-NoTrailingBlank c (trim_end s) (trim_end-NoTrailingBlank s)

cons-NoLeadingBlank :
    (c : Char) (t : String) → is_space c ≡ false → NoLeadingBlank (cons_unless_blank c t)
unfolding cons_unless_blank
cons-NoLeadingBlank c String.[] h = elim (Bool-cases (is_space c)) [
  | inl blank ↦ rw blank tt
  | inr solid ↦ rw solid solid
]
cons-NoLeadingBlank c (String.◌∷◌ d t) h = h

trim_end-NoLeadingBlank : (s : String) → NoLeadingBlank s → NoLeadingBlank (trim_end s)
unfolding trim_end
trim_end-NoLeadingBlank String.[] h = tt
trim_end-NoLeadingBlank (String.◌∷◌ c s) h = cons-NoLeadingBlank c (trim_end s) h

-- A trimmed text has no blank at either end.
pub trim_ends : (s : String) → NoLeadingBlank (trim s) × NoTrailingBlank (trim s)
unfolding trim
trim_ends s = (
  trim_end-NoLeadingBlank (trim_start s) (trim_start-NoLeadingBlank s),
  trim_end-NoTrailingBlank (trim_start s),
)

trim_start_same : (s : String) → NoLeadingBlank s → trim_start s ≡ s
unfolding trim_start
trim_start_same String.[] h = refl
trim_start_same (String.◌∷◌ c s) h = ground (arith, h)

trim_end_same : (s : String) → NoTrailingBlank s → trim_end s ≡ s
unfolding trim_end cons_unless_blank
trim_end_same String.[] h = refl
trim_end_same (String.◌∷◌ c String.[]) h = ground (arith, h)
trim_end_same (String.◌∷◌ c (String.◌∷◌ d s)) h =
    ap (cons_unless_blank c) (trim_end_same (String.◌∷◌ d s) h)

-- A text with no blank at either end is its own trimmed text.
pub trim_same : (s : String) → NoLeadingBlank s → NoTrailingBlank s → trim s ≡ s
unfolding trim
trim_same s h k = ap trim_end (trim_start_same s h) ∙ trim_end_same s k

pub trim-trim : (s : String) → trim (trim s) ≡ trim s
trim-trim s = let (h, k) = trim_ends s in trim_same (trim s) h k
