-- ===== src/Prelude/Text.antt =====
-- Texts: `s.trim()`, `s.slice(0, n)`, `s.length` and `+`. The program's texts are sequences of
-- UTF-16 units and these of characters, which differ outside the basic plane only; the length counts
-- the units all the same.
use Prim.Native.Nat.{ℕ, zero, suc, ◌+◌}
use Prim.Native.Char.{Char, code}
use Prim.Native.String
use Prim.Native.String.{String}
use mathlib.Core.Bool.{Bool, ◌&&◌, ◌||◌}
use workflow_enterprise_comp.Prelude.Tests.{leb, ◌==◌, if◌then◌else◌}

infixl 65 ◌+s◌
abbrev pub ◌+s◌ : String → String → String
s +s t = String.◌++◌ s t

-- White space and line ends, as ECMAScript lists them.
unfoldable pub is_space : Char → Bool
is_space c =
    (leb 9 (code c) && leb (code c) 13)
    || code c == 32
    || code c == 160
    || code c == 0x1680
    || (leb 0x2000 (code c) && leb (code c) 0x200a)
    || code c == 0x2028
    || code c == 0x2029
    || code c == 0x202f
    || code c == 0x205f
    || code c == 0x3000
    || code c == 0xfeff

unfoldable pub trim_start : String → String
trim_start String.[] = String.[]
trim_start (String.◌∷◌ c s) = if is_space c then trim_start s else String.◌∷◌ c s

-- Blanks at the end are dropped once nothing else follows them.
unfoldable pub cons_unless_blank : Char → String → String
cons_unless_blank c String.[] = if is_space c then String.[] else String.◌∷◌ c String.[]
cons_unless_blank c (String.◌∷◌ d s) = String.◌∷◌ c (String.◌∷◌ d s)

unfoldable pub trim_end : String → String
unfolding cons_unless_blank
trim_end String.[] = String.[]
trim_end (String.◌∷◌ c s) = cons_unless_blank c (trim_end s)

unfoldable pub trim : String → String
unfolding trim_start trim_end
trim s = trim_end (trim_start s)

abbrev pub take : ℕ → String → String
take zero s = String.[]
take (suc n) String.[] = String.[]
take (suc n) (String.◌∷◌ c s) = String.◌∷◌ c (take n s)

-- The characters past the first 2^16 take two units of UTF-16.
abbrev pub units : Char → ℕ
units c = if leb 0x10000 (code c) then 2 else 1

-- `s.length`, which counts units of UTF-16.
abbrev pub size : String → ℕ
size String.[] = 0
size (String.◌∷◌ c s) = units c + size s
