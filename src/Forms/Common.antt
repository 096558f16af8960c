-- ===== src/Forms/Common.antt =====
-- What the submit handlers of the forms share: errors by field, dates between an entity and an
-- input, and the message of a failed submission.
use Prim.Native.Char.{Char, code}
use workflow_enterprise_comp.Prelude.{
  ℕ, String, Bool, true, false, not, ◌&&◌, ◌||◌, Option, none, some, List, [], ◌∷◌, nonempty, take,
  trim, is_space, if◌then◌else◌, ◌+s◌, ◌==◌, ltb,
}
use workflow_enterprise_comp.Client.{ApiError, user_message}

-- `if (test) e.field = message`.
abbrev pub check : Bool → String → String → List (String × String)
check test field message = if test then (field, message) ∷ [] else []

abbrev pub is_empty {ℓ} : {A : Type ℓ} → List A → Bool
is_empty [] = true
is_empty (x ∷ xs) = false

-- `!s.trim()`.
abbrev pub blank : String → Bool
blank s = not (nonempty (trim s))

-- `date ? date.slice(0, n) : ""`.
abbrev pub sliced : ℕ → Option String → String
sliced n none = ""
sliced n (some s) = if nonempty s then take n s else ""

-- `` date ? `${date}suffix` : null ``.
abbrev pub stamped : String → String → Option String
stamped suffix s = if nonempty s then some (s +s suffix) else none

-- `ApiError.is(err) ? err.userMessage : …`.
abbrev pub failure_message : Option ApiError → String
failure_message none = "Something went wrong. Please try again."
failure_message (some e) = user_message e

-- `s < t` on texts.
unfoldable pub text_lt : String → String → Bool
text_lt s String.[] = false
text_lt String.[] (String.◌∷◌ d t) = true
text_lt (String.◌∷◌ c s) (String.◌∷◌ d t) =
    ltb (code c) (code d) || (code c == code d && text_lt s t)

-- Part of the test for an e-mail address: no blank and no "@".
plain : Char → Bool
plain c = not (is_space c) && not (code c == b'@')

all_plain : String → Bool
unfolding plain
all_plain String.[] = true
all_plain (String.◌∷◌ c s) = plain c && all_plain s

-- `[^\s@]*\.[^\s@]+` to the end.
dot_then_more : String → Bool
unfolding plain all_plain
dot_then_more String.[] = false
dot_then_more (String.◌∷◌ c s) =
    (code c == b'.' && nonempty s && all_plain s) || (plain c && dot_then_more s)

-- `[^\s@]+\.[^\s@]+` to the end.
domain : String → Bool
unfolding plain dot_then_more
domain String.[] = false
domain (String.◌∷◌ c s) = plain c && dot_then_more s

-- `[^\s@]*@` and the domain.
rest_of_email : String → Bool
unfolding plain domain
rest_of_email String.[] = false
rest_of_email (String.◌∷◌ c s) = if code c == b'@' then domain s else plain c && rest_of_email s

-- The expression `^[^\s@]+@[^\s@]+\.[^\s@]+$` of the form for accounts.
unfoldable pub is_email : String → Bool
unfolding plain rest_of_email
is_email String.[] = false
is_email (String.◌∷◌ c s) = plain c && rest_of_email s
