-- ===== src/Client/Strip.antt =====
-- `stripEmptyStrings`: which fields of a body reach the server.
use workflow_enterprise_comp.Prelude.{
  String, Option, none, some, ◌≡◌, refl, arith, eq_iff, if◌then◌else◌, nonempty,
}
use workflow_enterprise_comp.Json.{Json, str, Fields, end, field, get}
use workflow_enterprise_comp.Json.Keys.{Lacks, HasDistinctKeys, get-Lacks}
use workflow_enterprise_comp.Client.{is_empty_text, strip_fields}

-- A key whose value is the empty text is gone.
abbrev pub unless_empty : Option Json → Option Json
unless_empty none = none
unless_empty (some (str s)) = if nonempty s then some (str s) else none
unless_empty (some v) = some v

Lacks-strip_fields : (k : String) (fs : Fields) → Lacks k fs → Lacks k (strip_fields fs)
unfolding strip_fields
Lacks-strip_fields k end h = tt
Lacks-strip_fields k (field j v fs) h = ground (arith, Lacks-strip_fields k fs h.1)

-- Stripping an object with distinct keys keeps every field with its value, the null ones too, but
-- those whose value is the empty text, which are gone.
pub get-strip_fields :
    (k : String) (fs : Fields)
    → HasDistinctKeys fs
    → get k (strip_fields fs) ≡ unless_empty (get k fs)
unfolding strip_fields get is_empty_text
get-strip_fields k end h = refl
get-strip_fields k (field j v fs) h =
    ground (arith, eq_iff j k, get-strip_fields k fs h.1, get-Lacks j fs h.0)
