-- ===== src/Json.antt =====
-- JSON values: request bodies and response payloads (frontend/src/services/api/client.ts handles
-- them as `unknown`). Numbers are natural, as all that the console sends or reads here are; the
-- keys of an object keep their order.
pub mod Keys
use workflow_enterprise_comp.Prelude.{
  ℕ, String, Bool, true, false, Option, none, some, List, [], ◌∷◌, str_eq, if◌then◌else◌,
}

mutual
  pub data Json : Type 0 where
    null : Json
    bool : Bool → Json
    num : ℕ → Json
    str : String → Json
    arr : Elems → Json
    obj : Fields → Json

  pub data Elems : Type 0 where
    nil : Elems
    cons : Json → Elems → Elems

  pub data Fields : Type 0 where
    end : Fields
    field : String → Json → Fields → Fields

-- The value of a key; the first one, where keys repeat.
unfoldable pub get : String → Fields → Option Json
get k end = none
get k (field j v fs) = if str_eq j k then some v else get k fs

-- `v?.k` on a payload: only an object has the keys that are asked for.
unfoldable pub prop : String → Json → Option Json
unfolding get
prop k (obj fs) = get k fs
prop k _ = none

-- A property that the response contract says is a text.
abbrev pub as_text : Option Json → Option String
as_text (some (str s)) = some s
as_text _ = none

unfoldable pub text_prop : String → Json → Option String
unfolding prop
text_prop k v = as_text (prop k v)

-- Builders for request bodies: a field that is undefined is left out, as JSON.stringify does.
abbrev pub opt_field : String → Option Json → Fields → Fields
opt_field k none fs = fs
opt_field k (some v) fs = field k v fs

abbrev pub opt_str : Option String → Option Json
opt_str none = none
opt_str (some s) = some (str s)

-- `string | null | undefined`, where the outer option is undefined and the inner one null.
abbrev pub nullable_str : Option (Option String) → Option Json
nullable_str none = none
nullable_str (some none) = some null
nullable_str (some (some s)) = some (str s)
