-- ===== src/Json/Keys.antt =====
-- Which keys an object has.
use workflow_enterprise_comp.Prelude.{String, ◌≡◌, ◌≢◌, none, arith, eq_iff}
use workflow_enterprise_comp.Json.{Fields, end, field, get}

-- No field of the object has this key.
abbrev pub Lacks : String → Fields → Type 0
Lacks k end = Unit
Lacks k (field j v fs) = (j ≢ k) × Lacks k fs

-- The keys of an object differ, as those of `Object.entries` do.
abbrev pub HasDistinctKeys : Fields → Type 0
HasDistinctKeys end = Unit
HasDistinctKeys (field k v fs) = Lacks k fs × HasDistinctKeys fs

pub get-Lacks : (k : String) (fs : Fields) → Lacks k fs → get k fs ≡ none
unfolding get
get-Lacks k end h = ground arith
get-Lacks k (field j v fs) h = ground (arith, eq_iff j k, get-Lacks k fs h.1)
