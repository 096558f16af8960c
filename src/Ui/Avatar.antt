-- ===== src/Ui/Avatar.antt =====
-- The colour of frontend/src/components/ui/Avatar.tsx, from the UTF-16 codes of a name. The
-- initials are not modelled.
use workflow_enterprise_comp.Prelude.{
  ℕ, ◌+◌, ◌*◌, ◌%◌, ◌<◌, List, [], ◌∷◌, String, get_elem?, Option, arith, ◌≡◌, some, get_elem?-some,
}

abbrev pub palette : List String
palette =
    "bg-primary-100 text-primary-700" ∷ "bg-info-100 text-info-600"
    ∷ "bg-success-100 text-success-700" ∷ "bg-warning-100 text-warning-700"
    ∷ "bg-danger-100 text-danger-600" ∷ "bg-slate-200 text-slate-700" ∷ []

-- `(hash * 31 + code) >>> 0`.
abbrev pub mix : ℕ → ℕ → ℕ
mix hash code = (hash * 31 + code) % 4294967296

unfoldable pub hash_from : ℕ → List ℕ → ℕ
hash_from hash [] = hash
hash_from hash (code ∷ codes) = hash_from (mix hash code) codes

unfoldable pub tone : List ℕ → Option String
unfolding hash_from
tone codes = get_elem? palette (hash_from 0 codes % 6)

hash_from-bound :
    (hash : ℕ) (codes : List ℕ) → hash < 4294967296 → hash_from hash codes < 4294967296
unfolding hash_from
hash_from-bound hash [] h = h
hash_from-bound hash (code ∷ codes) h = hash_from-bound (mix hash code) codes (omega arith)

-- The hash of a name fits 32 bits, and there is a colour in the palette for every name.
pub tone-some :
    (codes : List ℕ) → (hash_from 0 codes < 4294967296) × ((c : String) × (tone codes ≡ some c))
unfolding tone
tone-some codes = (
  hash_from-bound 0 codes (omega arith),
  get_elem?-some palette (hash_from 0 codes % 6) (omega arith),
)
