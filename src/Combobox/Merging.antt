-- ===== src/Combobox/Merging.antt =====
-- The stored value's item in the list that is shown.
use workflow_enterprise_comp.Prelude.{
  true, false, ◌≡◌, some, List, [], ◌∷◌, arith, any, str_eq, eq_refl,
}
use workflow_enterprise_comp.Options.{OptionItem}
use workflow_enterprise_comp.Combobox.{merged}

-- The identifiers of a list of options differ.
abbrev pub HasDistinctIds : List OptionItem → Type 0
HasDistinctIds [] = Unit
HasDistinctIds (i ∷ is) =
    (any (λ (j : OptionItem). str_eq j.id i.id) is ≡ false) × HasDistinctIds is

-- If the identifiers of the loaded options differ, so do those of the merged list, and the item of
-- the stored value is in it.
pub merged-HasDistinctIds :
    (selected : OptionItem) (loaded : List OptionItem)
    → HasDistinctIds loaded
    → HasDistinctIds (merged (some selected) loaded)
      × (any (λ (j : OptionItem). str_eq j.id selected.id) (merged (some selected) loaded) ≡ true)
unfolding merged
merged-HasDistinctIds selected loaded h = ground (arith, eq_refl selected.id)
