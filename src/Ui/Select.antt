-- ===== src/Ui/Select.antt =====
-- The select of frontend/src/components/ui/Select.tsx. Its placeholder is an option with an empty
-- value that cannot be picked.
use workflow_enterprise_comp.Prelude.{
  String, Bool, true, false, not, ◌≡◌, Option, none, some, List, [], ◌∷◌, ◌++◌, map, filter, refl,
  ap,
}
use workflow_enterprise_comp.Constants.{Meta, lookup}

pub record SelectOption : Type 0 where
  pub value : String
  pub label : String

-- An option as the browser has it.
pub record HtmlOption : Type 0 where
  pub option_value : String
  pub text : String
  pub disabled : Bool

abbrev placeholder_option : Option String → List HtmlOption
placeholder_option none = []
placeholder_option (some t) = record { option_value = ""; text = t; disabled = true } ∷ []

abbrev html_option : SelectOption → HtmlOption
html_option o = record { option_value = o.value; text = o.label; disabled = false }

unfoldable pub html_options : Option String → List SelectOption → List HtmlOption
html_options placeholder options = placeholder_option placeholder ++ map html_option options

-- The values that a user can pick: those of the options that are not disabled.
unfoldable pub pickable : Option String → List SelectOption → List String
unfolding html_options
pickable placeholder options =
    map (λ o. o.option_value) (filter (λ o. not o.disabled) (html_options placeholder options))

abbrev label_or : String → Option Meta → String
label_or v none = v
label_or v (some m) = m.label

-- The options that the pages make of a list of values: `{ value: s, label: meta[s]?.label ?? s }`.
unfoldable pub value_options : List (String × Meta) → List String → List SelectOption
unfolding lookup
value_options meta vs = map (λ v. record { value = v; label = label_or v (lookup v meta) }) vs

map-values :
    (meta : List (String × Meta)) (vs : List String)
    → map
        (λ o. o.option_value)
        (filter (λ o. not o.disabled) (map html_option (value_options meta vs)))
      ≡ vs
unfolding value_options
map-values meta [] = refl
map-values meta (v ∷ vs) = ap (λ l. v ∷ l) (map-values meta vs)

-- With a placeholder or without, the values that can be picked from a select over a list of values
-- are these values: never the empty one that stands for no choice.
pub pickable-values :
    (placeholder : Option String) (meta : List (String × Meta)) (vs : List String)
    → pickable placeholder (value_options meta vs) ≡ vs
unfolding pickable html_options
pickable-values none meta vs = map-values meta vs
pickable-values (some t) meta vs = map-values meta vs
