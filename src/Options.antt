-- ===== src/Options.antt =====
-- The options service, frontend/src/services/options.service.ts: the requests, and what is taken
-- out of the answer, a partial record over the entities.
pub mod Pickers
use workflow_enterprise_comp.Prelude.{
  ℕ, String, Bool, Option, none, some, List, [], ◌∷◌, str_eq, nonempty, get_or, if◌then◌else◌,
}
use workflow_enterprise_comp.Json.{
  Json, Elems, nil, cons, Fields, obj, arr, str, num, field, end, opt_field, opt_str,
}
use workflow_enterprise_comp.Client.{Request}
use workflow_enterprise_comp.Http
use workflow_enterprise_comp.Paths.Api.{Api, path}
use workflow_enterprise_comp.Constants.{lookup}

pub data OptionEntity : Type 0 where
  users roles compliances regulations violations checklists deadlines : OptionEntity
  corrective_actions audits reports : OptionEntity

abbrev pub entity_name : OptionEntity → String
entity_name users = "users"
entity_name roles = "roles"
entity_name compliances = "compliances"
entity_name regulations = "regulations"
entity_name violations = "violations"
entity_name checklists = "checklists"
entity_name deadlines = "deadlines"
entity_name corrective_actions = "corrective_actions"
entity_name audits = "audits"
entity_name reports = "reports"

pub record OptionItem : Type 0 where
  pub id : String
  pub name : String
  pub sub : Option String

-- Each request of the console names one entity, and at most one id of it.
pub record OptionsQuery : Type 0 where
  pub entity : OptionEntity
  pub search : Option String
  pub limit : Option ℕ
  pub id : Option String

opt_limit : Option ℕ → Option Json
opt_limit none = none
opt_limit (some n) = some (num n)

ids_json : OptionEntity → Option String → Option Json
ids_json entity none = none
ids_json entity (some id) = some (obj (field (entity_name entity) (arr (cons (str id) nil)) end))

options_json : OptionsQuery → Json
unfolding opt_limit ids_json
options_json q = obj (
    field "entities" (arr (cons (str (entity_name q.entity)) nil)) (
      opt_field "search" (opt_str q.search)
        (opt_field "limit" (opt_limit q.limit) (opt_field "ids" (ids_json q.entity q.id) end))))

unfoldable pub fetch_options : OptionsQuery → Request
unfolding options_json
fetch_options q = Http.post (path Api.options) (some (options_json q))

-- `search || undefined`.
search_text : Option String → Option String
search_text none = none
search_text (some s) = if nonempty s then some s else none

unfoldable pub fetch_entity_options : OptionEntity → Option String → ℕ → Request
unfolding fetch_options search_text
fetch_entity_options entity search limit =
    fetch_options
      (record { entity = entity; search = search_text search; limit = some limit; id = none })

-- The answer to the options endpoint.
abbrev pub Answered : Type 0
Answered = OptionEntity → Option (List OptionItem)

-- `.then((r) => r[entity] ?? [])`.
unfoldable pub entity_options : OptionEntity → Answered → List OptionItem
entity_options entity r = get_or (r entity) []

-- No request is made for an empty id.
unfoldable pub resolve_option : OptionEntity → String → Option Request
unfolding fetch_options
resolve_option entity id =
    if nonempty id
    then some
        (fetch_options (record { entity = entity; search = none; limit = none; id = some id }))
    else none

first_item : Option (List OptionItem) → Option OptionItem
first_item none = none
first_item (some []) = none
first_item (some (i ∷ is)) = some i

-- `.then((r) => r[entity]?.[0])`.
unfoldable pub resolved_option : OptionEntity → Answered → Option OptionItem
unfolding first_item
resolved_option entity r = first_item (r entity)

unfoldable pub entity_type_to_option : String → Option OptionEntity
unfolding lookup
entity_type_to_option type = lookup type (
    ("compliance", compliances)
    ∷ ("audit", audits)
    ∷ ("violation", violations)
    ∷ ("regulation", regulations)
    ∷ ("checklist", checklists)
    ∷ ("corrective_action", corrective_actions)
    ∷ ("report", reports)
    ∷ [])
