-- ===== src/Options/Pickers.antt =====
-- The entity types that the forms offer against the entities that the options endpoint knows.
use workflow_enterprise_comp.Prelude.{String, ◌≡◌, true, arith, is_some, ◌↔◌}
use workflow_enterprise_comp.Constants.{entity_types, lookup}
use workflow_enterprise_comp.Options.{entity_type_to_option}

-- The id picker is enabled for exactly the entity types that the forms offer.
pub picker_iff :
    (type : String)
    → (is_some (entity_type_to_option type) ≡ true) ↔ (is_some (lookup type entity_types) ≡ true)
unfolding entity_type_to_option lookup
picker_iff type = ground arith
