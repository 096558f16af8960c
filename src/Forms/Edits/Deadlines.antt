-- ===== src/Forms/Edits/Deadlines.antt =====
-- The fields of the form of frontend/src/features/deadlines/components/DeadlineFormModal.tsx as
-- they are filled in. The entity can be picked only where its type has a picker.
use workflow_enterprise_comp.Prelude.{String, is_some, if◌then◌else◌}
use workflow_enterprise_comp.Options.{entity_type_to_option}
use workflow_enterprise_comp.Forms.Deadlines.{DeadlineForm}

pub data Edit : Type 0 where
  title_set : String → Edit
  description_set : String → Edit
  deadline_at_set : String → Edit
  status_set : String → Edit
  entity_type_set : String → Edit
  entity_id_set : String → Edit

unfoldable pub edit : Edit → DeadlineForm → DeadlineForm
edit (title_set v) f = record f { title = v }
edit (description_set v) f = record f { description = v }
edit (deadline_at_set v) f = record f { deadline_at = v }
edit (status_set v) f = record f { status = v }
edit (entity_type_set v) f = record f { entity_type = v; entity_id = "" }
edit (entity_id_set v) f =
    if is_some (entity_type_to_option f.entity_type) then record f { entity_id = v } else f
