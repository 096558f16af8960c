-- ===== src/Forms/Edits/CorrectiveActions.antt =====
-- The fields of the form of frontend/src/features/correctiveactions/components/CorrectiveActionFormModal.tsx as
-- they are filled in.
use workflow_enterprise_comp.Prelude.{String}
use workflow_enterprise_comp.Forms.CorrectiveActions.{CorrectiveActionForm}

pub data Edit : Type 0 where
  title_set : String → Edit
  description_set : String → Edit
  status_set : String → Edit
  due_date_set : String → Edit
  violation_id_set : String → Edit
  owner_id_set : String → Edit

unfoldable pub edit : Edit → CorrectiveActionForm → CorrectiveActionForm
edit (title_set v) f = record f { title = v }
edit (description_set v) f = record f { description = v }
edit (status_set v) f = record f { status = v }
edit (due_date_set v) f = record f { due_date = v }
edit (violation_id_set v) f = record f { violation_id = v }
edit (owner_id_set v) f = record f { owner_id = v }
