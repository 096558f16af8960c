-- ===== src/Forms/Edits/Compliances.antt =====
-- The fields of the form of frontend/src/features/compliances/components/ComplianceFormModal.tsx as
-- they are filled in.
use workflow_enterprise_comp.Prelude.{String}
use workflow_enterprise_comp.Forms.Compliances.{ComplianceForm}

pub data Edit : Type 0 where
  name_set : String → Edit
  description_set : String → Edit
  status_set : String → Edit
  risk_level_set : String → Edit
  owner_id_set : String → Edit
  due_date_set : String → Edit
  regulation_id_set : String → Edit

unfoldable pub edit : Edit → ComplianceForm → ComplianceForm
edit (name_set v) f = record f { name = v }
edit (description_set v) f = record f { description = v }
edit (status_set v) f = record f { status = v }
edit (risk_level_set v) f = record f { risk_level = v }
edit (owner_id_set v) f = record f { owner_id = v }
edit (due_date_set v) f = record f { due_date = v }
edit (regulation_id_set v) f = record f { regulation_id = v }
