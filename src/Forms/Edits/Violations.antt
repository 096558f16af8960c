-- ===== src/Forms/Edits/Violations.antt =====
-- The fields of the form of frontend/src/features/violations/components/ViolationFormModal.tsx as
-- they are filled in.
use workflow_enterprise_comp.Prelude.{String}
use workflow_enterprise_comp.Forms.Violations.{ViolationForm}

pub data Edit : Type 0 where
  title_set : String → Edit
  description_set : String → Edit
  severity_set : String → Edit
  status_set : String → Edit
  compliance_id_set : String → Edit
  regulation_id_set : String → Edit

unfoldable pub edit : Edit → ViolationForm → ViolationForm
edit (title_set v) f = record f { title = v }
edit (description_set v) f = record f { description = v }
edit (severity_set v) f = record f { severity = v }
edit (status_set v) f = record f { status = v }
edit (compliance_id_set v) f = record f { compliance_id = v }
edit (regulation_id_set v) f = record f { regulation_id = v }
