-- ===== src/Forms/Edits/Regulations.antt =====
-- The fields of the form of frontend/src/features/regulations/components/RegulationFormModal.tsx as
-- they are filled in.
use workflow_enterprise_comp.Prelude.{String}
use workflow_enterprise_comp.Forms.Regulations.{RegulationForm}

pub data Edit : Type 0 where
  title_set : String → Edit
  code_set : String → Edit
  description_set : String → Edit
  jurisdiction_set : String → Edit
  status_set : String → Edit
  effective_date_set : String → Edit
  expiry_date_set : String → Edit

unfoldable pub edit : Edit → RegulationForm → RegulationForm
edit (title_set v) f = record f { title = v }
edit (code_set v) f = record f { code = v }
edit (description_set v) f = record f { description = v }
edit (jurisdiction_set v) f = record f { jurisdiction = v }
edit (status_set v) f = record f { status = v }
edit (effective_date_set v) f = record f { effective_date = v }
edit (expiry_date_set v) f = record f { expiry_date = v }
