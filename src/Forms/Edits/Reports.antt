-- ===== src/Forms/Edits/Reports.antt =====
-- The fields of the form of frontend/src/features/reports/components/ReportFormModal.tsx as
-- they are filled in.
use workflow_enterprise_comp.Prelude.{String}
use workflow_enterprise_comp.Forms.Reports.{ReportForm}

pub data Edit : Type 0 where
  title_set : String → Edit
  type_set : String → Edit
  status_set : String → Edit
  description_set : String → Edit
  compliance_id_set : String → Edit

unfoldable pub edit : Edit → ReportForm → ReportForm
edit (title_set v) f = record f { title = v }
edit (type_set v) f = record f { type = v }
edit (status_set v) f = record f { status = v }
edit (description_set v) f = record f { description = v }
edit (compliance_id_set v) f = record f { compliance_id = v }
