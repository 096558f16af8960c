-- ===== src/Forms/Edits/Audits.antt =====
-- The fields of the form of frontend/src/features/audits/components/AuditFormModal.tsx as
-- they are filled in.
use workflow_enterprise_comp.Prelude.{String}
use workflow_enterprise_comp.Forms.Audits.{AuditForm}

pub data Edit : Type 0 where
  title_set : String → Edit
  description_set : String → Edit
  status_set : String → Edit
  scheduled_at_set : String → Edit
  compliance_id_set : String → Edit
  auditor_id_set : String → Edit

unfoldable pub edit : Edit → AuditForm → AuditForm
edit (title_set v) f = record f { title = v }
edit (description_set v) f = record f { description = v }
edit (status_set v) f = record f { status = v }
edit (scheduled_at_set v) f = record f { scheduled_at = v }
edit (compliance_id_set v) f = record f { compliance_id = v }
edit (auditor_id_set v) f = record f { auditor_id = v }
