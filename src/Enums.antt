-- ===== src/Enums.antt =====
-- The value lists of frontend/src/types/entities.ts, which fill the filters and the forms.
use workflow_enterprise_comp.Prelude.{String, List, [], ◌∷◌}

pub data Enum : Type 0 where
  compliance_statuses alert_statuses severities user_statuses violation_statuses : Enum
  audit_statuses deadline_statuses regulation_statuses checklist_statuses : Enum
  corrective_action_statuses report_types report_statuses saga_types saga_statuses : Enum
  role_codes : Enum

-- The strings of each list, in order.
unfoldable pub values : Enum → List String
values compliance_statuses = "draft" ∷ "active" ∷ "compliant" ∷ "non_compliant" ∷ "archived" ∷ []
values alert_statuses = "open" ∷ "acknowledged" ∷ "resolved" ∷ []
values severities = "low" ∷ "medium" ∷ "high" ∷ "critical" ∷ []
values user_statuses = "active" ∷ "disabled" ∷ []
values violation_statuses = "open" ∷ "in_review" ∷ "resolved" ∷ "closed" ∷ []
values audit_statuses = "scheduled" ∷ "in_progress" ∷ "completed" ∷ "cancelled" ∷ []
values deadline_statuses = "upcoming" ∷ "due" ∷ "overdue" ∷ "completed" ∷ []
values regulation_statuses = "active" ∷ "inactive" ∷ "draft" ∷ "expired" ∷ []
values checklist_statuses = "open" ∷ "in_progress" ∷ "completed" ∷ []
values corrective_action_statuses = "open" ∷ "in_progress" ∷ "completed" ∷ "cancelled" ∷ []
values report_types = "summary" ∷ "detailed" ∷ "compliance" ∷ "audit" ∷ []
values report_statuses = "generated" ∷ "failed" ∷ []
values saga_types =
    "compliance_check" ∷ "audit_execution" ∷ "violation_processing" ∷ "corrective_action_flow" ∷ []
values saga_statuses = "pending" ∷ "active" ∷ "completed" ∷ "failed" ∷ "compensated" ∷ []
values role_codes = "admin" ∷ "compliance_officer" ∷ "viewer" ∷ []
