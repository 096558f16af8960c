-- ===== src/Constants.antt =====
-- The display data of frontend/src/lib/constants.ts: labels and tones of the backend's values.
-- A table is looked up by its own keys only.
pub mod Labels
use workflow_enterprise_comp.Prelude.{
  String, Option, none, some, List, [], ◌∷◌, str_eq, if◌then◌else◌, nonempty, or_else,
}

pub data Tone : Type 0 where
  neutral info success warning danger : Tone

pub record Meta : Type 0 where
  pub label : String
  pub tone : Tone

unfoldable pub lookup {ℓ} : {A : Type ℓ} → String → List (String × A) → Option A
lookup k [] = none
lookup k ((j, v) ∷ m) = if str_eq j k then some v else lookup k m

abbrev meta : String → Tone → Meta
meta label tone = record { label = label; tone = tone }

abbrev pub status_meta : List (String × Meta)
status_meta =
    ("draft", meta "Draft" neutral)
    ∷ ("active", meta "Active" info)
    ∷ ("disabled", meta "Disabled" neutral)
    ∷ ("compliant", meta "Compliant" success)
    ∷ ("non_compliant", meta "Non-compliant" danger)
    ∷ ("archived", meta "Archived" neutral)
    ∷ ("open", meta "Open" warning)
    ∷ ("acknowledged", meta "Acknowledged" info)
    ∷ ("resolved", meta "Resolved" success)
    ∷ ("in_review", meta "In review" warning)
    ∷ ("closed", meta "Closed" neutral)
    ∷ ("scheduled", meta "Scheduled" neutral)
    ∷ ("in_progress", meta "In progress" info)
    ∷ ("completed", meta "Completed" success)
    ∷ ("cancelled", meta "Cancelled" neutral)
    ∷ ("upcoming", meta "Upcoming" neutral)
    ∷ ("due", meta "Due" warning)
    ∷ ("overdue", meta "Overdue" danger)
    ∷ ("success", meta "Success" success)
    ∷ ("failure", meta "Failure" danger)
    ∷ ("failed", meta "Failed" danger)
    ∷ ("generated", meta "Generated" success)
    ∷ ("pending", meta "Pending" neutral)
    ∷ ("compensated", meta "Compensated" warning)
    ∷ ("expired", meta "Expired" neutral)
    ∷ ("inactive", meta "Inactive" neutral)
    ∷ []

abbrev pub severity_meta : List (String × Meta)
severity_meta =
    ("low", meta "Low" neutral)
    ∷ ("medium", meta "Medium" warning)
    ∷ ("high", meta "High" danger)
    ∷ ("critical", meta "Critical" danger)
    ∷ []

abbrev pub risk_meta : List (String × Meta)
risk_meta =
    ("low", meta "Low risk" neutral)
    ∷ ("medium", meta "Medium risk" warning)
    ∷ ("high", meta "High risk" danger)
    ∷ ("critical", meta "Critical risk" danger)
    ∷ []

abbrev pub saga_type_labels : List (String × String)
saga_type_labels =
    ("compliance_check", "Compliance check")
    ∷ ("audit_execution", "Audit execution")
    ∷ ("violation_processing", "Violation processing")
    ∷ ("corrective_action_flow", "Corrective action flow")
    ∷ []

abbrev pub report_type_labels : List (String × String)
report_type_labels =
    ("summary", "Summary")
    ∷ ("detailed", "Detailed")
    ∷ ("compliance", "Compliance")
    ∷ ("audit", "Audit")
    ∷ []

abbrev pub role_labels : List (String × String)
role_labels =
    ("admin", "Administrator")
    ∷ ("compliance_officer", "Compliance Officer")
    ∷ ("viewer", "Viewer")
    ∷ []

abbrev pub entity_labels : List (String × String)
entity_labels =
    ("user", "User")
    ∷ ("role", "Role")
    ∷ ("compliance", "Compliance")
    ∷ ("alert", "Alert")
    ∷ ("auditlog", "Audit log")
    ∷ ("violation", "Violation")
    ∷ ("regulation", "Regulation")
    ∷ ("checklist", "Checklist")
    ∷ ("audit", "Audit")
    ∷ ("report", "Report")
    ∷ ("correctiveaction", "Corrective action")
    ∷ ("deadline", "Deadline")
    ∷ ("saga", "Saga")
    ∷ ("notification", "Notification")
    ∷ []

abbrev pub entity_types : List (String × String)
entity_types =
    ("compliance", "Compliance")
    ∷ ("audit", "Audit")
    ∷ ("violation", "Violation")
    ∷ ("regulation", "Regulation")
    ∷ ("checklist", "Checklist")
    ∷ ("corrective_action", "Corrective action")
    ∷ ("report", "Report")
    ∷ []

-- `(key && labels[key]) || key || "—"`.
label_in : List (String × String) → Option String → String
unfolding lookup
label_in labels none = "—"
label_in labels (some key) = if nonempty key then or_else (lookup key labels) key else "—"

unfoldable pub saga_type_label : Option String → String
unfolding label_in
saga_type_label = label_in saga_type_labels

unfoldable pub report_type_label : Option String → String
unfolding label_in
report_type_label = label_in report_type_labels

unfoldable pub role_label : Option String → String
unfolding label_in
role_label = label_in role_labels

unfoldable pub entity_label : Option String → String
unfolding label_in
entity_label = label_in entity_labels
