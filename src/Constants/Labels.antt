-- ===== src/Constants/Labels.antt =====
-- The values that the console offers against its tables of display data, and the labels.
use workflow_enterprise_comp.Prelude.{
  String, true, ◌≡◌, Option, none, some, List, refl, arith, nonempty, is_some, All,
  or_else-nonempty, Bool-cases, inl, inr,
}
use workflow_enterprise_comp.Enums.{Enum, values}
use workflow_enterprise_comp.Constants.{
  lookup, status_meta, severity_meta, risk_meta, saga_type_labels, report_type_labels, role_labels,
  entity_labels, label_in, saga_type_label, report_type_label, role_label, entity_label,
}

-- Where the pages look a value of each list up: statuses in one table, severities in two, which
-- serve the risk levels too, and types and roles in the tables of labels.
abbrev pub IsKnown : Enum → String → Type 0
IsKnown Enum.severities s =
    (is_some (lookup s severity_meta) ≡ true) × (is_some (lookup s risk_meta) ≡ true)
IsKnown Enum.report_types s = is_some (lookup s report_type_labels) ≡ true
IsKnown Enum.saga_types s = is_some (lookup s saga_type_labels) ≡ true
IsKnown Enum.role_codes s = is_some (lookup s role_labels) ≡ true
IsKnown _ s = is_some (lookup s status_meta) ≡ true

-- Every value of every list that fills a filter or a form has its entry in the table that the
-- pages look it up in.
pub values-IsKnown : (e : Enum) → All (IsKnown e) (values e)
unfolding values lookup
values-IsKnown Enum.severities = ground arith
values-IsKnown _ = ground arith

label_in-nonempty :
    (labels : List (String × String)) (key : Option String) → nonempty (label_in labels key) ≡ true
unfolding label_in
label_in-nonempty labels none = refl
label_in-nonempty labels (some key) = elim (Bool-cases (nonempty key)) [
  | inl full ↦ rw full (or_else-nonempty (lookup key labels) key full)
  | inr blank ↦ rw blank refl
]

-- Whatever the backend sends, a known value or not, or none, no label is empty.
pub labels_nonempty :
    (key : Option String)
    → (nonempty (saga_type_label key) ≡ true)
      × (nonempty (report_type_label key) ≡ true)
      × (nonempty (role_label key) ≡ true)
      × (nonempty (entity_label key) ≡ true)
unfolding saga_type_label report_type_label role_label entity_label
labels_nonempty key = (
  label_in-nonempty saga_type_labels key,
  label_in-nonempty report_type_labels key,
  label_in-nonempty role_labels key,
  label_in-nonempty entity_labels key,
)
