-- ===== src/Forms/Unchanged.antt =====
-- What a form that is opened for a record, and not touched, hands on.
use workflow_enterprise_comp.Prelude.{
  String, true, ◌≡◌, Option, none, some, refl, arith, if◌then◌else◌, Bool-cases, inl, inr, nonempty,
  trim, take, ◌+s◌, get_or, NoLeadingBlank, NoTrailingBlank, trim_same, nonempty-take,
}
use workflow_enterprise_comp.Entities.{Audit, Compliance}
use workflow_enterprise_comp.Forms.Common.{stamped, sliced}
use workflow_enterprise_comp.Forms.Audits
use workflow_enterprise_comp.Forms.Audits.{AuditFormValues}
use workflow_enterprise_comp.Forms.Compliances
use workflow_enterprise_comp.Forms.Compliances.{ComplianceFormValues}

-- A text field as a form stores it: no blank at either end.
abbrev pub IsTrimmed : String → Type 0
IsTrimmed s = NoLeadingBlank s × NoTrailingBlank s

-- A time with its seconds set to 0, where a time is given: its first sixteen characters are the day,
-- the hours and the minutes.
abbrev pub to_minute : Option String → Option String
to_minute none = none
to_minute (some t) = if nonempty t then some (take 16 t +s ":00.000Z") else none

stamped-sliced : (t : Option String) → stamped ":00.000Z" (sliced 16 t) ≡ to_minute t
stamped-sliced none = refl
stamped-sliced (some t) = elim (Bool-cases (nonempty t)) [
  | inl given ↦ rw (given, nonempty-take 15 t given) refl
  | inr missing ↦ rw missing refl
]

-- The form of an audit whose title is not empty, and whose title and links have no blanks at their
-- ends, hands on, when it is not touched, the audit's own title, description, status and links,
-- with the empty text for what is missing. Of the time it hands on the first sixteen characters,
-- which reach to the minutes, with 0 for the seconds; no time and an empty one become none.
pub audits_unchanged :
    (audit : Audit)
    → nonempty audit.title ≡ true
    → IsTrimmed audit.title
    → IsTrimmed (get_or audit.compliance_id "")
    → IsTrimmed (get_or audit.auditor_id "")
    → (Audits.submit (Audits.seed (some audit))).1
      ≡ some (record {
        title = audit.title;
        description = get_or audit.description "";
        status = audit.status;
        compliance_id = get_or audit.compliance_id "";
        auditor_id = get_or audit.auditor_id "";
        scheduled_at = to_minute audit.scheduled_at;
      })
unfolding Audits.submit Audits.seed
audits_unchanged audit given title compliance auditor = ground (
  arith,
  stamped-sliced audit.scheduled_at,
  trim_same audit.title title.0 title.1,
  trim_same (get_or audit.compliance_id "") compliance.0 compliance.1,
  trim_same (get_or audit.auditor_id "") auditor.0 auditor.1,
)

-- The form of a compliance record with a name and a due date, not touched, hands on the day of the
-- due date with the last millisecond of that day for its time, whatever the time was.
pub compliances_due_date :
    (compliance : Compliance) (due : String)
    → compliance.due_date ≡ some due
    → nonempty due ≡ true
    → nonempty (trim compliance.name) ≡ true
    → (v : ComplianceFormValues) × ((Compliances.submit (Compliances.seed (some compliance))).1
        ≡ some v)
      × (v.due_date ≡ some (take 10 due +s "T23:59:59.999Z"))
unfolding Compliances.submit Compliances.seed
compliances_due_date compliance due dated given named =
    let day = nonempty-take 9 due given in
    (Compliances.form_values (Compliances.seed (some compliance)), ground arith, ground arith)
