-- ===== src/Pages/Sent.antt =====
-- Which fields of an edited record reach the backend.
use workflow_enterprise_comp.Prelude.{
  String, nonempty-append, ◌≡◌, Option, none, some, arith, nonempty, trim, if◌then◌else◌, ◌+s◌,
}
use workflow_enterprise_comp.Json.{Json, null, str, prop}
use workflow_enterprise_comp.Entities.{Audit}
use workflow_enterprise_comp.Client.{Sent, send}
use workflow_enterprise_comp.Services.Audits as AuditsApi
use workflow_enterprise_comp.Forms.Audits.{AuditForm, form_values}
use workflow_enterprise_comp.Pages.Audits.{submit_request}

-- The value of a key in what is sent; nothing where the key is left out.
abbrev pub sent_field : String → Sent → Option Json
sent_field k r = elim r.payload [ none ↦ none | some body ↦ prop k body ]

abbrev pub unless_blank : String → Option Json
unless_blank s = if nonempty s then some (str s) else none

-- Saving an edited audit sends the description and the links only where they are not empty: one that
-- the user has cleared is left out of the request. The time is always sent, an empty one as null and
-- any other with its seconds added.
pub audit_edit_sends :
    (base : String) (token : Option String) (audit : Audit) (f : AuditForm)
    → (sent_field "description" (send base token (submit_request (some audit) (form_values f)))
        ≡ unless_blank f.description)
      × (sent_field "compliance_id" (send base token (submit_request (some audit) (form_values f)))
          ≡ unless_blank (trim f.compliance_id))
      × (sent_field "auditor_id" (send base token (submit_request (some audit) (form_values f)))
          ≡ unless_blank (trim f.auditor_id))
      × (sent_field "scheduled_at" (send base token (submit_request (some audit) (form_values f)))
          ≡ some (if nonempty f.scheduled_at then str (f.scheduled_at +s ":00.000Z") else null))
unfolding send submit_request form_values AuditsApi.update AuditsApi.audit_update_body_json prop
audit_edit_sends base token audit f = ground (arith, nonempty-append f.scheduled_at ":" "00.000Z")
