-- ===== src/Observe/Notifications.antt =====
-- The page of frontend/src/features/notifications/pages/NotificationsPage.tsx: the form that sends a
-- notification and the list of recent events, which one may expand.
pub mod Sending
use workflow_enterprise_comp.Prelude.{
  String, Bool, true, false, not, ◌&&◌, ◌||◌, ◌≡◌, Option, none, some, List, [], ◌∷◌, nonempty,
  is_some, str_eq, trim, if◌then◌else◌, ◌+s◌, arith, length, ◌==◌,
}
use workflow_enterprise_comp.Json.{Json, null}
use workflow_enterprise_comp.Entities.{BusEvent}
use workflow_enterprise_comp.Client.{Request, ApiError, user_message}
use workflow_enterprise_comp.Options.{entity_type_to_option}
use workflow_enterprise_comp.Services.Notifications as Api
use workflow_enterprise_comp.Services.Notifications.{NotificationSendBody}

pub record Form : Type 0 where
  pub type : String
  pub title : String
  pub message : String
  pub severity : String
  pub entity_type : String
  pub entity_id : String
  pub type_error : Option String
  pub title_error : Option String

abbrev pub initial : Form
initial = record {
  type = "info";
  title = "";
  message = "";
  severity = "low";
  entity_type = "";
  entity_id = "";
  type_error = none;
  title_error = none;
}

abbrev pub event_types : List String
event_types =
    "compliance_alert" ∷ "deadline_approaching" ∷ "violation_detected" ∷ "audit_scheduled"
    ∷ "notification_sent" ∷ "info" ∷ []

pub data Edit : Type 0 where
  type_picked severity_picked title_typed message_typed : String → Edit
  entity_type_picked entity_picked : String → Edit

-- The entity can be picked only where its type has a picker; another type drops it.
unfoldable pub edit : Edit → Form → Form
edit (type_picked v) s = record s { type = v }
edit (severity_picked v) s = record s { severity = v }
edit (title_typed v) s = record s { title = v }
edit (message_typed v) s = record s { message = v }
edit (entity_type_picked v) s = record s { entity_type = v; entity_id = "" }
edit (entity_picked v) s =
    if is_some (entity_type_to_option s.entity_type) then record s { entity_id = v } else s

-- `text.trim() || undefined`.
abbrev pub trimmed : String → Option String
trimmed text = if nonempty (trim text) then some (trim text) else none

abbrev pub required : String → String → Option String
required text message = if nonempty (trim text) then none else some message

unfoldable pub validate : Form → Form
validate s = record s {
  type_error = required s.type "Type is required.";
  title_error = required s.title "Title is required.";
}

unfoldable pub body_of : Form → NotificationSendBody
body_of s = record {
  type = trim s.type;
  title = trim s.title;
  message = some s.message;
  severity = some s.severity;
  entity_type = trimmed s.entity_type;
  entity_id = trimmed s.entity_id;
}

abbrev valid : Form → Bool
valid s = not (is_some s.type_error) && not (is_some s.title_error)

-- What submitting the form asks for, if anything, and the form while it waits.
unfoldable pub submit : Form → Form × Option Request
unfolding validate body_of
submit s = (validate s, (if valid (validate s) then some (Api.send (body_of s)) else none))

pub data SendOutcome : Type 0 where
  sent : (event_type subject : String) → SendOutcome
  failed : ApiError → SendOutcome
  lost : SendOutcome

-- The form once the request has ended: a failure leaves it as it was.
unfoldable pub settle : SendOutcome → Form → Form
settle (sent event_type subject) s = record s { title = ""; message = "" }
settle (failed e) s = s
settle lost s = s

pub data SendNote : Type 0 where
  told : (title : String) → (description : Option String) → SendNote

unfoldable pub send_note : SendOutcome → SendNote
send_note (sent event_type subject) =
    told "Notification sent" (some (event_type +s (" · " +s subject)))
send_note (failed e) = told "Could not send notification" (some (user_message e))
send_note lost = told "Could not send notification" none

-- The one event that is expanded, and a click on the button of an event.
unfoldable pub toggle : Option String → String → Option String
toggle none id = some id
toggle (some expanded) id = if str_eq expanded id then none else some id

abbrev pub has_payload : BusEvent → Bool
has_payload e = elim e.payload [ none ↦ false | some null ↦ false | some _ ↦ true ]

pub data Events : Type 0 where
  events_error events_loading events_empty : Events
  events_shown : List BusEvent → Events

abbrev events_or_none : Option (List BusEvent) → Events
events_or_none none = events_empty
events_or_none (some es) = if length es == 0 then events_empty else events_shown es

unfoldable pub events_state : (is_error is_loading : Bool) → Option (List BusEvent) → Events
events_state is_error is_loading es =
    if is_error then events_error else if is_loading then events_loading else events_or_none es
