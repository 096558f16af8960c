-- ===== src/Services/Notifications.antt =====
-- The requests of frontend/src/services/notifications.service.ts.
use workflow_enterprise_comp.Prelude.{ℕ, String, Option, some, get_or}
use workflow_enterprise_comp.Json.{Json, obj, field, end, str, opt_field, opt_str}
use workflow_enterprise_comp.Client.{Request}
use workflow_enterprise_comp.Http
use workflow_enterprise_comp.Http.{limit_body}
use workflow_enterprise_comp.Paths.Api.{Api, path}

pub record NotificationSendBody : Type 0 where
  pub type : String
  pub title : String
  pub message : Option String
  pub severity : Option String
  pub entity_type : Option String
  pub entity_id : Option String

unfoldable pub notification_send_body_json : NotificationSendBody → Json
notification_send_body_json b = obj (
    field "type" (str b.type) (
      field "title" (str b.title) (
        opt_field "message" (opt_str b.message) (
          opt_field "severity" (opt_str b.severity) (
            opt_field "entity_type" (opt_str b.entity_type)
              (opt_field "entity_id" (opt_str b.entity_id) end))))))

unfoldable pub send : NotificationSendBody → Request
send body = Http.post (path Api.notifications_send) (some (notification_send_body_json body))

unfoldable pub recent : Option ℕ → Request
recent limit = Http.post (path Api.notifications_events) (some (limit_body (get_or limit 50)))
