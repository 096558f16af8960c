-- ===== src/Services/Alerts.antt =====
-- The requests of frontend/src/services/alerts.service.ts.
use workflow_enterprise_comp.Prelude.{String, Option, some}
use workflow_enterprise_comp.Json.{Json, obj, field, end, str, opt_field, opt_str}
use workflow_enterprise_comp.Client.{Request}
use workflow_enterprise_comp.Http
use workflow_enterprise_comp.Http.{ListQuery, query_json, id_body}
use workflow_enterprise_comp.Paths.Api.{Api, path}

pub record AlertCreateBody : Type 0 where
  pub type : String
  pub title : String
  pub message : Option String
  pub severity : Option String
  pub status : Option String
  pub entity_type : Option String
  pub entity_id : Option String

unfoldable pub alert_create_body_json : AlertCreateBody → Json
alert_create_body_json b = obj (
    field "type" (str b.type) (
      field "title" (str b.title) (
        opt_field "message" (opt_str b.message) (
          opt_field "severity" (opt_str b.severity) (
            opt_field "status" (opt_str b.status) (
              opt_field "entity_type" (opt_str b.entity_type)
                (opt_field "entity_id" (opt_str b.entity_id) end)))))))

pub record AlertUpdateBody : Type 0 where
  pub id : String
  pub title : Option String
  pub message : Option String
  pub severity : Option String
  pub status : Option String

unfoldable pub alert_update_body_json : AlertUpdateBody → Json
alert_update_body_json b = obj (
    field "id" (str b.id) (
      opt_field "title" (opt_str b.title) (
        opt_field "message" (opt_str b.message)
          (opt_field "severity" (opt_str b.severity) (opt_field "status" (opt_str b.status) end)))))

unfoldable pub search : ListQuery → Request
search q = Http.post (path Api.alerts_search) (some (query_json q))

unfoldable pub get : String → Request
get id = Http.post (path Api.alerts_get) (some (id_body id))

unfoldable pub create : AlertCreateBody → Request
create body = Http.post (path Api.alerts) (some (alert_create_body_json body))

unfoldable pub update : AlertUpdateBody → Request
update body = Http.patch (path Api.alerts) (some (alert_update_body_json body))

unfoldable pub remove : String → Request
remove id = Http.del (path Api.alerts) (some (id_body id))

unfoldable pub acknowledge : String → Request
acknowledge id = Http.post (path Api.alerts_acknowledge) (some (id_body id))

unfoldable pub resolve : String → Request
resolve id = Http.post (path Api.alerts_resolve) (some (id_body id))
