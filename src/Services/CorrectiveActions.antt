-- ===== src/Services/CorrectiveActions.antt =====
-- The requests of frontend/src/services/correctiveactions.service.ts.
use workflow_enterprise_comp.Prelude.{String, Option, some}
use workflow_enterprise_comp.Json.{Json, obj, field, end, str, opt_field, opt_str, nullable_str}
use workflow_enterprise_comp.Client.{Request}
use workflow_enterprise_comp.Http
use workflow_enterprise_comp.Http.{ListQuery, query_json, id_body}
use workflow_enterprise_comp.Paths.Api.{Api, path}

pub record CorrectiveActionCreateBody : Type 0 where
  pub title : String
  pub description : Option String
  pub status : Option String
  pub violation_id : Option String
  pub owner_id : Option String
  pub due_date : Option (Option String)

unfoldable pub corrective_action_create_body_json : CorrectiveActionCreateBody → Json
corrective_action_create_body_json b = obj (
    field "title" (str b.title) (
      opt_field "description" (opt_str b.description) (
        opt_field "status" (opt_str b.status) (
          opt_field "violation_id" (opt_str b.violation_id) (
            opt_field "owner_id" (opt_str b.owner_id)
              (opt_field "due_date" (nullable_str b.due_date) end))))))

pub record CorrectiveActionUpdateBody : Type 0 where
  pub id : String
  pub title : Option String
  pub description : Option String
  pub status : Option String
  pub violation_id : Option String
  pub owner_id : Option String
  pub due_date : Option (Option String)

unfoldable pub corrective_action_update_body_json : CorrectiveActionUpdateBody → Json
corrective_action_update_body_json b = obj (
    field "id" (str b.id) (
      opt_field "title" (opt_str b.title) (
        opt_field "description" (opt_str b.description) (
          opt_field "status" (opt_str b.status) (
            opt_field "violation_id" (opt_str b.violation_id) (
              opt_field "owner_id" (opt_str b.owner_id)
                (opt_field "due_date" (nullable_str b.due_date) end)))))))

unfoldable pub search : ListQuery → Request
search q = Http.post (path Api.corrective_actions_search) (some (query_json q))

unfoldable pub get : String → Request
get id = Http.post (path Api.corrective_actions_get) (some (id_body id))

unfoldable pub create : CorrectiveActionCreateBody → Request
create body =
    Http.post (path Api.corrective_actions) (some (corrective_action_create_body_json body))

unfoldable pub update : CorrectiveActionUpdateBody → Request
update body =
    Http.patch (path Api.corrective_actions) (some (corrective_action_update_body_json body))

unfoldable pub remove : String → Request
remove id = Http.del (path Api.corrective_actions) (some (id_body id))

unfoldable pub complete : String → Request
complete id = Http.post (path Api.corrective_actions_complete) (some (id_body id))
