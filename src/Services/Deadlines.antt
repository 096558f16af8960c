-- ===== src/Services/Deadlines.antt =====
-- The requests of frontend/src/services/deadlines.service.ts.
use workflow_enterprise_comp.Prelude.{String, Option, some}
use workflow_enterprise_comp.Json.{Json, obj, field, end, str, opt_field, opt_str}
use workflow_enterprise_comp.Client.{Request}
use workflow_enterprise_comp.Http
use workflow_enterprise_comp.Http.{ListQuery, query_json, id_body}
use workflow_enterprise_comp.Paths.Api.{Api, path}

pub record DeadlineCreateBody : Type 0 where
  pub title : String
  pub description : Option String
  pub status : Option String
  pub entity_type : Option String
  pub entity_id : Option String
  pub deadline_at : String

unfoldable pub deadline_create_body_json : DeadlineCreateBody → Json
deadline_create_body_json b = obj (
    field "title" (str b.title) (
      opt_field "description" (opt_str b.description) (
        opt_field "status" (opt_str b.status) (
          opt_field "entity_type" (opt_str b.entity_type) (
            opt_field "entity_id" (opt_str b.entity_id)
              (field "deadline_at" (str b.deadline_at) end))))))

pub record DeadlineUpdateBody : Type 0 where
  pub id : String
  pub title : Option String
  pub description : Option String
  pub status : Option String
  pub entity_type : Option String
  pub entity_id : Option String
  pub deadline_at : Option String

unfoldable pub deadline_update_body_json : DeadlineUpdateBody → Json
deadline_update_body_json b = obj (
    field "id" (str b.id) (
      opt_field "title" (opt_str b.title) (
        opt_field "description" (opt_str b.description) (
          opt_field "status" (opt_str b.status) (
            opt_field "entity_type" (opt_str b.entity_type) (
              opt_field "entity_id" (opt_str b.entity_id)
                (opt_field "deadline_at" (opt_str b.deadline_at) end)))))))

unfoldable pub search : ListQuery → Request
search q = Http.post (path Api.deadlines_search) (some (query_json q))

unfoldable pub get : String → Request
get id = Http.post (path Api.deadlines_get) (some (id_body id))

unfoldable pub create : DeadlineCreateBody → Request
create body = Http.post (path Api.deadlines) (some (deadline_create_body_json body))

unfoldable pub update : DeadlineUpdateBody → Request
update body = Http.patch (path Api.deadlines) (some (deadline_update_body_json body))

unfoldable pub remove : String → Request
remove id = Http.del (path Api.deadlines) (some (id_body id))

unfoldable pub complete : String → Request
complete id = Http.post (path Api.deadlines_complete) (some (id_body id))
