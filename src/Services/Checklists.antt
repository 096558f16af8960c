-- ===== src/Services/Checklists.antt =====
-- The requests of frontend/src/services/checklists.service.ts.
use workflow_enterprise_comp.Prelude.{String, Option, some}
use workflow_enterprise_comp.Json.{Json, obj, field, end, str, opt_field, opt_str, nullable_str}
use workflow_enterprise_comp.Client.{Request}
use workflow_enterprise_comp.Http
use workflow_enterprise_comp.Http.{ListQuery, query_json, id_body}
use workflow_enterprise_comp.Paths.Api.{Api, path}

pub record ChecklistCreateBody : Type 0 where
  pub title : String
  pub description : Option String
  pub status : Option String
  pub compliance_id : Option String
  pub owner_id : Option String
  pub due_date : Option (Option String)
  pub items : Option Json

unfoldable pub checklist_create_body_json : ChecklistCreateBody → Json
checklist_create_body_json b = obj (
    field "title" (str b.title) (
      opt_field "description" (opt_str b.description) (
        opt_field "status" (opt_str b.status) (
          opt_field "compliance_id" (opt_str b.compliance_id) (
            opt_field "owner_id" (opt_str b.owner_id)
              (opt_field "due_date" (nullable_str b.due_date) (opt_field "items" b.items end)))))))

pub record ChecklistUpdateBody : Type 0 where
  pub id : String
  pub title : Option String
  pub description : Option String
  pub status : Option String
  pub compliance_id : Option String
  pub owner_id : Option String
  pub due_date : Option (Option String)
  pub items : Option Json

unfoldable pub checklist_update_body_json : ChecklistUpdateBody → Json
checklist_update_body_json b = obj (
    field "id" (str b.id) (
      opt_field "title" (opt_str b.title) (
        opt_field "description" (opt_str b.description) (
          opt_field "status" (opt_str b.status) (
            opt_field "compliance_id" (opt_str b.compliance_id) (
              opt_field "owner_id" (opt_str b.owner_id) (
                opt_field "due_date" (nullable_str b.due_date)
                  (opt_field "items" b.items end))))))))

unfoldable pub search : ListQuery → Request
search q = Http.post (path Api.checklists_search) (some (query_json q))

unfoldable pub get : String → Request
get id = Http.post (path Api.checklists_get) (some (id_body id))

unfoldable pub create : ChecklistCreateBody → Request
create body = Http.post (path Api.checklists) (some (checklist_create_body_json body))

unfoldable pub update : ChecklistUpdateBody → Request
update body = Http.patch (path Api.checklists) (some (checklist_update_body_json body))

unfoldable pub remove : String → Request
remove id = Http.del (path Api.checklists) (some (id_body id))
