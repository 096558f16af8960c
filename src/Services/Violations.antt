-- ===== src/Services/Violations.antt =====
-- The requests of frontend/src/services/violations.service.ts.
use workflow_enterprise_comp.Prelude.{String, Option, some}
use workflow_enterprise_comp.Json.{Json, obj, field, end, str, opt_field, opt_str}
use workflow_enterprise_comp.Client.{Request}
use workflow_enterprise_comp.Http
use workflow_enterprise_comp.Http.{ListQuery, query_json, id_body}
use workflow_enterprise_comp.Paths.Api.{Api, path}

pub record ViolationCreateBody : Type 0 where
  pub title : String
  pub description : Option String
  pub severity : Option String
  pub status : Option String
  pub compliance_id : Option String
  pub regulation_id : Option String

unfoldable pub violation_create_body_json : ViolationCreateBody → Json
violation_create_body_json b = obj (
    field "title" (str b.title) (
      opt_field "description" (opt_str b.description) (
        opt_field "severity" (opt_str b.severity) (
          opt_field "status" (opt_str b.status) (
            opt_field "compliance_id" (opt_str b.compliance_id)
              (opt_field "regulation_id" (opt_str b.regulation_id) end))))))

pub record ViolationUpdateBody : Type 0 where
  pub id : String
  pub title : Option String
  pub description : Option String
  pub severity : Option String
  pub status : Option String
  pub compliance_id : Option String
  pub regulation_id : Option String

unfoldable pub violation_update_body_json : ViolationUpdateBody → Json
violation_update_body_json b = obj (
    field "id" (str b.id) (
      opt_field "title" (opt_str b.title) (
        opt_field "description" (opt_str b.description) (
          opt_field "severity" (opt_str b.severity) (
            opt_field "status" (opt_str b.status) (
              opt_field "compliance_id" (opt_str b.compliance_id)
                (opt_field "regulation_id" (opt_str b.regulation_id) end)))))))

unfoldable pub search : ListQuery → Request
search q = Http.post (path Api.violations_search) (some (query_json q))

unfoldable pub get : String → Request
get id = Http.post (path Api.violations_get) (some (id_body id))

unfoldable pub create : ViolationCreateBody → Request
create body = Http.post (path Api.violations) (some (violation_create_body_json body))

unfoldable pub update : ViolationUpdateBody → Request
update body = Http.patch (path Api.violations) (some (violation_update_body_json body))

unfoldable pub remove : String → Request
remove id = Http.del (path Api.violations) (some (id_body id))

unfoldable pub resolve : String → Request
resolve id = Http.post (path Api.violations_resolve) (some (id_body id))
