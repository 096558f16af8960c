-- ===== src/Services/Compliances.antt =====
-- The requests of frontend/src/services/compliances.service.ts.
use workflow_enterprise_comp.Prelude.{Bool, String, Option, some}
use workflow_enterprise_comp.Json.{Json, obj, field, end, str, opt_field, opt_str, nullable_str}
use workflow_enterprise_comp.Entities.{Compliance}
use workflow_enterprise_comp.Client.{Request}
use workflow_enterprise_comp.Http
use workflow_enterprise_comp.Http.{ListQuery, query_json, id_body}
use workflow_enterprise_comp.Paths.Api.{Api, path}

pub record ComplianceCreateBody : Type 0 where
  pub name : String
  pub description : Option String
  pub status : Option String
  pub risk_level : Option String
  pub owner_id : Option String
  pub regulation_id : Option String
  pub due_date : Option (Option String)
  pub metadata : Option Json

unfoldable pub compliance_create_body_json : ComplianceCreateBody → Json
compliance_create_body_json b = obj (
    field "name" (str b.name) (
      opt_field "description" (opt_str b.description) (
        opt_field "status" (opt_str b.status) (
          opt_field "risk_level" (opt_str b.risk_level) (
            opt_field "owner_id" (opt_str b.owner_id) (
              opt_field "regulation_id" (opt_str b.regulation_id) (
                opt_field "due_date" (nullable_str b.due_date)
                  (opt_field "metadata" b.metadata end))))))))

pub record ComplianceUpdateBody : Type 0 where
  pub id : String
  pub name : Option String
  pub description : Option String
  pub status : Option String
  pub risk_level : Option String
  pub owner_id : Option String
  pub regulation_id : Option String
  pub due_date : Option (Option String)

unfoldable pub compliance_update_body_json : ComplianceUpdateBody → Json
compliance_update_body_json b = obj (
    field "id" (str b.id) (
      opt_field "name" (opt_str b.name) (
        opt_field "description" (opt_str b.description) (
          opt_field "status" (opt_str b.status) (
            opt_field "risk_level" (opt_str b.risk_level) (
              opt_field "owner_id" (opt_str b.owner_id) (
                opt_field "regulation_id" (opt_str b.regulation_id)
                  (opt_field "due_date" (nullable_str b.due_date) end))))))))

pub record CheckResult : Type 0 where
  pub compliance : Compliance
  pub changed : Bool
  pub reason : String

unfoldable pub search : ListQuery → Request
search q = Http.post (path Api.compliances_search) (some (query_json q))

unfoldable pub get : String → Request
get id = Http.post (path Api.compliances_get) (some (id_body id))

unfoldable pub create : ComplianceCreateBody → Request
create body = Http.post (path Api.compliances) (some (compliance_create_body_json body))

unfoldable pub update : ComplianceUpdateBody → Request
update body = Http.patch (path Api.compliances) (some (compliance_update_body_json body))

unfoldable pub remove : String → Request
remove id = Http.del (path Api.compliances) (some (id_body id))

unfoldable pub check : String → Request
check id = Http.post (path Api.compliances_check) (some (id_body id))
