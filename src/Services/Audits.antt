-- ===== src/Services/Audits.antt =====
-- The requests of frontend/src/services/audits.service.ts.
use workflow_enterprise_comp.Prelude.{String, Option, some}
use workflow_enterprise_comp.Json.{Json, obj, field, end, str, opt_field, opt_str, nullable_str}
use workflow_enterprise_comp.Client.{Request}
use workflow_enterprise_comp.Http
use workflow_enterprise_comp.Http.{ListQuery, query_json, id_body}
use workflow_enterprise_comp.Paths.Api.{Api, path}

pub record AuditCreateBody : Type 0 where
  pub title : String
  pub description : Option String
  pub status : Option String
  pub compliance_id : Option String
  pub auditor_id : Option String
  pub scheduled_at : Option (Option String)

unfoldable pub audit_create_body_json : AuditCreateBody → Json
audit_create_body_json b = obj (
    field "title" (str b.title) (
      opt_field "description" (opt_str b.description) (
        opt_field "status" (opt_str b.status) (
          opt_field "compliance_id" (opt_str b.compliance_id) (
            opt_field "auditor_id" (opt_str b.auditor_id)
              (opt_field "scheduled_at" (nullable_str b.scheduled_at) end))))))

pub record AuditUpdateBody : Type 0 where
  pub id : String
  pub title : Option String
  pub description : Option String
  pub status : Option String
  pub compliance_id : Option String
  pub auditor_id : Option String
  pub scheduled_at : Option (Option String)

unfoldable pub audit_update_body_json : AuditUpdateBody → Json
audit_update_body_json b = obj (
    field "id" (str b.id) (
      opt_field "title" (opt_str b.title) (
        opt_field "description" (opt_str b.description) (
          opt_field "status" (opt_str b.status) (
            opt_field "compliance_id" (opt_str b.compliance_id) (
              opt_field "auditor_id" (opt_str b.auditor_id)
                (opt_field "scheduled_at" (nullable_str b.scheduled_at) end)))))))

unfoldable pub search : ListQuery → Request
search q = Http.post (path Api.audits_search) (some (query_json q))

unfoldable pub get : String → Request
get id = Http.post (path Api.audits_get) (some (id_body id))

unfoldable pub create : AuditCreateBody → Request
create body = Http.post (path Api.audits) (some (audit_create_body_json body))

unfoldable pub update : AuditUpdateBody → Request
update body = Http.patch (path Api.audits) (some (audit_update_body_json body))

unfoldable pub remove : String → Request
remove id = Http.del (path Api.audits) (some (id_body id))

unfoldable pub start : String → Request
start id = Http.post (path Api.audits_start) (some (id_body id))

unfoldable pub complete : String → Request
complete id = Http.post (path Api.audits_complete) (some (id_body id))
