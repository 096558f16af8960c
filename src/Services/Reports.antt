-- ===== src/Services/Reports.antt =====
-- The requests of frontend/src/services/reports.service.ts.
use workflow_enterprise_comp.Prelude.{String, Option, some}
use workflow_enterprise_comp.Json.{Json, obj, field, end, str, opt_field, opt_str}
use workflow_enterprise_comp.Client.{Request}
use workflow_enterprise_comp.Http
use workflow_enterprise_comp.Http.{ListQuery, query_json, id_body}
use workflow_enterprise_comp.Paths.Api.{Api, path}

pub record ReportGenerateBody : Type 0 where
  pub title : String
  pub type : Option String
  pub description : Option String
  pub compliance_id : Option String

unfoldable pub report_generate_body_json : ReportGenerateBody → Json
report_generate_body_json b = obj (
    field "title" (str b.title) (
      opt_field "type" (opt_str b.type) (
        opt_field "description" (opt_str b.description)
          (opt_field "compliance_id" (opt_str b.compliance_id) end))))

pub record ReportUpdateBody : Type 0 where
  pub id : String
  pub title : Option String
  pub type : Option String
  pub status : Option String
  pub description : Option String
  pub compliance_id : Option String

unfoldable pub report_update_body_json : ReportUpdateBody → Json
report_update_body_json b = obj (
    field "id" (str b.id) (
      opt_field "title" (opt_str b.title) (
        opt_field "type" (opt_str b.type) (
          opt_field "status" (opt_str b.status) (
            opt_field "description" (opt_str b.description)
              (opt_field "compliance_id" (opt_str b.compliance_id) end))))))

unfoldable pub search : ListQuery → Request
search q = Http.post (path Api.reports_search) (some (query_json q))

unfoldable pub get : String → Request
get id = Http.post (path Api.reports_get) (some (id_body id))

unfoldable pub generate : ReportGenerateBody → Request
generate body = Http.post (path Api.reports_generate) (some (report_generate_body_json body))

unfoldable pub update : ReportUpdateBody → Request
update body = Http.patch (path Api.reports) (some (report_update_body_json body))

unfoldable pub remove : String → Request
remove id = Http.del (path Api.reports) (some (id_body id))
