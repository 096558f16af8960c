-- ===== src/Services/Observe.antt =====
-- The requests of the services that only read: frontend/src/services/analytics.service.ts,
-- auditlogs.service.ts, roles.service.ts and sagas.service.ts beside it.
use workflow_enterprise_comp.Prelude.{ℕ, String, Option, none, some, get_or, false}
use workflow_enterprise_comp.Json.{obj, field, end, str, num, opt_field, opt_str}
use workflow_enterprise_comp.Client.{Request}
use workflow_enterprise_comp.Http
use workflow_enterprise_comp.Http.{ListQuery, query_json, id_body}
use workflow_enterprise_comp.Paths.Api.{Api, path}

pub data Summary : Type 0 where
  summary compliances audits violations deadlines : Summary

-- The five operations of `analyticsApi`.
unfoldable pub analytics : Summary → Request
analytics summary = Http.post (path Api.analytics_summary) (some (obj end))
analytics compliances = Http.post (path Api.analytics_compliances) (some (obj end))
analytics audits = Http.post (path Api.analytics_audits) (some (obj end))
analytics violations = Http.post (path Api.analytics_violations) (some (obj end))
analytics deadlines = Http.post (path Api.analytics_deadlines) (some (obj end))

unfoldable pub audit_logs_search : ListQuery → Request
audit_logs_search q = Http.post (path Api.audit_logs_search) (some (query_json q))

unfoldable pub audit_logs_get : String → Request
audit_logs_get id = Http.post (path Api.audit_logs_get) (some (id_body id))

unfoldable pub roles_search : ListQuery → Request
roles_search q = Http.post (path Api.roles_search) (some (query_json q))

unfoldable pub roles_list_all : Request
unfolding roles_search
roles_list_all = roles_search (record {
  cursor = none;
  limit = some 100;
  sort = some (record { column = "name"; direction = Http.asc });
  filters = none;
  date_range = none;
  include_summary = some false;
})

unfoldable pub sagas_search : Option String → Option String → Option ℕ → Request
sagas_search type status limit = Http.post (path Api.sagas_search) (
    some (
      obj (
        opt_field "type" (opt_str type)
          (opt_field "status" (opt_str status) (field "limit" (num (get_or limit 50)) end)))))

unfoldable pub sagas_get : String → String → Request
sagas_get type entity_id =
    Http.post (path Api.sagas_get)
      (some (obj (field "type" (str type) (field "entity_id" (str entity_id) end))))
