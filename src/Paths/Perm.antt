-- ===== src/Paths/Perm.antt =====
-- The permissions that the console tests, `PERM` of frontend/src/services/api/paths.ts: a
-- constructor for each key, and the route that it stands for.
use workflow_enterprise_comp.Prelude.{String}

pub data Perm : Type 0 where
  users_create users_search users_get users_update users_delete : Perm
  compliances_create compliances_search compliances_update compliances_delete : Perm
  compliances_check alerts_search alerts_get alerts_create alerts_update : Perm
  alerts_delete alerts_acknowledge alerts_resolve violations_search : Perm
  violations_get violations_create violations_update violations_delete : Perm
  violations_resolve regulations_search regulations_get regulations_create : Perm
  regulations_update regulations_delete checklists_search checklists_get : Perm
  checklists_create checklists_update checklists_delete deadlines_search : Perm
  deadlines_get deadlines_create deadlines_update deadlines_delete : Perm
  deadlines_complete corrective_actions_search corrective_actions_get : Perm
  corrective_actions_create corrective_actions_update corrective_actions_delete : Perm
  corrective_actions_complete audits_search audits_get audits_create : Perm
  audits_update audits_delete audits_start audits_complete reports_search : Perm
  reports_get reports_create reports_update reports_delete reports_generate : Perm
  notifications_send notifications_events sagas_search sagas_get : Perm
  analytics_summary analytics_compliances analytics_audits analytics_violations : Perm
  analytics_deadlines audit_logs_search audit_logs_get options : Perm

unfoldable pub route : Perm → String
route users_create = "POST /api/v1/users"
route users_search = "POST /api/v1/users/search"
route users_get = "POST /api/v1/users/get"
route users_update = "PATCH /api/v1/users"
route users_delete = "DELETE /api/v1/users"
route compliances_create = "POST /api/v1/compliances"
route compliances_search = "POST /api/v1/compliances/search"
route compliances_update = "PATCH /api/v1/compliances"
route compliances_delete = "DELETE /api/v1/compliances"
route compliances_check = "POST /api/v1/compliances/check"
route alerts_search = "POST /api/v1/alerts/search"
route alerts_get = "POST /api/v1/alerts/get"
route alerts_create = "POST /api/v1/alerts"
route alerts_update = "PATCH /api/v1/alerts"
route alerts_delete = "DELETE /api/v1/alerts"
route alerts_acknowledge = "POST /api/v1/alerts/acknowledge"
route alerts_resolve = "POST /api/v1/alerts/resolve"
route violations_search = "POST /api/v1/violations/search"
route violations_get = "POST /api/v1/violations/get"
route violations_create = "POST /api/v1/violations"
route violations_update = "PATCH /api/v1/violations"
route violations_delete = "DELETE /api/v1/violations"
route violations_resolve = "POST /api/v1/violations/resolve"
route regulations_search = "POST /api/v1/regulations/search"
route regulations_get = "POST /api/v1/regulations/get"
route regulations_create = "POST /api/v1/regulations"
route regulations_update = "PATCH /api/v1/regulations"
route regulations_delete = "DELETE /api/v1/regulations"
route checklists_search = "POST /api/v1/checklists/search"
route checklists_get = "POST /api/v1/checklists/get"
route checklists_create = "POST /api/v1/checklists"
route checklists_update = "PATCH /api/v1/checklists"
route checklists_delete = "DELETE /api/v1/checklists"
route deadlines_search = "POST /api/v1/deadlines/search"
route deadlines_get = "POST /api/v1/deadlines/get"
route deadlines_create = "POST /api/v1/deadlines"
route deadlines_update = "PATCH /api/v1/deadlines"
route deadlines_delete = "DELETE /api/v1/deadlines"
route deadlines_complete = "POST /api/v1/deadlines/complete"
route corrective_actions_search = "POST /api/v1/corrective-actions/search"
route corrective_actions_get = "POST /api/v1/corrective-actions/get"
route corrective_actions_create = "POST /api/v1/corrective-actions"
route corrective_actions_update = "PATCH /api/v1/corrective-actions"
route corrective_actions_delete = "DELETE /api/v1/corrective-actions"
route corrective_actions_complete = "POST /api/v1/corrective-actions/complete"
route audits_search = "POST /api/v1/audits/search"
route audits_get = "POST /api/v1/audits/get"
route audits_create = "POST /api/v1/audits"
route audits_update = "PATCH /api/v1/audits"
route audits_delete = "DELETE /api/v1/audits"
route audits_start = "POST /api/v1/audits/start"
route audits_complete = "POST /api/v1/audits/complete"
route reports_search = "POST /api/v1/reports/search"
route reports_get = "POST /api/v1/reports/get"
route reports_create = "POST /api/v1/reports"
route reports_update = "PATCH /api/v1/reports"
route reports_delete = "DELETE /api/v1/reports"
route reports_generate = "POST /api/v1/reports/generate"
route notifications_send = "POST /api/v1/notifications/send"
route notifications_events = "POST /api/v1/notifications/events"
route sagas_search = "POST /api/v1/sagas/search"
route sagas_get = "POST /api/v1/sagas/get"
route analytics_summary = "POST /api/v1/analytics/summary"
route analytics_compliances = "POST /api/v1/analytics/compliances"
route analytics_audits = "POST /api/v1/analytics/audits"
route analytics_violations = "POST /api/v1/analytics/violations"
route analytics_deadlines = "POST /api/v1/analytics/deadlines"
route audit_logs_search = "POST /api/v1/audit-logs/search"
route audit_logs_get = "POST /api/v1/audit-logs/get"
route options = "POST /api/v1/options"
