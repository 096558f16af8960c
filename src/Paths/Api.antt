-- ===== src/Paths/Api.antt =====
-- The paths of the backend that the console calls, `API` of frontend/src/services/api/paths.ts: a
-- constructor for each key, and its text.
use workflow_enterprise_comp.Prelude.{String}

pub data Api : Type 0 where
  login me logout roles_search users users_search users_get compliances : Api
  compliances_search compliances_get compliances_check alerts alerts_search : Api
  alerts_get alerts_acknowledge alerts_resolve violations violations_search : Api
  violations_get violations_resolve regulations regulations_search : Api
  regulations_get checklists checklists_search checklists_get deadlines : Api
  deadlines_search deadlines_get deadlines_complete corrective_actions : Api
  corrective_actions_search corrective_actions_get corrective_actions_complete : Api
  audits audits_search audits_get audits_start audits_complete reports : Api
  reports_search reports_get reports_generate notifications_send : Api
  notifications_events sagas_search sagas_get analytics_summary : Api
  analytics_compliances analytics_audits analytics_violations : Api
  analytics_deadlines audit_logs_search audit_logs_get options : Api

unfoldable pub path : Api → String
path login = "/api/v1/auth/login"
path me = "/api/v1/auth/me"
path logout = "/api/v1/auth/logout"
path roles_search = "/api/v1/roles/search"
path users = "/api/v1/users"
path users_search = "/api/v1/users/search"
path users_get = "/api/v1/users/get"
path compliances = "/api/v1/compliances"
path compliances_search = "/api/v1/compliances/search"
path compliances_get = "/api/v1/compliances/get"
path compliances_check = "/api/v1/compliances/check"
path alerts = "/api/v1/alerts"
path alerts_search = "/api/v1/alerts/search"
path alerts_get = "/api/v1/alerts/get"
path alerts_acknowledge = "/api/v1/alerts/acknowledge"
path alerts_resolve = "/api/v1/alerts/resolve"
path violations = "/api/v1/violations"
path violations_search = "/api/v1/violations/search"
path violations_get = "/api/v1/violations/get"
path violations_resolve = "/api/v1/violations/resolve"
path regulations = "/api/v1/regulations"
path regulations_search = "/api/v1/regulations/search"
path regulations_get = "/api/v1/regulations/get"
path checklists = "/api/v1/checklists"
path checklists_search = "/api/v1/checklists/search"
path checklists_get = "/api/v1/checklists/get"
path deadlines = "/api/v1/deadlines"
path deadlines_search = "/api/v1/deadlines/search"
path deadlines_get = "/api/v1/deadlines/get"
path deadlines_complete = "/api/v1/deadlines/complete"
path corrective_actions = "/api/v1/corrective-actions"
path corrective_actions_search = "/api/v1/corrective-actions/search"
path corrective_actions_get = "/api/v1/corrective-actions/get"
path corrective_actions_complete = "/api/v1/corrective-actions/complete"
path audits = "/api/v1/audits"
path audits_search = "/api/v1/audits/search"
path audits_get = "/api/v1/audits/get"
path audits_start = "/api/v1/audits/start"
path audits_complete = "/api/v1/audits/complete"
path reports = "/api/v1/reports"
path reports_search = "/api/v1/reports/search"
path reports_get = "/api/v1/reports/get"
path reports_generate = "/api/v1/reports/generate"
path notifications_send = "/api/v1/notifications/send"
path notifications_events = "/api/v1/notifications/events"
path sagas_search = "/api/v1/sagas/search"
path sagas_get = "/api/v1/sagas/get"
path analytics_summary = "/api/v1/analytics/summary"
path analytics_compliances = "/api/v1/analytics/compliances"
path analytics_audits = "/api/v1/analytics/audits"
path analytics_violations = "/api/v1/analytics/violations"
path analytics_deadlines = "/api/v1/analytics/deadlines"
path audit_logs_search = "/api/v1/audit-logs/search"
path audit_logs_get = "/api/v1/audit-logs/get"
path options = "/api/v1/options"
