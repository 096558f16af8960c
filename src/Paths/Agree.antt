-- ===== src/Paths/Agree.antt =====
-- The permission routes against the paths.
use workflow_enterprise_comp.Prelude.{◌≡◌, refl, ◌+s◌}
use workflow_enterprise_comp.Client.{Method, post, patch, delete, method_name}
use workflow_enterprise_comp.Paths.Api.{Api, path}
use workflow_enterprise_comp.Paths.Perm.{Perm, route}

-- Every permission route is a method, a blank and one of the paths that the console calls.
pub route-path :
    (p : Perm) → (m : Method) × (a : Api) × (route p ≡ method_name m +s (" " +s path a))
unfolding route path
route-path Perm.users_create = (post, Api.users, refl)
route-path Perm.users_search = (post, Api.users_search, refl)
route-path Perm.users_get = (post, Api.users_get, refl)
route-path Perm.users_update = (patch, Api.users, refl)
route-path Perm.users_delete = (delete, Api.users, refl)
route-path Perm.compliances_create = (post, Api.compliances, refl)
route-path Perm.compliances_search = (post, Api.compliances_search, refl)
route-path Perm.compliances_update = (patch, Api.compliances, refl)
route-path Perm.compliances_delete = (delete, Api.compliances, refl)
route-path Perm.compliances_check = (post, Api.compliances_check, refl)
route-path Perm.alerts_search = (post, Api.alerts_search, refl)
route-path Perm.alerts_get = (post, Api.alerts_get, refl)
route-path Perm.alerts_create = (post, Api.alerts, refl)
route-path Perm.alerts_update = (patch, Api.alerts, refl)
route-path Perm.alerts_delete = (delete, Api.alerts, refl)
route-path Perm.alerts_acknowledge = (post, Api.alerts_acknowledge, refl)
route-path Perm.alerts_resolve = (post, Api.alerts_resolve, refl)
route-path Perm.violations_search = (post, Api.violations_search, refl)
route-path Perm.violations_get = (post, Api.violations_get, refl)
route-path Perm.violations_create = (post, Api.violations, refl)
route-path Perm.violations_update = (patch, Api.violations, refl)
route-path Perm.violations_delete = (delete, Api.violations, refl)
route-path Perm.violations_resolve = (post, Api.violations_resolve, refl)
route-path Perm.regulations_search = (post, Api.regulations_search, refl)
route-path Perm.regulations_get = (post, Api.regulations_get, refl)
route-path Perm.regulations_create = (post, Api.regulations, refl)
route-path Perm.regulations_update = (patch, Api.regulations, refl)
route-path Perm.regulations_delete = (delete, Api.regulations, refl)
route-path Perm.checklists_search = (post, Api.checklists_search, refl)
route-path Perm.checklists_get = (post, Api.checklists_get, refl)
route-path Perm.checklists_create = (post, Api.checklists, refl)
route-path Perm.checklists_update = (patch, Api.checklists, refl)
route-path Perm.checklists_delete = (delete, Api.checklists, refl)
route-path Perm.deadlines_search = (post, Api.deadlines_search, refl)
route-path Perm.deadlines_get = (post, Api.deadlines_get, refl)
route-path Perm.deadlines_create = (post, Api.deadlines, refl)
route-path Perm.deadlines_update = (patch, Api.deadlines, refl)
route-path Perm.deadlines_delete = (delete, Api.deadlines, refl)
route-path Perm.deadlines_complete = (post, Api.deadlines_complete, refl)
route-path Perm.corrective_actions_search = (post, Api.corrective_actions_search, refl)
route-path Perm.corrective_actions_get = (post, Api.corrective_actions_get, refl)
route-path Perm.corrective_actions_create = (post, Api.corrective_actions, refl)
route-path Perm.corrective_actions_update = (patch, Api.corrective_actions, refl)
route-path Perm.corrective_actions_delete = (delete, Api.corrective_actions, refl)
route-path Perm.corrective_actions_complete = (post, Api.corrective_actions_complete, refl)
route-path Perm.audits_search = (post, Api.audits_search, refl)
route-path Perm.audits_get = (post, Api.audits_get, refl)
route-path Perm.audits_create = (post, Api.audits, refl)
route-path Perm.audits_update = (patch, Api.audits, refl)
route-path Perm.audits_delete = (delete, Api.audits, refl)
route-path Perm.audits_start = (post, Api.audits_start, refl)
route-path Perm.audits_complete = (post, Api.audits_complete, refl)
route-path Perm.reports_search = (post, Api.reports_search, refl)
route-path Perm.reports_get = (post, Api.reports_get, refl)
route-path Perm.reports_create = (post, Api.reports, refl)
route-path Perm.reports_update = (patch, Api.reports, refl)
route-path Perm.reports_delete = (delete, Api.reports, refl)
route-path Perm.reports_generate = (post, Api.reports_generate, refl)
route-path Perm.notifications_send = (post, Api.notifications_send, refl)
route-path Perm.notifications_events = (post, Api.notifications_events, refl)
route-path Perm.sagas_search = (post, Api.sagas_search, refl)
route-path Perm.sagas_get = (post, Api.sagas_get, refl)
route-path Perm.analytics_summary = (post, Api.analytics_summary, refl)
route-path Perm.analytics_compliances = (post, Api.analytics_compliances, refl)
route-path Perm.analytics_audits = (post, Api.analytics_audits, refl)
route-path Perm.analytics_violations = (post, Api.analytics_violations, refl)
route-path Perm.analytics_deadlines = (post, Api.analytics_deadlines, refl)
route-path Perm.audit_logs_search = (post, Api.audit_logs_search, refl)
route-path Perm.audit_logs_get = (post, Api.audit_logs_get, refl)
route-path Perm.options = (post, Api.options, refl)
