-- ===== src/Pages/Deletion/Instances.antt =====
-- What each list page puts into its deletion: `deleteMutation` and the `ConfirmDialog` of
-- frontend/src/features/*/pages.
use workflow_enterprise_comp.Prelude.{◌+s◌}
use workflow_enterprise_comp.Entities.{
  Alert, Audit, Checklist, Compliance, CorrectiveAction, Deadline, Regulation, Report, User,
  Violation,
}
use workflow_enterprise_comp.Pages.Deletion.{DeletePage}
use workflow_enterprise_comp.Pages.Alerts
use workflow_enterprise_comp.Pages.Audits
use workflow_enterprise_comp.Pages.Checklists
use workflow_enterprise_comp.Pages.Compliances
use workflow_enterprise_comp.Pages.CorrectiveActions
use workflow_enterprise_comp.Pages.Deadlines
use workflow_enterprise_comp.Pages.Regulations
use workflow_enterprise_comp.Pages.Reports
use workflow_enterprise_comp.Pages.Users
use workflow_enterprise_comp.Pages.Violations

unfoldable pub alerts_deletion : DeletePage Alert
alerts_deletion = record {
  id_of = λ x. x.id;
  list_key = "alerts-list";
  title = "Delete alert";
  question = λ x. "\"" +s (x.title +s "\" will be removed from the alert list.");
  remove = Alerts.remove_mutation;
}

unfoldable pub audits_deletion : DeletePage Audit
audits_deletion = record {
  id_of = λ x. x.id;
  list_key = "audits-list";
  title = "Delete audit";
  question = λ x.
      "\""
      +s (x.title +s "\" will be soft-deleted and hidden from lists. Audit history is preserved.");
  remove = Audits.remove_mutation;
}

unfoldable pub checklists_deletion : DeletePage Checklist
checklists_deletion = record {
  id_of = λ x. x.id;
  list_key = "checklists-list";
  title = "Delete checklist";
  question = λ x.
      "\""
      +s (x.title +s "\" will be soft-deleted and hidden from lists. Audit history is preserved.");
  remove = Checklists.remove_mutation;
}

unfoldable pub compliances_deletion : DeletePage Compliance
compliances_deletion = record {
  id_of = λ x. x.id;
  list_key = "compliances-list";
  title = "Delete compliance";
  question = λ x.
      "\""
      +s (x.name +s "\" will be soft-deleted and hidden from lists. Audit history is preserved.");
  remove = Compliances.remove_mutation;
}

unfoldable pub corrective_actions_deletion : DeletePage CorrectiveAction
corrective_actions_deletion = record {
  id_of = λ x. x.id;
  list_key = "corrective-actions-list";
  title = "Delete corrective action";
  question = λ x.
      "\""
      +s (x.title +s "\" will be soft-deleted and hidden from lists. Audit history is preserved.");
  remove = CorrectiveActions.remove_mutation;
}

unfoldable pub deadlines_deletion : DeletePage Deadline
deadlines_deletion = record {
  id_of = λ x. x.id;
  list_key = "deadlines-list";
  title = "Delete deadline";
  question = λ x.
      "\""
      +s (x.title +s "\" will be soft-deleted and hidden from lists. Audit history is preserved.");
  remove = Deadlines.remove_mutation;
}

unfoldable pub regulations_deletion : DeletePage Regulation
regulations_deletion = record {
  id_of = λ x. x.id;
  list_key = "regulations-list";
  title = "Delete regulation";
  question = λ x.
      "\""
      +s (x.title +s "\" will be soft-deleted and hidden from lists. Audit history is preserved.");
  remove = Regulations.remove_mutation;
}

unfoldable pub reports_deletion : DeletePage Report
reports_deletion = record {
  id_of = λ x. x.id;
  list_key = "reports-list";
  title = "Delete report";
  question = λ x.
      "\""
      +s (x.title +s "\" will be soft-deleted and hidden from lists. Audit history is preserved.");
  remove = Reports.remove_mutation;
}

unfoldable pub users_deletion : DeletePage User
users_deletion = record {
  id_of = λ x. x.id;
  list_key = "users-list";
  title = "Delete user";
  question = λ x.
      "\""
      +s (x.username
          +s "\" will be deactivated immediately and their active session invalidated. This can be undone by an administrator if needed.");
  remove = Users.remove_mutation;
}

unfoldable pub violations_deletion : DeletePage Violation
violations_deletion = record {
  id_of = λ x. x.id;
  list_key = "violations-list";
  title = "Delete violation";
  question = λ x.
      "\""
      +s (x.title +s "\" will be soft-deleted and hidden from lists. Audit history is preserved.");
  remove = Violations.remove_mutation;
}
