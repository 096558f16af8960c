-- ===== src/Tests/Deletions.antt =====
-- A deletion on the audits page that the backend refuses.
use workflow_enterprise_comp.Prelude.{
  true, false, ◌≡◌, none, some, [], ◌∷◌, refl, arith, eq_iff, pos,
}
use workflow_enterprise_comp.Json.{null}
use workflow_enterprise_comp.Entities.{Audit}
use workflow_enterprise_comp.Client.{ApiError, user_message}
use workflow_enterprise_comp.CursorList.{Paginated}
use workflow_enterprise_comp.Toasts.{initial_state, error, notify}
use workflow_enterprise_comp.Services.Audits
use workflow_enterprise_comp.Pages.Common.{failed}
use workflow_enterprise_comp.Pages.Audits.{remove_mutation}
use workflow_enterprise_comp.Pages.Deletion.{DeleteState, confirm, settle, settle-confirm_refused}
use workflow_enterprise_comp.Pages.Deletion.Instances.{audits_deletion}
use workflow_enterprise_comp.Tests.Data.{audit}

abbrev conflict : ApiError
conflict = record { status = 409; code = "conflict"; message = "Audit is in progress"; body = null }

abbrev first_page : Paginated Audit
first_page = record {
  items = audit ∷ [];
  pagination = record {
    count = pos 1;
    limit = 20;
    has_more = false;
    cursor = none;
    next_cursor = none;
    total = none;
  };
}

abbrev asked : DeleteState Audit
asked = record {
  dialogs = record { create_open = false; edit_target = none; delete_target = some audit };
  cache = ("[]", some first_page) ∷ ("[k1]", none) ∷ [];
  snapshot = none;
  is_stale = false;
  toasts = record initial_state { bridged = true };
}

settle-confirm_refused_example :
    ((confirm audits_deletion asked).1 ≡ some (Audits.remove audit.id))
    × ((settle audits_deletion
          (failed conflict)
          (confirm audits_deletion asked).0).dialogs.delete_target
        ≡ none)
    × ((settle audits_deletion (failed conflict) (confirm audits_deletion asked).0).cache
        ≡ asked.cache)
    × ((settle audits_deletion (failed conflict) (confirm audits_deletion asked).0).is_stale ≡ true)
    × ((settle audits_deletion (failed conflict) (confirm audits_deletion asked).0).toasts
        ≡ notify error "Could not delete audit" (some (user_message conflict)) asked.toasts)
unfolding audits_deletion remove_mutation
settle-confirm_refused_example =
    settle-confirm_refused audits_deletion audit conflict asked refl
      ((ground (arith, eq_iff "[k1]" "[]"), tt), (tt, tt))
