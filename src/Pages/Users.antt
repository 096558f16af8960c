-- ===== src/Pages/Users.antt =====
-- The page of frontend/src/features/users/pages/UsersPage.tsx: what it
-- filters by, what it offers for a row, and what its mutations ask for and tell.
use workflow_enterprise_comp.Prelude.{String, Option, none, some, List, ◌++◌}
use workflow_enterprise_comp.Json.{Fields, end}
use workflow_enterprise_comp.Client.{Request}
use workflow_enterprise_comp.Http.{DateRangeSpec}
use workflow_enterprise_comp.Entities.{User}
use workflow_enterprise_comp.Session.{AuthState, can}
use workflow_enterprise_comp.Toasts.{success}
use workflow_enterprise_comp.Paths.Perm.{Perm, route}
use workflow_enterprise_comp.Services.Users
use workflow_enterprise_comp.Services.Users.{UserCreateBody, UserUpdateBody}
use workflow_enterprise_comp.Forms.Users.{UserFormValues}
use workflow_enterprise_comp.Pages.Common.{
  DateRangeValue, date_to_range, filter_field, note, Mutation, Act, edit, ask_delete, when,
}

unfoldable pub date_range : DateRangeValue → Option DateRangeSpec
unfolding date_to_range
date_range = date_to_range "created_at"

unfoldable pub filters : String → String → String → Fields
unfolding filter_field
filters debounced_search status_filter role_filter =
    filter_field "username" debounced_search
      (filter_field "status" status_filter (filter_field "role_id" role_filter end))

unfoldable pub create_mutation : Mutation UserCreateBody User
create_mutation = record {
  request = Users.create;
  success_note = λ x. note success "User created" (some x.username);
  failure = "Could not create user";
}

unfoldable pub update_mutation : Mutation UserUpdateBody User
update_mutation = record {
  request = Users.update;
  success_note = λ x. note success "User updated" (some x.username);
  failure = "Could not update user";
}

unfoldable pub remove_mutation : Mutation String (Unit {0})
remove_mutation = record {
  request = Users.remove;
  success_note = λ _. note success "User deleted" none;
  failure = "Could not delete user";
}

-- The items of a row's menu.
unfoldable pub row_actions : AuthState → User → List Act
row_actions a user =
    when (can a (route Perm.users_update)) edit
    ++ (when (can a (route Perm.users_delete)) ask_delete)

-- What confirming a deletion asks for.
unfoldable pub delete_request : User → Request
delete_request user = Users.remove user.id

-- What the form's values ask for: an update of the record that is edited, or a new one.
unfoldable pub submit_request : Option User → UserFormValues → Request
submit_request none values = Users.create (record {
  username = values.username;
  email = some values.email;
  password = values.password;
  role_id = values.role_id;
  status = some values.status;
})
submit_request (some user) values = Users.update (record {
  id = user.id;
  username = some values.username;
  email = some values.email;
  password = some values.password;
  role_id = some values.role_id;
  status = some values.status;
})
