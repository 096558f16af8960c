-- ===== src/Forms/Users.antt =====
-- The form of frontend/src/features/users/components/UserFormModal.tsx: its fields, how it opens, what it
-- checks, and what it submits.
use workflow_enterprise_comp.Prelude.{
  String, Bool, not, Option, none, some, List, nonempty, get_or, trim, size, ltb, ◌&&◌, ◌++◌,
  if◌then◌else◌, [],
}
use workflow_enterprise_comp.Entities.{User}
use workflow_enterprise_comp.Client.{ApiError}
use workflow_enterprise_comp.Forms.Common.{check, blank, is_empty, failure_message, is_email}

pub record UserFormValues : Type 0 where
  pub username : String
  pub email : String
  pub password : String
  pub role_id : String
  pub status : String

pub record UserForm : Type 0 where
  pub username : String
  pub email : String
  pub password : String
  pub role_id : String
  pub status : String
  pub errors : List (String × String)
  pub submit_error : Option String

-- A password may stay empty when an account is edited.
password_short : Bool → String → Bool
password_short is_edit password =
    if is_edit then nonempty password && ltb (size password) 8 else ltb (size password) 8

-- The effect that runs when the modal opens, for a new record or one to edit.
unfoldable pub seed : Option User → UserForm
seed none = record {
  username = "";
  email = "";
  password = "";
  role_id = "";
  status = "active";
  errors = [];
  submit_error = none;
}
seed (some user) = record {
  username = user.username;
  email = get_or user.email "";
  password = "";
  role_id = get_or user.role_id "";
  status = user.status;
  errors = [];
  submit_error = none;
}

unfoldable pub find_errors : Bool → UserForm → List (String × String)
unfolding password_short
find_errors is_edit f =
    (check (blank f.username) "username" "Username is required.")
    ++ (check (not (nonempty f.role_id)) "role_id"
        "A role is required — every account needs a role.")
    ++ (check (password_short is_edit f.password) "password"
        "Password must be at least 8 characters.")
    ++ (check (nonempty f.email && not (is_email f.email)) "email" "Enter a valid email address.")

unfoldable pub form_values : UserForm → UserFormValues
form_values f = record {
  username = trim f.username;
  email = f.email;
  password = f.password;
  role_id = f.role_id;
  status = f.status;
}

-- The first part of `submit`: the form as it then is, and the values, if they are handed on.
unfoldable pub submit : Bool → UserForm → UserForm × Option UserFormValues
unfolding find_errors form_values
submit is_edit f =
    let errors = find_errors is_edit f in
    if is_empty errors
    then (record f { errors = []; submit_error = none }, some (form_values f))
    else (record f { errors = errors }, none)

-- What `submit` catches: the message of an API error, or a general one.
unfoldable pub submit_failed : Option ApiError → UserForm → UserForm
submit_failed err f = record f { submit_error = some (failure_message err) }
