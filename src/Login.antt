-- ===== src/Login.antt =====
-- The login form, frontend/src/features/auth/pages/LoginPage.tsx: its state, its submit handler up
-- to the request, and what the handler does with the answers to the login and to /auth/me.
pub mod Outcomes
use workflow_enterprise_comp.Prelude.{
  String, Bool, true, false, not, ◌||◌, Option, none, some, nonempty, trim, if◌then◌else◌,
}
use workflow_enterprise_comp.Entities.{LoginResponse, MeResponse}
use workflow_enterprise_comp.Client.{Request, ApiError, user_message}
use workflow_enterprise_comp.Session.{App, sign_in, load}
use workflow_enterprise_comp.Services.Auth

pub record LoginForm : Type 0 where
  pub username : String
  pub password : String
  pub show_password : Bool
  pub error : Option String
  pub loading : Bool

abbrev pub empty_form : LoginForm
empty_form = record {
  username = "";
  password = "";
  show_password = false;
  error = none;
  loading = false;
}

pub data LoginEdit : Type 0 where
  username_typed password_typed : String → LoginEdit
  password_toggled : LoginEdit

-- The change handlers of the inputs, and the button that shows the password.
unfoldable pub edit : LoginEdit → LoginForm → LoginForm
edit (username_typed t) f = record f { username = t }
edit (password_typed t) f = record f { password = t }
edit password_toggled f = record f { show_password = not f.show_password }

unfoldable pub password_input_type : LoginForm → String
password_input_type f = if f.show_password then "text" else "password"

-- `submit` up to the request, if it makes one.
unfoldable pub submit : LoginForm → LoginForm × Option Request
submit f =
    if not (nonempty (trim f.username)) || not (nonempty f.password)
    then (record f { error = some "Enter both your username and password." }, none)
    else (record f { loading = true; error = none }, some (Auth.login (trim f.username) f.password))

-- The form is sent by its button, which is disabled while it loads, or by the enter key, which goes
-- through that button.
unfoldable pub send_form : LoginForm → LoginForm × Option Request
unfolding submit
send_form f = if f.loading then (f, none) else submit f

-- What the login and, if it succeeds, /auth/me answer.
pub data LoginOutcome : Type 0 where
  refused : ApiError → LoginOutcome
  lost : LoginOutcome
  entered : LoginResponse → Option MeResponse → LoginOutcome

-- The page with its form, the application, and where the page has navigated to.
pub record LoginScreen : Type 0 where
  pub form : LoginForm
  pub app : App
  pub location : Option String

load_if : Option MeResponse → App → App
load_if none s = s
load_if (some me) s = load me s

show_error : String → LoginScreen → LoginScreen
show_error message p = record p { form = record (p.form) { error = some message; loading = false } }

-- The rest of `submit`.
unfoldable pub settle : LoginOutcome → LoginScreen → LoginScreen
unfolding load_if show_error
settle (refused e) p = show_error (user_message e) p
settle lost p = show_error "Sign-in failed — please try again." p
settle (entered res me) p = record p {
  app = load_if me (sign_in res p.app);
  location = some "/app";
}
