-- ===== src/Tests/Logins.antt =====
-- The login form.
use workflow_enterprise_comp.Prelude.{true, false, ◌≡◌, none, refl, truthy}
use workflow_enterprise_comp.Client.{unreachable, receive, network_error}
use workflow_enterprise_comp.Session.{host}
use workflow_enterprise_comp.Login.{LoginForm, LoginScreen, refused, settle}
use workflow_enterprise_comp.Login.Outcomes.{settle-refused}
use workflow_enterprise_comp.Tests.Data.{fresh_app}

abbrev login_form : LoginForm
login_form = record {
  username = " bob ";
  password = "secret";
  show_password = false;
  error = none;
  loading = false;
}

abbrev login_screen : LoginScreen
login_screen = record {
  form = record login_form { loading = true };
  app = fresh_app;
  location = none;
}

settle-refused_example :
    ((receive host fresh_app unreachable).1 ≡ fresh_app)
    × ((settle (refused network_error) login_screen).app ≡ fresh_app)
    × ((settle (refused network_error) login_screen).location ≡ none)
    × (truthy (settle (refused network_error) login_screen).form.error ≡ true)
    × ((settle (refused network_error) login_screen).form.loading ≡ false)
unfolding receive
settle-refused_example = settle-refused unreachable network_error login_screen refl refl
