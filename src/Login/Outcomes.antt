-- ===== src/Login/Outcomes.antt =====
-- What an attempt to sign in leads to.
use workflow_enterprise_comp.Prelude.{
  true, false, ◌≡◌, ◌↔◌, ◌⊎◌, Option, none, some, is_some, truthy, List, [], ◌∷◌, refl, arith,
  nonempty, trim,
}
use workflow_enterprise_comp.Entities.{LoginResponse, MeResponse}
use workflow_enterprise_comp.Client.{Answer, rejected, ApiError, receive}
use workflow_enterprise_comp.Client.Receive.{receive_state}
use workflow_enterprise_comp.Client.Messages.{rejected-Tells}
use workflow_enterprise_comp.Session.{host, sign_in, load, require_auth, children, authenticated}
use workflow_enterprise_comp.Login.{
  LoginForm, LoginScreen, LoginEdit, username_typed, password_typed, password_toggled, edit,
  send_form, refused, entered, submit, settle, load_if, show_error,
}

-- The login form asks the backend exactly when the username is not blank and the password is not
-- empty; otherwise it shows an error, and it waits for an answer only if it asks.
pub submit-Asks :
    (f : LoginForm)
    → ((is_some (submit f).1 ≡ true)
        ↔ ((nonempty (trim f.username) ≡ true) × (nonempty f.password ≡ true)))
      × (((is_some (submit f).1 ≡ true)
            × ((submit f).0.loading ≡ true)
            × ((submit f).0.error ≡ none))
          ⊎ ((is_some (submit f).1 ≡ false)
              × ((submit f).0.loading ≡ f.loading)
              × (truthy (submit f).0.error ≡ true)))
unfolding submit
submit-Asks f = ground arith

abbrev pub edited : LoginForm → List LoginEdit → LoginForm
edited f [] = f
edited f (e ∷ es) = edited (edit e f) es

edited-loading : (es : List LoginEdit) (f : LoginForm) → (edited f es).loading ≡ f.loading
unfolding edit
edited-loading [] f = refl
edited-loading (username_typed t ∷ es) f = edited-loading es (edit (username_typed t) f)
edited-loading (password_typed t ∷ es) f = edited-loading es (edit (password_typed t) f)
edited-loading (password_toggled ∷ es) f = edited-loading es (edit password_toggled f)

-- A form that has asked the backend does not ask again before it is answered, whatever is typed
-- meanwhile.
pub asks_once :
    (f : LoginForm) (es : List LoginEdit)
    → is_some (send_form f).1 ≡ true
    → (send_form (edited (send_form f).0 es)).1 ≡ none
unfolding send_form submit
asks_once f es h = ground (arith, edited-loading es (send_form f).0)

-- A login that is rejected, where the client holds no token, changes neither the session nor the
-- location; the form shows a message that is not empty, and no longer waits.
pub settle-refused :
    (a : Answer) (e : ApiError) (p : LoginScreen)
    → truthy p.app.client ≡ false
    → (receive host p.app a).0 ≡ rejected e
    → ((receive host p.app a).1 ≡ p.app)
      × ((settle (refused e) p).app ≡ p.app)
      × ((settle (refused e) p).location ≡ p.location)
      × (truthy (settle (refused e) p).form.error ≡ true)
      × ((settle (refused e) p).form.loading ≡ false)
unfolding settle show_error
settle-refused a e p fresh h =
    ground (arith, receive_state host p.app a, rejected-Tells host p.app a e h)

-- A login that succeeds with a token leads to the console, where the guard lets the session
-- through, whether /auth/me answers or not; its status is authenticated exactly if it does.
pub settle-entered :
    (res : LoginResponse) (me : Option MeResponse) (p : LoginScreen)
    → nonempty res.access_token ≡ true
    → ((settle (entered res me) p).location ≡ some "/app")
      × ((settle (entered res me) p).app.client ≡ some res.access_token)
      × (require_auth (settle (entered res me) p).app.auth ≡ children)
      × (((settle (entered res me) p).app.auth.status ≡ authenticated) ↔ (is_some me ≡ true))
unfolding settle load_if sign_in load require_auth
settle-entered res none p h = ground arith
settle-entered res (some me) p h = ground arith
