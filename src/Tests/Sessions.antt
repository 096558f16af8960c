-- ===== src/Tests/Sessions.antt =====
-- Sessions: the token over reloads, refusals and log-outs, and what it lets a user see.
use workflow_enterprise_comp.Prelude.{
  ◌⊎◌, Bool, List, [], ◌∷◌, true, ◌≡◌, ◌↔◌, none, some, refl, All, ◌&&◌, str_eq,
}
use workflow_enterprise_comp.Client.{Answer, unreachable, response, receive}
use workflow_enterprise_comp.Session.{
  App, boot, sign_in, give_up, load, bootstrap_fetched, require_auth, to_login, children, can, host,
}
use workflow_enterprise_comp.Session.Store.{boot-give_up}
use workflow_enterprise_comp.Session.Steps
use workflow_enterprise_comp.Session.Steps.{
  Reach, Reach-IsValid, here, answered, entered, loaded, reloaded,
}
use workflow_enterprise_comp.Session.Refusals.{receive_all, handled_once}
use workflow_enterprise_comp.Session.Inheritance.{enter, enter-give_up}
use workflow_enterprise_comp.Access.{permission, next, is_public}
use workflow_enterprise_comp.Access.Mirror.{can-permission, routes}
use workflow_enterprise_comp.Nav.{NavItem, nav_sections, sections, has_items}
use workflow_enterprise_comp.Nav.Visible.{may_open, offers, sections-offers}
use workflow_enterprise_comp.Pages.Catalogue.{Page, menu}
use workflow_enterprise_comp.Pages.Permitted.{IsPermitted, menu-IsPermitted}
use workflow_enterprise_comp.Tests.Data.{
  auditor, alice, bob, bob_login, bob_auth, fresh_storage, fresh_app, audit,
}

may_start : can bob_auth "POST /api/v1/audits/start" ≡ true
unfolding can
may_start = refl

boot-give_up_example :
    (require_auth (give_up (sign_in bob_login fresh_app)).auth ≡ to_login)
    × ((boot (give_up (sign_in bob_login fresh_app)).storage).auth.token ≡ some "token-of-bob")
    × (require_auth (boot (give_up (sign_in bob_login fresh_app)).storage).auth ≡ children)
boot-give_up_example = boot-give_up bob_login fresh_app refl refl

abbrev refused_app : App
refused_app =
    (receive host (load bob (sign_in bob_login (boot fresh_storage))) (response 401 none)).1

Reach-IsValid_example : Steps.IsValid (boot refused_app.storage)
Reach-IsValid_example = Reach-IsValid fresh_storage (
    Reach.next
      (Reach.next (Reach.next (Reach.next here (entered bob_login)) (loaded bob))
        (answered (response 401 none)))
      reloaded)

enter-give_up_example :
    ((enter bob_login bob (give_up (bootstrap_fetched alice fresh_app))).auth.token
      ≡ some "token-of-bob")
    × ((enter bob_login bob (give_up (bootstrap_fetched alice fresh_app))).auth.user
        ≡ some alice.user)
    × ((enter bob_login bob (give_up (bootstrap_fetched alice fresh_app))).auth.role
        ≡ some alice.role)
    × ((enter bob_login bob (give_up (bootstrap_fetched alice fresh_app))).auth.permissions
        ≡ alice.permissions)
enter-give_up_example = enter-give_up alice bob bob_login fresh_app

can-permission_example :
    (can bob_auth "POST /api/v1/audits/start" ≡ true)
    ↔ (permission "auditor" (some (routes bob.permissions)) "POST" "/api/v1/audits/start" ≡ next)
unfolding is_public
can-permission_example =
    can-permission bob_auth auditor "POST" "/api/v1/audits/start" refl refl refl

menu-IsPermitted_example :
    All (IsPermitted Page.audits bob_auth audit) (menu Page.audits bob_auth audit)
menu-IsPermitted_example = menu-IsPermitted Page.audits bob_auth audit

abbrev is_audits : NavItem → Bool
is_audits i = str_eq i.to "/app/audits"

sections-offers_example :
    (offers is_audits (sections bob_auth nav_sections)
      ≡ offers (λ i. may_open bob_auth i && is_audits i) nav_sections)
    × All (λ s. has_items s ≡ true) (sections bob_auth nav_sections)
sections-offers_example = sections-offers is_audits bob_auth nav_sections

abbrev in_flight : List Answer
in_flight = response 401 none ∷ unreachable ∷ response 200 none ∷ []

handled_once_example :
    (receive_all in_flight (sign_in bob_login fresh_app, 0) ≡ (sign_in bob_login fresh_app, 0))
    ⊎ (receive_all in_flight (sign_in bob_login fresh_app, 0)
        ≡ (give_up (sign_in bob_login fresh_app), 1))
handled_once_example = handled_once in_flight (sign_in bob_login fresh_app)
