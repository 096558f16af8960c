-- ===== src/Access/Mirror.antt =====
-- The console's `can` against the backend's permission middleware.
use workflow_enterprise_comp.Prelude.{
  String, true, false, ◌≡◌, ◌↔◌, some, List, [], ◌∷◌, map, refl, arith, str_eq, nonempty, any, ◌+s◌,
}
use workflow_enterprise_comp.Entities.{Permission, Role}
use workflow_enterprise_comp.Session.{AuthState, can}
use workflow_enterprise_comp.Access.{is_public, contains, next, permission}

abbrev pub routes : List Permission → List String
routes = map (λ (p : Permission). p.route)

contains-routes :
    (ps : List Permission) (v : String)
    → contains (routes ps) v ≡ any (λ (p : Permission). str_eq p.route v) ps
unfolding contains
contains-routes [] v = refl
contains-routes (p ∷ ps) v = ground (arith, contains-routes ps v)

-- For a session whose role and permissions are those that the backend knows of the caller, and a
-- route that is not public, the console shows what needs the route exactly when the backend's
-- middleware lets the request through.
pub can-permission :
    (a : AuthState) (r : Role) (method path : String)
    → a.role ≡ some r
    → nonempty r.code ≡ true
    → is_public method path ≡ false
    → (can a (method +s (" " +s path)) ≡ true)
      ↔ (permission r.code (some (routes a.permissions)) method path ≡ next)
unfolding can permission
can-permission a r method path known named private =
    ground (arith, known, named, private, contains-routes a.permissions (method +s (" " +s path)))
