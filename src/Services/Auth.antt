-- ===== src/Services/Auth.antt =====
-- The requests of frontend/src/services/auth.service.ts.
use workflow_enterprise_comp.Prelude.{String, none, some}
use workflow_enterprise_comp.Json.{obj, field, end, str}
use workflow_enterprise_comp.Client.{Request}
use workflow_enterprise_comp.Http
use workflow_enterprise_comp.Paths.Api.{Api, path}

unfoldable pub login : String → String → Request
login username password =
    Http.post (path Api.login)
      (some (obj (field "username" (str username) (field "password" (str password) end))))

unfoldable pub me : Request
me = Http.post (path Api.me) none

unfoldable pub logout : Request
logout = Http.post (path Api.logout) none
