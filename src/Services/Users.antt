-- ===== src/Services/Users.antt =====
-- The requests of frontend/src/services/users.service.ts.
use workflow_enterprise_comp.Prelude.{String, Option, some}
use workflow_enterprise_comp.Json.{Json, obj, field, end, str, opt_field, opt_str}
use workflow_enterprise_comp.Client.{Request}
use workflow_enterprise_comp.Http
use workflow_enterprise_comp.Http.{ListQuery, query_json, id_body}
use workflow_enterprise_comp.Paths.Api.{Api, path}

pub record UserCreateBody : Type 0 where
  pub username : String
  pub email : Option String
  pub password : String
  pub role_id : String
  pub status : Option String

unfoldable pub user_create_body_json : UserCreateBody → Json
user_create_body_json b = obj (
    field "username" (str b.username) (
      opt_field "email" (opt_str b.email) (
        field "password" (str b.password)
          (field "role_id" (str b.role_id) (opt_field "status" (opt_str b.status) end)))))

pub record UserUpdateBody : Type 0 where
  pub id : String
  pub username : Option String
  pub email : Option String
  pub password : Option String
  pub role_id : Option String
  pub status : Option String

unfoldable pub user_update_body_json : UserUpdateBody → Json
user_update_body_json b = obj (
    field "id" (str b.id) (
      opt_field "username" (opt_str b.username) (
        opt_field "email" (opt_str b.email) (
          opt_field "password" (opt_str b.password) (
            opt_field "role_id" (opt_str b.role_id) (opt_field "status" (opt_str b.status) end))))))

unfoldable pub search : ListQuery → Request
search q = Http.post (path Api.users_search) (some (query_json q))

unfoldable pub get : String → Request
get id = Http.post (path Api.users_get) (some (id_body id))

unfoldable pub create : UserCreateBody → Request
create body = Http.post (path Api.users) (some (user_create_body_json body))

unfoldable pub update : UserUpdateBody → Request
update body = Http.patch (path Api.users) (some (user_update_body_json body))

unfoldable pub remove : String → Request
remove id = Http.del (path Api.users) (some (id_body id))
