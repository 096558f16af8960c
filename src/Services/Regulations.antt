-- ===== src/Services/Regulations.antt =====
-- The requests of frontend/src/services/regulations.service.ts.
use workflow_enterprise_comp.Prelude.{String, Option, some}
use workflow_enterprise_comp.Json.{Json, obj, field, end, str, opt_field, opt_str, nullable_str}
use workflow_enterprise_comp.Client.{Request}
use workflow_enterprise_comp.Http
use workflow_enterprise_comp.Http.{ListQuery, query_json, id_body}
use workflow_enterprise_comp.Paths.Api.{Api, path}

pub record RegulationCreateBody : Type 0 where
  pub title : String
  pub code : String
  pub description : Option String
  pub jurisdiction : Option String
  pub status : Option String
  pub effective_date : Option (Option String)
  pub expiry_date : Option (Option String)

unfoldable pub regulation_create_body_json : RegulationCreateBody → Json
regulation_create_body_json b = obj (
    field "title" (str b.title) (
      field "code" (str b.code) (
        opt_field "description" (opt_str b.description) (
          opt_field "jurisdiction" (opt_str b.jurisdiction) (
            opt_field "status" (opt_str b.status) (
              opt_field "effective_date" (nullable_str b.effective_date)
                (opt_field "expiry_date" (nullable_str b.expiry_date) end)))))))

pub record RegulationUpdateBody : Type 0 where
  pub id : String
  pub title : Option String
  pub code : Option String
  pub description : Option String
  pub jurisdiction : Option String
  pub status : Option String
  pub effective_date : Option (Option String)
  pub expiry_date : Option (Option String)

unfoldable pub regulation_update_body_json : RegulationUpdateBody → Json
regulation_update_body_json b = obj (
    field "id" (str b.id) (
      opt_field "title" (opt_str b.title) (
        opt_field "code" (opt_str b.code) (
          opt_field "description" (opt_str b.description) (
            opt_field "jurisdiction" (opt_str b.jurisdiction) (
              opt_field "status" (opt_str b.status) (
                opt_field "effective_date" (nullable_str b.effective_date)
                  (opt_field "expiry_date" (nullable_str b.expiry_date) end))))))))

unfoldable pub search : ListQuery → Request
search q = Http.post (path Api.regulations_search) (some (query_json q))

unfoldable pub get : String → Request
get id = Http.post (path Api.regulations_get) (some (id_body id))

unfoldable pub create : RegulationCreateBody → Request
create body = Http.post (path Api.regulations) (some (regulation_create_body_json body))

unfoldable pub update : RegulationUpdateBody → Request
update body = Http.patch (path Api.regulations) (some (regulation_update_body_json body))

unfoldable pub remove : String → Request
remove id = Http.del (path Api.regulations) (some (id_body id))
