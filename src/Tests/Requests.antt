-- ===== src/Tests/Requests.antt =====
-- Requests: what is sent, and what comes of the answers.
use workflow_enterprise_comp.Prelude.{
  String, true, false, ◌≡◌, ◌≢◌, ◌⊎◌, Option, none, some, refl, eq_iff, arith, truthy,
}
use workflow_enterprise_comp.Json.{Json, null, str, bool, obj, Fields, field, end, get}
use workflow_enterprise_comp.Client.{Host, response, receive, strip_fields, strip_empty_strings}
use workflow_enterprise_comp.Client.Strip.{get-strip_fields}
use workflow_enterprise_comp.Client.Receive.{status_of, Explains, receive_state, receive-Explains}
use workflow_enterprise_comp.Json.Keys.{HasDistinctKeys}

abbrev body : Fields
body = field "title" (str "Audit") (field "description" (str "") (field "owner_id" null end))

stripped :
    strip_empty_strings (obj body) ≡ obj (field "title" (str "Audit") (field "owner_id" null end))
unfolding strip_empty_strings strip_fields
stripped = refl

body-HasDistinctKeys : HasDistinctKeys body
body-HasDistinctKeys = ground (
  arith,
  eq_iff "description" "title",
  eq_iff "owner_id" "title",
  eq_iff "owner_id" "description",
)

get-strip_fields_example : get "description" (strip_fields body) ≡ none
unfolding get strip_fields
get-strip_fields_example = get-strip_fields "description" body body-HasDistinctKeys

-- A host whose state is the token alone.
abbrev token_host : Host (Option String)
token_host = record { token = λ t. t; unauthorized = λ t. none }

refused : (receive token_host (some "t") (response 401 none)).1 ≡ none
unfolding receive
refused = refl

receive_state_example :
    ((status_of (response 401 none) ≡ 401)
      × (truthy (some "t") ≡ true)
      × ((receive token_host (some "t") (response 401 none)).1 ≡ none))
    ⊎ (((status_of (response 401 none) ≢ 401) ⊎ (truthy (some "t") ≡ false))
        × ((receive token_host (some "t") (response 401 none)).1 ≡ some "t"))
receive_state_example = receive_state token_host (some "t") (response 401 none)

abbrev failed_answer : Json
failed_answer = obj (field "success" (bool false) (field "message" (str "Not found") end))

receive-Explains_example :
    Explains
      (response 404 (some failed_answer))
      (receive token_host none (response 404 (some failed_answer))).0
receive-Explains_example = receive-Explains token_host none (response 404 (some failed_answer))
