-- ===== src/Client.antt =====
-- The API client, frontend/src/services/api/client.ts with the error type of
-- frontend/src/types/api.ts. A request has two parts: what is sent, from the token held then, and
-- what is made of the answer, with the token held when the answer comes. Between the two anything
-- else may happen. The network answers by `Answer`, a parameter of `receive`.
pub mod Strip
pub mod Receive
pub mod Messages
use workflow_enterprise_comp.Prelude.{
  ℕ, String, Bool, true, false, not, ◌&&◌, Option, none, some, List, [], ◌∷◌, ◌==◌, leb, str_eq,
  if◌then◌else◌, nonempty, truthy, get_or, or_else, is_some, ◌+s◌, decimal,
}
use workflow_enterprise_comp.Json.{
  Json, null, bool, str, arr, obj, Fields, end, field, prop, text_prop,
}

unfoldable pub is_empty_text : Json → Bool
is_empty_text (str s) = not (nonempty s)
is_empty_text _ = false

-- The loop of `stripEmptyStrings` over the entries of an object.
unfoldable pub strip_fields : Fields → Fields
unfolding is_empty_text
strip_fields end = end
strip_fields (field k v fs) =
    if is_empty_text v then strip_fields fs else field k v (strip_fields fs)

unfoldable pub strip_empty_strings : Json → Json
unfolding strip_fields
strip_empty_strings (obj fs) = obj (strip_fields fs)
strip_empty_strings v = v

pub data Method : Type 0 where
  get post patch delete : Method

abbrev pub method_name : Method → String
method_name get = "GET"
method_name post = "POST"
method_name patch = "PATCH"
method_name delete = "DELETE"

-- `RequestOptions` with its path; an absent body is undefined.
pub record Request : Type 0 where
  pub method : Method
  pub path : String
  pub body : Option Json

-- What `fetch` is called with.
pub record Sent : Type 0 where
  pub url : String
  pub verb : String
  pub headers : List (String × String)
  pub payload : Option Json

content_headers : Option Json → List (String × String) → List (String × String)
content_headers none hs = hs
content_headers (some b) hs = ("Content-Type", "application/json") ∷ hs

auth_headers : Option String → List (String × String)
auth_headers none = []
auth_headers (some t) = if nonempty t then ("Authorization", "Bearer " +s t) ∷ [] else []

sent_body : Option Json → Option Json
unfolding strip_empty_strings
sent_body none = none
sent_body (some b) = some (strip_empty_strings b)

-- The first half of `request`, under the base url of the build.
unfoldable pub send : String → Option String → Request → Sent
unfolding content_headers auth_headers sent_body
send base token r = record {
  url = base +s r.path;
  verb = method_name r.method;
  headers = ("Accept", "application/json") ∷ content_headers r.body (auth_headers token);
  payload = sent_body r.body;
}

-- `body` is the payload, `null` where there was none.
pub record ApiError : Type 0 where
  pub status : ℕ
  pub code : String
  pub message : String
  pub body : Json

-- `ApiError.userMessage`.
unfoldable pub user_message : ApiError → String
user_message e = or_else (text_prop "message" e.body) e.message

-- What comes of `fetch`: an abort, no connection, or a response whose body may be no JSON.
pub data Answer : Type 0 where
  aborted : Answer
  unreachable : Answer
  response : (status : ℕ) → (payload : Option Json) → Answer

-- What the promise of `request` settles with; the value of a resolved one may be undefined.
pub data Settled : Type 0 where
  resolved : Option Json → Settled
  rejected : ApiError → Settled
  abandoned : Settled

-- `res.ok`.
abbrev pub is_ok : ℕ → Bool
is_ok status = leb 200 status && leb status 299

-- The client's token in a state, and the handler that `onUnauthorized` registered, over that
-- state. Session.antt has the ones of the program.
pub record Host (S : Type 0) : Type 0 where
  pub token : S → Option String
  pub unauthorized : S → S

pub network_error : ApiError
network_error = record {
  status = 0;
  code = "network_error";
  message = "Could not reach the server. Check your connection and try again.";
  body = null;
}

-- `body?.error || body?.message || fallback`.
pub failure_text : Json → String → String
failure_text body fallback =
    or_else (text_prop "error" body) (or_else (text_prop "message" body) fallback)

pub http_error : ℕ → Json → ApiError
http_error status body = record {
  status = status;
  code = get_or (text_prop "code" body) "http_error";
  message = failure_text body ("Request failed (" +s decimal status +s ")");
  body = body;
}

pub api_error : ℕ → Json → ApiError
api_error status body = record {
  status = status;
  code = get_or (text_prop "code" body) "api_error";
  message = failure_text body "Request failed";
  body = body;
}

-- `"success" in env`, for an object.
has_success : Json → Bool
has_success body = is_some (prop "success" body)

is_false : Option Json → Bool
is_false (some (bool b)) = not b
is_false _ = false

module _ {S : Type 0} (host : Host S) where
  -- `if (res.status === 401 && token) unauthorizedHandler?.()`.
  on_unauthorized : S → ℕ → S
  on_unauthorized s status =
      if (status == 401) && truthy (host.token s) then host.unauthorized s else s

  -- The normalisation of the envelope, for a status that is ok.
  unwrap : S → ℕ → Json → Settled × S
  unfolding on_unauthorized has_success is_false
  unwrap s status body =
      if has_success body
      then if is_false (prop "success" body)
        then (rejected (api_error status body), on_unauthorized s status)
        else (resolved (prop "data" body), s)
      else (resolved (some body), s)

  -- The second half of `request`, from the answer on.
  unfoldable pub receive : S → Answer → Settled × S
  unfolding on_unauthorized unwrap
  receive s aborted = (abandoned, s)
  receive s unreachable = (rejected network_error, s)
  receive s (response status payload) =
      if status == 204
      then (resolved none, s)
      else if is_ok status
      then unwrap s status (get_or payload null)
      else (rejected (http_error status (get_or payload null)), on_unauthorized s status)
