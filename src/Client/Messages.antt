-- ===== src/Client/Messages.antt =====
-- The message that a failed request shows.
use workflow_enterprise_comp.Prelude.{
  ℕ, String, true, ◌≡◌, refl, arith, nonempty, get_or, or_else, or_else-nonempty, nonempty-append,
  decimal, ◌+s◌,
}
use workflow_enterprise_comp.Json.{Json, null, text_prop}
use workflow_enterprise_comp.Client.{
  Host, Answer, aborted, unreachable, response, rejected, ApiError, receive, user_message,
  http_error, api_error, network_error, failure_text, unwrap,
}

failure_text-nonempty :
    (body : Json) (fallback : String)
    → nonempty fallback ≡ true
    → nonempty (failure_text body fallback) ≡ true
unfolding failure_text
failure_text-nonempty body fallback h =
    or_else-nonempty (text_prop "error" body) (or_else (text_prop "message" body) fallback)
      (or_else-nonempty (text_prop "message" body) fallback h)

user_message-nonempty :
    (e : ApiError) → nonempty e.message ≡ true → nonempty (user_message e) ≡ true
unfolding user_message
user_message-nonempty e h = or_else-nonempty (text_prop "message" e.body) e.message h

http_error-Tells :
    (status : ℕ) (body : Json) → nonempty (user_message (http_error status body)) ≡ true
unfolding http_error
http_error-Tells status body = user_message-nonempty (http_error status body) (
    failure_text-nonempty body ("Request failed (" +s decimal status +s ")")
      (nonempty-append ("Request failed (" +s decimal status) ")" ""))

api_error-Tells :
    (status : ℕ) (body : Json) → nonempty (user_message (api_error status body)) ≡ true
unfolding api_error
api_error-Tells status body =
    user_message-nonempty (api_error status body) (failure_text-nonempty body "Request failed" refl)

network_error-Tells : nonempty (user_message network_error) ≡ true
unfolding network_error
network_error-Tells = user_message-nonempty network_error refl

-- However a request fails, the message that it shows is not empty.
pub rejected-Tells :
    {S : Type 0} (host : Host S) (s : S) (a : Answer) (e : ApiError)
    → (receive host s a).0 ≡ rejected e
    → nonempty (user_message e) ≡ true
unfolding receive unwrap
rejected-Tells host s aborted e h = ground arith
rejected-Tells host s unreachable e h = ground (arith, network_error-Tells)
rejected-Tells host s (response status payload) e h = ground (
  arith,
  http_error-Tells status (get_or payload null),
  api_error-Tells status (get_or payload null),
)
