-- ===== src/Client/Receive.antt =====
-- What `request` makes of an answer, and when the session is given up.
use workflow_enterprise_comp.Prelude.{ℕ, ◌≤◌, true, false, ◌≡◌, ◌≢◌, ◌⊎◌, refl, arith, truthy}
use workflow_enterprise_comp.Client.{
  Host, Answer, aborted, unreachable, response, Settled, resolved, rejected, abandoned, receive,
  http_error, api_error, network_error,
}

abbrev pub status_of : Answer → ℕ
status_of (response status payload) = status
status_of _ = 0

-- What a settled request says of its answer: a value comes with a status from 200 to 299 only, an
-- error carries the status, and only an abort leaves the request without an end.
abbrev pub Explains : Answer → Settled → Type 0
Explains a (resolved v) = (200 ≤ status_of a) × (status_of a ≤ 299)
Explains a (rejected e) = e.status ≡ status_of a
Explains a abandoned = a ≡ aborted

module _ {S : Type 0} (host : Host S) where
  -- The handler runs exactly when the answer's status is 401 while a token is held; on every other
  -- answer the state stays as it is.
  pub receive_state :
      (s : S) (a : Answer)
      → ((status_of a ≡ 401)
          × (truthy (host.token s) ≡ true)
          × ((receive host s a).1 ≡ host.unauthorized s))
        ⊎ (((status_of a ≢ 401) ⊎ (truthy (host.token s) ≡ false)) × ((receive host s a).1 ≡ s))
  unfolding receive
  receive_state s aborted = ground arith
  receive_state s unreachable = ground arith
  receive_state s (response status payload) = ground arith

  -- A request resolves only for a status from 200 to 299; a rejection carries the status of the
  -- response, or 0 where there was none; and only an abort ends in neither.
  pub receive-Explains : (s : S) (a : Answer) → Explains a (receive host s a).0
  unfolding receive http_error api_error network_error
  receive-Explains s aborted = refl
  receive-Explains s unreachable = refl
  receive-Explains s (response status payload) = ground arith
