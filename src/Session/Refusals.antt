-- ===== src/Session/Refusals.antt =====
-- Answers that arrive after a refusal.
use workflow_enterprise_comp.Prelude.{
  ℕ, ◌+◌, ◌⊎◌, inl, inr, ◌≡◌, List, [], ◌∷◌, refl, ◌∙◌, ap, arith,
}
use workflow_enterprise_comp.Client.{Host, Answer, receive}
use workflow_enterprise_comp.Client.Receive.{receive_state}
use workflow_enterprise_comp.Session.{App, host, give_up}

-- The program's host with a counter of how often the handler has run.
abbrev pub counted : Host (App × ℕ)
counted = record {
  token = λ p. host.token p.0;
  unauthorized = λ p. (host.unauthorized p.0, p.1 + 1);
}

-- The answers to the requests in flight, in the order in which they arrive.
abbrev pub receive_all : List Answer → App × ℕ → App × ℕ
receive_all [] p = p
receive_all (a ∷ answers) p = receive_all answers (receive counted p a).1

receive-give_up :
    (s : App) (n : ℕ) (a : Answer) → (receive counted (give_up s, n) a).1 ≡ (give_up s, n)
unfolding give_up
receive-give_up s n a = ground (arith, receive_state counted (give_up s, n) a)

receive_all-give_up :
    (answers : List Answer) (s : App) (n : ℕ) → receive_all answers (give_up s, n) ≡ (give_up s, n)
receive_all-give_up [] s n = refl
receive_all-give_up (a ∷ answers) s n =
    ap (receive_all answers) (receive-give_up s n a) ∙ receive_all-give_up answers s n

-- Of all the answers to requests in flight, in any number and order, the 401 handler runs for one
-- at most; the state that they leave is the one before them, if it has not run, and otherwise the
-- one in which the session is given up.
pub handled_once :
    (answers : List Answer) (s : App)
    → (receive_all answers (s, 0) ≡ (s, 0)) ⊎ (receive_all answers (s, 0) ≡ (give_up s, 1))
handled_once [] s = inl refl
handled_once (a ∷ answers) s = elim (receive_state counted (s, 0) a) [
  | inl handled ↦ inr (ap (receive_all answers) handled.2 ∙ receive_all-give_up answers s 1)
  | inr untouched ↦ elim (handled_once answers s) [
    | inl same ↦ inl (ap (receive_all answers) untouched.1 ∙ same)
    | inr ended ↦ inr (ap (receive_all answers) untouched.1 ∙ ended)
  ]
]
