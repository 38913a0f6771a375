-- ===== src/Remote/Consent.antt =====
-- What an active session and a running x11vnc owe to a consent.
use appcenter_agent_linux.Base.{
  Bool, true, false, ◌||◌, not, List, [], ◌∷◌, ◌≡◌, inl, inr, arith, Bool-cases,
}
use appcenter_agent_linux.Session.{is_active}
use appcenter_agent_linux.Remote.{Agent, Env, advance}
use appcenter_agent_linux.Remote.Server.{enforce_remote_support_policy, handle_rs_request}
use appcenter_agent_linux.Remote.Events.{
  Event, requests, ends, enforces, prompts, approves, rejects, beats, exits, switches, calls,
  apply_event, run,
}
use appcenter_agent_linux.Ipc.Handler.{handler, action_of}
use appcenter_agent_linux.Remote.Quiet.{
  IsQuiet, says_yes, enforce-IsQuiet, request_allowed-IsQuiet, reject-IsQuiet,
  finish_prompt-IsQuiet, handle_rs_end-IsQuiet, check_daemon-IsQuiet, wait-down,
}
use appcenter_agent_linux.Ipc.Quiet.{is_opening, perform-IsQuiet}

-- The events by which somebody agrees to a session: a yes at the desktop prompt, an approval or a
-- start of x11vnc over the local socket, and a request of the server that asks for no approval.
abbrev pub is_consent : Event → Bool
is_consent (requests req) = not req.requires_approval
is_consent (prompts id r) = says_yes r
is_consent (approves count) = true
is_consent (calls desk req) = is_opening (action_of req)
is_consent _ = false

abbrev pub has_consent : List Event → Bool
has_consent [] = false
has_consent (e ∷ es) = is_consent e || has_consent es

module _ (env : Env) where
  apply_event-IsQuiet :
      (e : Event) (a : Agent) → is_consent e ≡ false → IsQuiet a → IsQuiet (apply_event env e a)
  unfolding apply_event handle_rs_request handler
  apply_event-IsQuiet (requests req) a h q =
      request_allowed-IsQuiet env req (enforce_remote_support_policy env a) (ground arith)
        (enforce-IsQuiet env a q)
  apply_event-IsQuiet (ends id) a h q = handle_rs_end-IsQuiet env id a q
  apply_event-IsQuiet enforces a h q = enforce-IsQuiet env a q
  apply_event-IsQuiet (prompts id r) a h q = finish_prompt-IsQuiet env id r a h q
  apply_event-IsQuiet (approves count) a h q = cc
  apply_event-IsQuiet (rejects reason) a h q = reject-IsQuiet env reason a q
  apply_event-IsQuiet beats a h q = check_daemon-IsQuiet env a q
  apply_event-IsQuiet (exits pid exit) a h q = record {
    inactive = q.inactive;
    down = wait-down env a.vnc pid exit q.down;
  }
  apply_event-IsQuiet (switches on) a h q = record { inactive = q.inactive; down = q.down }
  apply_event-IsQuiet (calls desk req) a h q = perform-IsQuiet env desk (action_of req) req a h q

run-IsQuiet :
    (env : Env) (es : List Event) (a : Agent)
    → IsQuiet a
    → has_consent es ≡ false
    → IsQuiet (run env es a)
unfolding run
run-IsQuiet env [] a q h = q
run-IsQuiet env (e ∷ es) a q h =
    let b : Agent = record a { net = advance a.net } in
    run-IsQuiet env es (apply_event env e b)
      (apply_event-IsQuiet env e b (ground arith) (record { inactive = q.inactive; down = q.down }))
      (ground arith)

-- From an agent with no active session and no x11vnc running, whatever events follow: if after them
-- a session is active or x11vnc runs, one of the events was a consent.
pub active_needs_consent :
    (env : Env) (es : List Event) (a : Agent)
    → IsQuiet a
    → (is_active (run env es a).session.state || (run env es a).vnc.status.running) ≡ true
    → has_consent es ≡ true
active_needs_consent env es a q h = elim (Bool-cases (has_consent es)) [
  | inl some_consent ↦ some_consent
  | inr no_consent ↦ ground (arith, run-IsQuiet env es a q no_consent)
]
