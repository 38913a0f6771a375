-- ===== src/Tests/Remote.antt =====
-- Remote support at concrete inputs: the session, the manager and the handlers of cmd/service/main.go.
use appcenter_agent_linux.Base.{
  ◌≡◌, refl, none, some, pos, true, false, not, ◌||◌, ◌&&◌, [], ◌∷◌, List, arith, ℕ, ◌+◌, ◌≤◌, ◌⊎◌,
  is_positive, eq_ℤ,
}
use appcenter_agent_linux.Text.{codes, trim_space}
use appcenter_agent_linux.Api.{
  message, Result, ok, err, http_status, is_retryable, approve_call, ready_call, ended_call,
  remote_approve_request, remote_ready_request,
}
use appcenter_agent_linux.Api.Retry.{
  call_remote_with_retry, call_remote_with_retry_exact, Retried, state_before, wants_retry,
}
use appcenter_agent_linux.Session.{
  SessionStatus, pending, active, ended, error, is_open, approve, fail, activate,
  set_connection_info,
}
use appcenter_agent_linux.Vnc.{exit_text, Manager, Launch, Halt, start, stop}
use appcenter_agent_linux.Vnc.Laws.{IsConsistent, stop_in_time}
use appcenter_agent_linux.Remote.{
  Agent, Env, approve_remote_session, send_remote_approve, send_remote_ready, send_remote_ended,
}
use appcenter_agent_linux.Remote.Requests.{Sends, callbacks-Sends}
use appcenter_agent_linux.Remote.Approval.{Approved, approve_remote_session-Approved}
use appcenter_agent_linux.Remote.Server.{
  finish_prompt, answered, enforce_remote_support_policy, handle_rs_end,
}
use appcenter_agent_linux.Remote.Policy.{policy_closes, end_ends_its_session}
use appcenter_agent_linux.Remote.Invariant.{Inv}
use appcenter_agent_linux.Remote.Events
use appcenter_agent_linux.Remote.Events.{run, run-Inv, apply_event, apply_event-Inv}
use appcenter_agent_linux.Remote.Consent.{has_consent, active_needs_consent}

-- x11vnc is installed and not running.
abbrev pub manager : Manager
manager = record {
  status = record {
    installed = true;
    x11vnc_path = codes "/usr/bin/x11vnc";
    running = false;
    pid = 0;
    display = codes ":0";
    port = pos 20010;
    started_at_unix = 0;
    last_error = [];
  };
  cmd = none;
  preferred_display = codes ":0";
}

abbrev launch : Launch
launch = record { display = codes ":0"; authority = []; now = 100; spawned = λ args. ok 4242 }

abbrev halt : Halt
halt = record {
  signal = none;
  kill = none;
  polls = 40;
  exits_at = 2;
  late_kill = none;
  exits_late = false;
  exit = none;
}

-- A server that answers every request, and whose clock runs by one second for each outside event.
abbrev pub env : Env
env = record {
  now = λ n. 100 + n;
  approve_reply = λ n c. ok (record {
    vnc_password = codes "pw";
    guacd_host = codes "guacd";
    guacd_reverse_port = pos 5500;
  });
  reply = λ n c. ok tt;
  launch = λ n. launch;
  halt = λ n. halt;
}

-- A server that refuses the ready callback.
abbrev refusing : Env
refusing = record env { reply = λ n c. err (http_status (codes "POST") (codes "/x") 404 []) }

abbrev pub waiting : SessionStatus
waiting = record {
  state = pending;
  session_id = pos 7;
  admin_name = codes "ada";
  reason = codes "help";
  requested_at_unix = pos 10;
  decision_at_unix = pos 0;
  message = codes "waiting for approval";
  last_error = [];
  guacd_host = [];
  guacd_reverse_port = pos 0;
  local_vnc_port = pos 0;
  server_vnc_password_set = false;
}

abbrev pub agent : Agent
agent = record {
  enabled = true;
  server_enabled = true;
  config_port = pos 20010;
  approval_timeout_sec = 30;
  secret_key = codes "key";
  session = waiting;
  vnc = manager;
  saved = waiting;
  saves = [];
  prompts = pos 7 ∷ [];
  net = record { step = 0; sent = [] };
}

manager-IsConsistent : IsConsistent manager
manager-IsConsistent = record { held = refl; idle_pid = refl; idle_start = refl }

agent-Inv : Inv agent
agent-Inv = record { vnc = manager-IsConsistent; has_id = refl }

approved_runs :
    ((approve_remote_session env (pos 0) agent).0.session.state ≡ active)
    × ((approve_remote_session env (pos 0) agent).0.session.local_vnc_port ≡ pos 20010)
    × ((approve_remote_session env (pos 0) agent).0.vnc.status.running ≡ true)
    × ((approve_remote_session refusing (pos 0) agent).0.session.state ≡ error)
    × ((approve_remote_session refusing (pos 0) agent).0.vnc.status.running ≡ false)
unfolding approve_remote_session approve send_remote_approve call_remote_with_retry start stop fail
    activate set_connection_info trim_space is_retryable
approved_runs = (refl, refl, refl, refl, refl)

approve_remote_session-Approved_example :
    Approved refusing (pos 1) agent (approve_remote_session refusing (pos 1) agent)
approve_remote_session-Approved_example =
    approve_remote_session-Approved refusing (pos 1) agent manager-IsConsistent

callbacks-Sends_example :
    Sends
      (codes "key")
      (pos 7)
      (approve_call (pos 7) (remote_approve_request true (pos 2)))
      agent.net
      (send_remote_approve refusing (codes "key") (pos 7) true (pos 2) agent.net).1
    × Sends
        (codes "key")
        (pos 7)
        (ready_call (pos 7) (remote_ready_request (pos 20010)))
        agent.net
        (send_remote_ready refusing (codes "key") (pos 7) (pos 20010) agent.net).1
    × Sends
        (codes "key")
        (pos 7)
        (ended_call (pos 7) (record { ended_by = codes "agent"; reason = codes "bye" }))
        agent.net
        (send_remote_ended refusing (codes "key") (pos 7) (codes "bye") agent.net).1
callbacks-Sends_example =
    callbacks-Sends refusing (codes "key") (pos 7) true (pos 2) (pos 20010) (codes "bye") agent.net

abbrev failing : ℕ → Result ℕ × ℕ
failing n = (err (message (codes "timeout")), n + 1)

call_remote_with_retry_exact_example :
    (k : ℕ) × (k ≤ 2)
    × Retried failing k 0
    × (call_remote_with_retry failing 0 ≡ failing (state_before failing k 0))
    × ((k ≡ 2) ⊎ (wants_retry (failing (state_before failing k 0)).0 ≡ false))
call_remote_with_retry_exact_example = call_remote_with_retry_exact failing 0

abbrev running : Manager
running = record manager {
  status = record (manager.status) { running = true; pid = 4242; started_at_unix = 100 };
  cmd = some (record { pid = 4242; args = [] });
}

running-IsConsistent : IsConsistent running
running-IsConsistent = record { held = refl; idle_pid = refl; idle_start = refl }

stop_in_time_example :
    ((stop running halt).1 ≡ none)
    × ((stop running halt).0.status.running ≡ false)
    × ((stop running halt).0.cmd ≡ none)
    × ((stop running halt).0.status.last_error ≡ exit_text halt.exit)
stop_in_time_example = stop_in_time running halt running-IsConsistent refl (omega arith)

policy_closes_example :
    ((enforce_remote_support_policy env agent).1 ≡ true)
    × (((enforce_remote_support_policy env agent).1
          || not (is_open (enforce_remote_support_policy env agent).0.session.state))
        ≡ true)
    × ((((enforce_remote_support_policy env agent).1 || not (is_open pending)) ≡ true)
        ⊎ (((enforce_remote_support_policy env agent).0.session.state ≡ ended)
            × ((enforce_remote_support_policy env agent).0.saved
                ≡ (enforce_remote_support_policy env agent).0.session)))
policy_closes_example = policy_closes env agent

end_ends_its_session_example :
    (((is_positive (pos 7) && eq_ℤ (pos 7) (pos 7)) ≡ true)
      × ((handle_rs_end env (some (pos 7)) agent).session.state ≡ ended)
      × ((handle_rs_end env (some (pos 7)) agent).session.session_id ≡ pos 7)
      × ((handle_rs_end env (some (pos 7)) agent).saved
          ≡ (handle_rs_end env (some (pos 7)) agent).session))
    ⊎ (((is_positive (pos 7) && eq_ℤ (pos 7) (pos 7)) ≡ false)
        × (handle_rs_end env (some (pos 7)) agent ≡ agent))
end_ends_its_session_example = end_ends_its_session env (pos 7) agent

abbrev story : List Events.Event
story = Events.prompts (pos 7) (answered true) ∷ []

active_needs_consent_example : has_consent story ≡ true
unfolding run approve_remote_session approve send_remote_approve call_remote_with_retry start
    activate set_connection_info trim_space finish_prompt
active_needs_consent_example =
    active_needs_consent env story agent (record { inactive = refl; down = refl }) refl
