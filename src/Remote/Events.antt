-- ===== src/Remote/Events.antt =====
-- The life of a session as a sequence of events, and what holds after every one of them.
use appcenter_agent_linux.Base.{
  not, ◌||◌, ℕ, ℤ, pos, is_positive, eq_ℤ, Bool, true, false, ◌&&◌, List, [], ◌∷◌, Option, none,
  some, ◌≡◌, arith, if_both,
}
use appcenter_agent_linux.Text.{Text, codes, trim_space}
use appcenter_agent_linux.Api.{Error}
use appcenter_agent_linux.Session.{
  SessionStatus, SessionError, begin, reject, end, fail, is_pending, is_open, reset_connection,
}
use appcenter_agent_linux.Vnc
use appcenter_agent_linux.Vnc.{Manager}
use appcenter_agent_linux.Vnc.Laws.{stop-IsConsistent, wait-IsConsistent}
use appcenter_agent_linux.Remote.{
  Agent, Env, advance, persist, stop_vnc, approve_remote_session, reject_remote_session,
}
use appcenter_agent_linux.Remote.Server.{
  RemoteSupportRequest, PromptResult, failed, closed, answered, enforce_remote_support_policy,
  terminate, time_out, end_session, report_ended, handle_rs_request, request_allowed,
  begin_requested, start_approval_prompt, apply_prompt, finish_prompt, handle_rs_end, end_by_server,
  check_daemon,
}
use appcenter_agent_linux.Remote.Invariant.{
  Inv, approve_remote_session-Inv, reject_remote_session-Inv,
}
use appcenter_agent_linux.Ipc.{Request}
use appcenter_agent_linux.Ipc.Handler.{Desk, handler}
use appcenter_agent_linux.Ipc.Effects.{handler-Inv}

pub data Event : Type 0 where
  requests : RemoteSupportRequest → Event
  ends : ℤ → Event
  enforces : Event
  prompts : ℤ → PromptResult → Event
  approves : ℤ → Event
  rejects : Text → Event
  beats : Event
  exits : ℕ → Option Error → Event
  switches : Bool → Event
  calls : Desk → Request → Event

unfoldable pub apply_event : Env → Event → Agent → Agent
apply_event env (requests req) a = handle_rs_request env (some req) a
apply_event env (ends id) a = handle_rs_end env (some id) a
apply_event env enforces a = (enforce_remote_support_policy env a).0
apply_event env (prompts id r) a = finish_prompt env id r a
apply_event env (approves count) a = (approve_remote_session env count a).0
apply_event env (rejects reason) a = (reject_remote_session env reason a).0
apply_event env beats a = check_daemon env a
apply_event env (exits pid exit) a = record a { vnc = Vnc.wait a.vnc pid exit }
apply_event env (switches on) a = record a { server_enabled = on }
apply_event env (calls desk req) a = (handler env desk req a).0

-- Time passes before each event.
unfoldable pub run : Env → List Event → Agent → Agent
unfolding apply_event
run env [] a = a
run env (e ∷ es) a = run env es (apply_event env e (record a { net = advance a.net }))

module _ (env : Env) where
  terminate-Inv : (a : Agent) → Inv a → Inv (terminate env a)
  unfolding terminate end_session report_ended persist end reset_connection stop_vnc
  terminate-Inv a v = ground (arith, stop-IsConsistent a.vnc (env.halt a.net.step) v.vnc)

  time_out-Inv : (a : Agent) → Inv a → Inv (time_out env a)
  unfolding time_out reject persist reset_connection
  time_out-Inv a v = ground arith

  pub enforce-Inv : (a : Agent) → Inv a → Inv (enforce_remote_support_policy env a).0
  unfolding enforce_remote_support_policy
  enforce-Inv a v = ground (arith, v, terminate-Inv a v, time_out-Inv a v)

  begin-has_id :
      (a : Agent) (req : RemoteSupportRequest) (x y : Text) (now : ℕ)
      → Inv a
      → (not (is_open (begin a.session req.session_id x y now).0.state)
          || is_positive (begin a.session req.session_id x y now).0.session_id)
        ≡ true
  unfolding begin
  begin-has_id a req x y now v = ground arith

  start_approval_prompt-Inv : (id : ℤ) (a : Agent) → Inv a → Inv (start_approval_prompt id a)
  unfolding start_approval_prompt
  start_approval_prompt-Inv id a v = ground arith

  begin_requested-Inv :
      (req : RemoteSupportRequest) (x : SessionStatus × Option SessionError) (a : Agent)
      → Inv a
      → (not (is_open x.0.state) || is_positive x.0.session_id) ≡ true
      → Inv (begin_requested env req x a)
  unfolding begin_requested persist
  begin_requested-Inv req (s, some e) a v h = v
  begin_requested-Inv req (s, none) a v h =
      let b : Agent = persist (record a { session = s }) in
      let w : Inv b = record { vnc = v.vnc; has_id = h } in
      if_both Inv req.requires_approval (start_approval_prompt-Inv req.session_id b w)
        (approve_remote_session-Inv env (pos 1) b w)

  request_allowed-Inv :
      (req : RemoteSupportRequest) (x : Agent × Bool) → Inv x.0 → Inv (request_allowed env req x)
  unfolding request_allowed
  request_allowed-Inv req (a, false) v = v
  request_allowed-Inv req (a, true) v =
      begin_requested-Inv req
        (begin a.session req.session_id (trim_space req.admin_name) (trim_space req.reason)
          (env.now a.net.step))
        a v
        (begin-has_id a req (trim_space req.admin_name) (trim_space req.reason) (env.now a.net.step)
          v)

  apply_prompt-Inv : (r : PromptResult) (a : Agent) → Inv a → Inv (apply_prompt env r a)
  unfolding apply_prompt
  apply_prompt-Inv failed a v = v
  apply_prompt-Inv closed a v = v
  apply_prompt-Inv (answered true) a v = approve_remote_session-Inv env (pos 1) a v
  apply_prompt-Inv (answered false) a v =
      reject_remote_session-Inv env (codes "rejected by user") a v

  finish_prompt-Inv :
      (id : ℤ) (r : PromptResult) (a : Agent) → Inv a → Inv (finish_prompt env id r a)
  unfolding finish_prompt
  finish_prompt-Inv id r a v =
      let w =
        if_both Inv (eq_ℤ a.session.session_id id && is_pending a.session.state)
          (apply_prompt-Inv r a v) v in
      record { vnc = w.vnc; has_id = w.has_id }

  handle_rs_end-Inv : (id : ℤ) (a : Agent) → Inv a → Inv (handle_rs_end env (some id) a)
  unfolding handle_rs_end end_by_server stop_vnc end_session report_ended persist end
      reset_connection
  handle_rs_end-Inv id a v = ground (arith, stop-IsConsistent a.vnc (env.halt a.net.step) v.vnc)

  check_daemon-Inv : (a : Agent) → Inv a → Inv (check_daemon env a)
  unfolding check_daemon report_ended persist fail reset_connection
  check_daemon-Inv a v = ground arith

  -- Every event keeps the x11vnc manager in agreement with its process and the id of an open session
  -- positive.
  pub apply_event-Inv : (e : Event) (a : Agent) → Inv a → Inv (apply_event env e a)
  unfolding apply_event handle_rs_request
  apply_event-Inv (requests req) a v =
      request_allowed-Inv req (enforce_remote_support_policy env a) (enforce-Inv a v)
  apply_event-Inv (ends id) a v = handle_rs_end-Inv id a v
  apply_event-Inv enforces a v = enforce-Inv a v
  apply_event-Inv (prompts id r) a v = finish_prompt-Inv id r a v
  apply_event-Inv (approves count) a v = approve_remote_session-Inv env count a v
  apply_event-Inv (rejects reason) a v = reject_remote_session-Inv env reason a v
  apply_event-Inv beats a v = check_daemon-Inv a v
  apply_event-Inv (exits pid exit) a v = record {
    vnc = wait-IsConsistent a.vnc pid exit v.vnc;
    has_id = v.has_id;
  }
  apply_event-Inv (switches on) a v = record { vnc = v.vnc; has_id = v.has_id }
  apply_event-Inv (calls desk req) a v = handler-Inv env desk req a v

-- After any sequence of events the status of x11vnc agrees with the process held, and an open
-- session has a positive id, if both held before.
pub run-Inv : (env : Env) (es : List Event) (a : Agent) → Inv a → Inv (run env es a)
unfolding run
run-Inv env [] a v = v
run-Inv env (e ∷ es) a v = run-Inv env es (apply_event env e (record a { net = advance a.net })) (
    apply_event-Inv env e (record a { net = advance a.net })
      (record { vnc = v.vnc; has_id = v.has_id }))
