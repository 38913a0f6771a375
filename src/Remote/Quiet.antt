-- ===== src/Remote/Quiet.antt =====
-- cmd/service/main.go: that no session is active and x11vnc is not running, through the operations
-- that no consent stands behind.
use appcenter_agent_linux.Base.{
  ℕ, ℤ, pos, eq_ℤ, Bool, true, false, ◌&&◌, Option, none, some, ◌≡◌, refl, arith, if_both,
}
use appcenter_agent_linux.Text.{Text, codes, trim_space}
use appcenter_agent_linux.Api.{Error, Result, ok, err, RemoteApproveResponse}
use appcenter_agent_linux.Session.{
  SessionStatus, SessionError, begin, reject, end, fail, is_pending, is_active, reset_connection,
}
use appcenter_agent_linux.Vnc
use appcenter_agent_linux.Vnc.{Manager}
use appcenter_agent_linux.Remote.{
  Agent, Env, persist, stop_vnc, finish_reject, send_rejection, reject_remote_session,
  send_remote_approve,
}
use appcenter_agent_linux.Remote.Server.{
  RemoteSupportRequest, PromptResult, failed, closed, answered, enforce_remote_support_policy,
  terminate, time_out, end_session, report_ended, request_allowed, begin_requested,
  start_approval_prompt, apply_prompt, finish_prompt, handle_rs_end, end_by_server, check_daemon,
}

-- The answer of a prompt that approves
abbrev pub says_yes : PromptResult → Bool
says_yes (answered yes_pressed) = yes_pressed
says_yes _ = false

-- No session is active and x11vnc is not running.
pub record IsQuiet (a : Agent) : Type 0 where
  pub inactive : is_active a.session.state ≡ false
  pub down : a.vnc.status.running ≡ false

pub stop-down : (m : Manager) (h : Vnc.Halt) → m.status.running ≡ false → (Vnc.stop m h).0 ≡ m
unfolding Vnc.stop Vnc.stop_held
stop-down m h d = go (Vnc.cmd_pid m.cmd)
  where
    go : (c : Option ℕ) → (Vnc.stop_held c m h).0 ≡ m
    go none = refl
    go (some pid) = ground arith

module _ (env : Env) where
  pub terminate-IsQuiet : (a : Agent) → IsQuiet a → IsQuiet (terminate env a)
  unfolding terminate end_session report_ended persist end reset_connection stop_vnc
  terminate-IsQuiet a q = ground (arith, stop-down a.vnc (env.halt a.net.step) q.down)

  pub time_out-IsQuiet : (a : Agent) → IsQuiet a → IsQuiet (time_out env a)
  unfolding time_out reject persist reset_connection
  time_out-IsQuiet a q = ground arith

  pub enforce-IsQuiet : (a : Agent) → IsQuiet a → IsQuiet (enforce_remote_support_policy env a).0
  unfolding enforce_remote_support_policy
  enforce-IsQuiet a q = ground (arith, q, terminate-IsQuiet a q, time_out-IsQuiet a q)

  pub begin-inactive :
      (s : SessionStatus) (id : ℤ) (x y : Text) (now : ℕ)
      → is_active s.state ≡ false
      → is_active (begin s id x y now).0.state ≡ false
  unfolding begin
  begin-inactive s id x y now h = ground arith

  pub begin_requested-IsQuiet :
      (req : RemoteSupportRequest) (x : SessionStatus × Option SessionError) (a : Agent)
      → req.requires_approval ≡ true
      → IsQuiet a
      → is_active x.0.state ≡ false
      → IsQuiet (begin_requested env req x a)
  unfolding begin_requested start_approval_prompt persist
  begin_requested-IsQuiet req (s, some e) a h q i = q
  begin_requested-IsQuiet req (s, none) a h q i = ground arith

  pub request_allowed-IsQuiet :
      (req : RemoteSupportRequest) (x : Agent × Bool)
      → req.requires_approval ≡ true
      → IsQuiet x.0
      → IsQuiet (request_allowed env req x)
  unfolding request_allowed
  request_allowed-IsQuiet req (a, false) h q = q
  request_allowed-IsQuiet req (a, true) h q =
      let now = env.now a.net.step in
      begin_requested-IsQuiet req
        (begin a.session req.session_id (trim_space req.admin_name) (trim_space req.reason) now) a h
        q
        (begin-inactive a.session req.session_id (trim_space req.admin_name) (trim_space req.reason)
          now q.inactive)

  pub finish_reject-IsQuiet :
      (r : Result (Option RemoteApproveResponse)) (a : Agent)
      → IsQuiet a
      → IsQuiet (finish_reject r a).0
  unfolding finish_reject persist
  finish_reject-IsQuiet (ok u) a q = record { inactive = q.inactive; down = q.down }
  finish_reject-IsQuiet (err e) a q = q

  pub send_rejection-IsQuiet :
      (x : SessionStatus × Option SessionError) (a : Agent)
      → IsQuiet a
      → is_active x.0.state ≡ false
      → IsQuiet (send_rejection env x a).0
  unfolding send_rejection
  send_rejection-IsQuiet (s, some e) a q i = q
  send_rejection-IsQuiet (s, none) a q i =
      let (r, n) = send_remote_approve env a.secret_key s.session_id false (pos 0) a.net in
      finish_reject-IsQuiet r (record a { session = s; net = n })
        (record { inactive = i; down = q.down })

  pub reject-inactive :
      (s : SessionStatus) (why : Text) (now : ℕ)
      → is_active s.state ≡ false
      → is_active (reject s why now).0.state ≡ false
  unfolding reject
  reject-inactive s why now h = ground arith

  pub reject-IsQuiet :
      (reason : Text) (a : Agent) → IsQuiet a → IsQuiet (reject_remote_session env reason a).0
  unfolding reject_remote_session
  reject-IsQuiet reason a q =
      send_rejection-IsQuiet _ a q (reject-inactive a.session _ (env.now a.net.step) q.inactive)

  pub apply_prompt-IsQuiet :
      (id : ℤ) (r : PromptResult) (a : Agent)
      → says_yes r ≡ false
      → IsQuiet a
      → IsQuiet (apply_prompt env r a)
  unfolding apply_prompt
  apply_prompt-IsQuiet id failed a h q = q
  apply_prompt-IsQuiet id closed a h q = q
  apply_prompt-IsQuiet id (answered true) a h q = cc
  apply_prompt-IsQuiet id (answered false) a h q = reject-IsQuiet (codes "rejected by user") a q

  pub finish_prompt-IsQuiet :
      (id : ℤ) (r : PromptResult) (a : Agent)
      → says_yes r ≡ false
      → IsQuiet a
      → IsQuiet (finish_prompt env id r a)
  unfolding finish_prompt
  finish_prompt-IsQuiet id r a h q =
      let w =
        if_both IsQuiet (eq_ℤ a.session.session_id id && is_pending a.session.state)
          (apply_prompt-IsQuiet id r a h q) q in
      record { inactive = w.inactive; down = w.down }

  pub handle_rs_end-IsQuiet :
      (id : ℤ) (a : Agent) → IsQuiet a → IsQuiet (handle_rs_end env (some id) a)
  unfolding handle_rs_end end_by_server stop_vnc end_session report_ended persist end
      reset_connection
  handle_rs_end-IsQuiet id a q = ground (arith, stop-down a.vnc (env.halt a.net.step) q.down)

  pub check_daemon-IsQuiet : (a : Agent) → IsQuiet a → IsQuiet (check_daemon env a)
  unfolding check_daemon report_ended persist fail reset_connection
  check_daemon-IsQuiet a q = ground arith

  pub wait-down :
      (m : Manager) (pid : ℕ) (exit : Option Error)
      → m.status.running ≡ false
      → (Vnc.wait m pid exit).status.running ≡ false
  unfolding Vnc.wait
  wait-down m pid exit h = ground arith
