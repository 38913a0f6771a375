-- ===== src/Remote.antt =====
-- cmd/service/main.go: the remote support part of the agent, which joins the session
-- (internal/remotesupport/session_linux.go), the x11vnc manager (manager_linux.go) and the server's
-- callbacks (internal/api/client.go). One operation runs at a time; `Env` is what it meets outside
-- the program, by the number of requests, starts and stops made before.
pub mod Requests
pub mod Server
pub mod Approval
pub mod Policy
pub mod Invariant
pub mod Events
pub mod Quiet
pub mod Consent
pub mod Protocol
pub mod Refines
use appcenter_agent_linux.Base.{
  ℕ, zero, suc, ◌+◌, ◌^◌, ◌++◌, ℤ, pos, is_positive, pos_part, eq_ℤ, Bool, true, false, ◌&&◌, ◌||◌,
  not, List, [], ◌∷◌, if◌then◌else◌, Option, none, some, ltb, leb, ◌==◌, keep,
}
use appcenter_agent_linux.Text.{Text, codes, trim_space, is_empty}
use appcenter_agent_linux.Api.{
  Error, message, error_text, Result, ok, err, RemoteCall, approve_call, ready_call, ended_call,
  RemoteApproveResponse, remote_approve_request, remote_ready_request,
}
use appcenter_agent_linux.Api.Retry.{call_remote_with_retry}
use appcenter_agent_linux.Session.{
  SessionStatus, SessionError, session_error_text, begin, approve, set_connection_info, activate,
  reject, end, fail, is_pending, is_open, is_active,
}
use appcenter_agent_linux.Vnc
use appcenter_agent_linux.Vnc.{Manager, Launch, Halt}

-- The requests made, newest last, and the number of outside events so far.
pub record Net : Type 0 where
  pub step : ℕ
  pub sent : List RemoteCall

pub record Env : Type 0 where
  -- time.Now().Unix()
  pub now : ℕ → ℕ
  pub approve_reply : ℕ → RemoteCall → Result RemoteApproveResponse
  pub reply : ℕ → RemoteCall → Result (Unit {0})
  pub launch : ℕ → Launch
  pub halt : ℕ → Halt

-- The variables of `main` that the closures of remote support share; `saved` is the session in the
-- state's struct, which other parts write to the file too; `saves` are the sessions that remote
-- support has had written to the state file, newest first, and `prompts` are the keys of `approvalPromptRunning`.
pub record Agent : Type 0 where
  pub enabled : Bool
  pub server_enabled : Bool
  pub config_port : ℤ
  pub approval_timeout_sec : ℕ
  pub secret_key : Text
  pub session : SessionStatus
  pub vnc : Manager
  pub saved : SessionStatus
  pub saves : List SessionStatus
  pub prompts : List ℤ
  pub net : Net

-- persistRemoteSupportSession: the state gets the session and is written. The error of state.Save is
-- only logged, so that the agent does not know of it.
unfoldable pub persist : Agent → Agent
persist a = record a { saved = a.session; saves = a.session ∷ a.saves }

abbrev pub record_call : RemoteCall → Net → Net
record_call call n = record n { step = n.step + 1; sent = n.sent ++ call ∷ [] }

abbrev not_registered : Error
not_registered = message (codes "agent not registered yet")

-- sendRemoteApprove
unfoldable pub send_remote_approve :
    Env → Text → ℤ → Bool → ℤ → Net → Result (Option RemoteApproveResponse) × Net
send_remote_approve env secret id approved count net =
    let call = approve_call id (remote_approve_request approved count) in
    if not (is_positive id)
    then (ok none, net)
    else if is_empty (trim_space secret)
    then (err not_registered, net)
    else call_remote_with_retry
        (λ n. (
          elim (env.approve_reply n.step call) [ ok r ↦ ok (some r) | err e ↦ err e ],
          record_call call n,
        ))
        net

-- A callback that returns only an error: the body of sendRemoteReady and sendRemoteEnded.
unfoldable pub send_plain : Env → Text → ℤ → RemoteCall → Net → Result (Unit {0}) × Net
send_plain env secret id call net =
    if not (is_positive id)
    then (ok tt, net)
    else if is_empty (trim_space secret)
    then (err not_registered, net)
    else call_remote_with_retry (λ n. (env.reply n.step call, record_call call n)) net

-- sendRemoteReady
unfoldable pub send_remote_ready : Env → Text → ℤ → ℤ → Net → Result (Unit {0}) × Net
unfolding send_plain
send_remote_ready env secret id port net =
    send_plain env secret id (ready_call id (remote_ready_request port)) net

-- sendRemoteEnded
unfoldable pub send_remote_ended : Env → Text → ℤ → Text → Net → Result (Unit {0}) × Net
unfolding send_plain
send_remote_ended env secret id reason net =
    send_plain env secret id (ended_call id (record { ended_by = codes "agent"; reason = reason }))
      net

-- The number of outside events grows by one that is no request.
abbrev pub advance : Net → Net
advance n = record n { step = n.step + 1 }

-- remoteSupportManager.Start
unfoldable pub start_vnc : Env → Text → Agent → Agent × Option Error
start_vnc env password a =
    let (m, e) = Vnc.start a.vnc password (env.launch a.net.step) in
    (record a { vnc = m; net = advance a.net }, e)

-- remoteSupportManager.Stop
unfoldable pub stop_vnc : Env → Agent → Agent × Option Error
stop_vnc env a =
    let (m, e) = Vnc.stop a.vnc (env.halt a.net.step) in
    (record a { vnc = m; net = advance a.net }, e)

-- remoteSupportSession.Error(err), and the state file
unfoldable pub fail_session : Env → Agent → Error → Agent
unfolding persist
fail_session env a e =
    persist (record a { session = fail a.session (error_text e) (env.now a.net.step) })

-- The password that the server gave, as x11vnc gets it.
abbrev pub vnc_password : Option RemoteApproveResponse → Text
vnc_password none = []
vnc_password (some r) = trim_space r.vnc_password

abbrev pub guacd_host : Option RemoteApproveResponse → Text
guacd_host none = []
guacd_host (some r) = trim_space r.guacd_host

abbrev pub guacd_reverse_port : Option RemoteApproveResponse → ℤ
guacd_reverse_port none = pos 0
guacd_reverse_port (some r) = r.guacd_reverse_port

-- The port that x11vnc uses, or the configured one.
abbrev pub local_vnc_port : Agent → ℤ
local_vnc_port a = if is_positive a.vnc.status.port then a.vnc.status.port else a.config_port

-- approveRemoteSession after the ready callback
unfoldable pub finish_approve :
    Env → Option RemoteApproveResponse → ℤ → Result (Unit {0}) → Agent → Agent × Option Error
unfolding stop_vnc fail_session persist send_remote_ended
finish_approve env resp port (err e) a =
    let (b, _) = stop_vnc env a in
    let (_, n) =
      send_remote_ended env b.secret_key b.session.session_id (codes "ready callback failed")
        b.net in
    (fail_session env (record b { net = n }) e, some e)
finish_approve env resp port (ok _) a =
    let s =
      set_connection_info a.session (guacd_host resp) (guacd_reverse_port resp) port
        (not (is_empty (vnc_password resp))) in
    (persist (record a { session = activate s }), none)

-- approveRemoteSession after the start of x11vnc
unfoldable pub report_ready :
    Env → Option RemoteApproveResponse → Option Error → Agent → Agent × Option Error
unfolding finish_approve send_remote_ready
report_ready env resp (some e) a = (fail_session env a e, some e)
report_ready env resp none a =
    let port = local_vnc_port a in
    let (r, n) = send_remote_ready env a.secret_key a.session.session_id port a.net in
    finish_approve env resp port r (record a { net = n })

-- approveRemoteSession after the approve callback
unfoldable pub launch_approved :
    Env → Result (Option RemoteApproveResponse) → Agent → Agent × Option Error
unfolding report_ready start_vnc
launch_approved env (err e) a = (fail_session env a e, some e)
launch_approved env (ok resp) a =
    let (b, e) = start_vnc env (vnc_password resp) a in report_ready env resp e b

-- approveRemoteSession after Approve()
unfoldable pub send_approval :
    Env → ℤ → SessionStatus × Option SessionError → Agent → Agent × Option Error
unfolding launch_approved send_remote_approve
send_approval env count (s, some e) a = (a, some (message (session_error_text e)))
send_approval env count (s, none) a =
    let (r, n) =
      send_remote_approve env a.secret_key s.session_id true
        (if is_positive count then count else pos 1) a.net in
    launch_approved env r (record a { session = s; net = n })

-- approveRemoteSession
unfoldable pub approve_remote_session : Env → ℤ → Agent → Agent × Option Error
unfolding send_approval
approve_remote_session env count a =
    if a.enabled
    then send_approval env count (approve a.session (env.now a.net.step)) a
    else (a, some (message (codes "remote support is disabled by config")))

-- rejectRemoteSession after the callback
unfoldable pub finish_reject : Result (Option RemoteApproveResponse) → Agent → Agent × Option Error
unfolding persist
finish_reject (err e) a = (a, some e)
finish_reject (ok _) a = (persist a, none)

-- rejectRemoteSession after Reject()
unfoldable pub send_rejection :
    Env → SessionStatus × Option SessionError → Agent → Agent × Option Error
unfolding finish_reject send_remote_approve
send_rejection env (s, some e) a = (a, some (message (session_error_text e)))
send_rejection env (s, none) a =
    let (r, n) = send_remote_approve env a.secret_key s.session_id false (pos 0) a.net in
    finish_reject r (record a { session = s; net = n })

-- rejectRemoteSession
unfoldable pub reject_remote_session : Env → Text → Agent → Agent × Option Error
unfolding send_rejection
reject_remote_session env reason a =
    let why = if is_empty (trim_space reason) then codes "rejected by user" else reason in
    send_rejection env (reject a.session why (env.now a.net.step)) a
