-- ===== src/Ipc/Handler.antt =====
-- cmd/service/main.go: the handler of the local socket, over the state of the agent. The server's
-- answers about the store are parameters, by the number of outside events before.
use appcenter_agent_linux.Base.{
  ℕ, ℤ, ◌++◌, is_positive, not, ◌&&◌, List, [], ◌∷◌, length, if◌then◌else◌, Option, none, some,
}
use appcenter_agent_linux.Text.{Text, codes, trim_space, itoa, same, is_empty}
use appcenter_agent_linux.Api.{Error, Result, ok, err}
use appcenter_agent_linux.Session.{
  SessionStatus, SessionError, session_error_text, begin, clear, in_progress, fail, end, is_active,
}
use appcenter_agent_linux.Vnc
use appcenter_agent_linux.Remote.{
  Agent, Env, advance, persist, start_vnc, stop_vnc, approve_remote_session, reject_remote_session,
  send_remote_ended,
}
use appcenter_agent_linux.Remote.Server.{end_session, report_ended}
use appcenter_agent_linux.Ipc.{
  Request, StoreApp, Payload, nothing, apps, environment, session, daemon, snapshot, Response,
  ok_resp, err_resp, action_name,
}

-- What the handler meets outside: the replies of GetStore and of RequestStoreInstall with their
-- UUID and secret, and what ProbeEnv finds.
pub record Desk : Type 0 where
  pub uuid : Text
  pub store : ℕ → Text → Text → Result (List StoreApp)
  pub install : ℕ → Text → Text → ℤ → Result Text
  pub probe : ℕ → Vnc.EnvInfo

-- The cases of the switch
pub data Action : Type 0 where
  ping : Action
  store_list : Action
  store_install : Action
  remote_support_env : Action
  remote_support_status : Action
  remote_support_session_request : Action
  remote_support_approve : Action
  remote_support_reject : Action
  remote_support_clear : Action
  remote_support_end : Action
  remote_support_start : Action
  remote_support_stop : Action
  unsupported : Action

-- The first case whose name this is
unfoldable pub find_action : Text → List (Text × Action) → Action
unfolding same
find_action name [] = unsupported
find_action name ((n, action) ∷ cases) =
    let rest = find_action name cases in if same name n then action else rest

abbrev pub cases : List (Text × Action)
cases =
    (codes "ping", ping)
    ∷ (codes "store_list", store_list)
    ∷ (codes "store_install", store_install)
    ∷ (codes "remote_support_env", remote_support_env)
    ∷ (codes "remote_support_status", remote_support_status)
    ∷ (codes "remote_support_session_request", remote_support_session_request)
    ∷ (codes "remote_support_approve", remote_support_approve)
    ∷ (codes "remote_support_reject", remote_support_reject)
    ∷ (codes "remote_support_clear", remote_support_clear)
    ∷ (codes "remote_support_end", remote_support_end)
    ∷ (codes "remote_support_start", remote_support_start)
    ∷ (codes "remote_support_stop", remote_support_stop)
    ∷ []

unfoldable pub action_of : Request → Action
unfolding action_name find_action
action_of req = find_action (action_name req.action) cases

-- remoteSupportSnapshot
unfoldable pub remote_support_snapshot : Agent → Payload
unfolding in_progress
remote_support_snapshot a = snapshot a.session a.vnc.status a.enabled (in_progress a.session)

abbrev pub stepped : Agent → Agent
stepped a = record a { net = advance a.net }

unfoldable pub store_list_resp : Result (List StoreApp) → Response
unfolding ok_resp err_resp
store_list_resp (err e) =
    err_resp (codes "store list failed") (codes "store_list_failed") (some e) nothing
store_list_resp (ok l) =
    ok_resp (codes "store apps fetched: " ++ itoa (length l)) (codes "store_list_ok") (apps l)

abbrev not_registered : Response
not_registered =
    err_resp (codes "agent not registered yet") (codes "agent_not_registered") none nothing

-- case "store_list"
unfoldable pub list_store : Desk → Agent → Agent × Response
unfolding store_list_resp err_resp
list_store desk a =
    if is_empty a.secret_key
    then (a, not_registered)
    else (stepped a, store_list_resp (desk.store a.net.step desk.uuid a.secret_key))

unfoldable pub store_install_resp : Result Text → Response
unfolding ok_resp err_resp
store_install_resp (err e) =
    err_resp (codes "store install request failed") (codes "store_install_failed") (some e) nothing
store_install_resp (ok message) = ok_resp message (codes "store_install_requested") nothing

-- case "store_install"
unfoldable pub install_from_store : Desk → ℤ → Agent → Agent × Response
unfolding store_install_resp err_resp
install_from_store desk app_id a =
    if is_positive app_id
    then (if is_empty a.secret_key then (a, not_registered) else (
      stepped a,
      store_install_resp (desk.install a.net.step desk.uuid a.secret_key app_id),
    ))
    else (a, err_resp (codes "app_id must be positive") (codes "invalid_app_id") none nothing)

unfoldable pub env_resp : Vnc.EnvInfo → Response
unfolding ok_resp
env_resp env =
    ok_resp (if env.installed then codes "x11vnc is installed" else codes "x11vnc is not installed")
      (codes "ok") (environment env)

-- The session of a status request whose x11vnc has stopped. The error that x11vnc left is a format
-- of `fmt.Errorf` there, and is taken to hold no `%`.
unfoldable pub stopped_session : Env → Agent → SessionStatus
stopped_session env a =
    if is_empty (trim_space a.vnc.status.last_error)
    then end a.session (codes "daemon stopped") (env.now a.net.step)
    else fail a.session a.vnc.status.last_error (env.now a.net.step)

-- case "remote_support_status", up to its response
unfoldable pub refresh_status : Env → Agent → Agent
unfolding stopped_session persist report_ended
refresh_status env a =
    let b = record a { session = stopped_session env a } in
    if is_active a.session.state && not a.vnc.status.running
    then persist (report_ended env a.session.session_id (codes "daemon stopped") b)
    else a

-- case "remote_support_session_request" after Begin
unfoldable pub begun : SessionStatus × Option SessionError → Agent → Agent × Response
unfolding persist ok_resp err_resp remote_support_snapshot
begun (s, some e) a = (
  a,
  err_resp (codes "remote support session request failed")
      (codes "remote_support_session_request_failed") (some (Error.message (session_error_text e)))
      (session s),
)
begun (s, none) a =
    let b = persist (record a { session = s }) in
    (
      b,
      ok_resp (codes "remote support session pending approval")
          (codes "remote_support_session_pending") (remote_support_snapshot b),
    )

-- The response to an operation that returns an error or none, with what it leaves
unfoldable pub report : Text → Text → Text → Text → Payload → Option Error → Response
unfolding ok_resp err_resp
report good good_code bad bad_code payload none = ok_resp good good_code payload
report good good_code bad bad_code payload (some e) = err_resp bad bad_code (some e) payload

-- case "remote_support_end" after the ended callback
unfoldable pub end_reported : Agent × Result (Unit {0}) → Agent × Response
unfolding persist ok_resp err_resp remote_support_snapshot
end_reported (a, err e) = (
  a,
  err_resp (codes "remote support ended callback failed")
      (codes "remote_support_ended_callback_failed") (some e) (remote_support_snapshot a),
)
end_reported (a, ok _) =
    let b = persist a in
    (
      b,
      ok_resp (codes "remote support ended") (codes "remote_support_ended")
          (remote_support_snapshot b),
    )

-- case "remote_support_end" after the stop of x11vnc; `id` is that of the session before.
unfoldable pub end_stopped : Env → ℤ → Agent × Option Error → Agent × Response
unfolding end_reported end_session send_remote_ended err_resp remote_support_snapshot
end_stopped env id (a, some e) = (
  a,
  err_resp (codes "remote support daemon stop failed") (codes "remote_support_daemon_stop_failed")
      (some e) (remote_support_snapshot a),
)
end_stopped env id (a, none) =
    let b = end_session env (codes "ended") a in
    let (r, n) = send_remote_ended env b.secret_key id (codes "ended from ipc") b.net in
    end_reported (record b { net = n }, r)

-- case "remote_support_start" after the start of x11vnc
unfoldable pub start_resp : Agent × Option Error → Agent × Response
unfolding report
start_resp (a, e) = (
  a,
  report (codes "remote support started") (codes "remote_support_started")
      (codes "remote support start failed") (codes "remote_support_start_failed")
      (daemon a.vnc.status) e,
)

unfoldable pub perform : Env → Desk → Action → Request → Agent → Agent × Response
unfolding ok_resp err_resp list_store install_from_store env_resp refresh_status begun report
    start_resp end_stopped remote_support_snapshot persist stop_vnc start_vnc
perform env desk ping req a = (a, ok_resp (codes "pong") (codes "ok") nothing)
perform env desk store_list req a = list_store desk a
perform env desk store_install req a = install_from_store desk req.app_id a
perform env desk remote_support_env req a = (a, env_resp (desk.probe a.net.step))
perform env desk remote_support_status req a =
    let b = refresh_status env a in
    (
      b,
      ok_resp (codes "remote support status") (codes "remote_support_status")
          (remote_support_snapshot b),
    )
perform env desk remote_support_session_request req a =
    begun
      (begin a.session req.session_id (trim_space req.admin_name) (trim_space req.reason)
        (env.now a.net.step))
      a
perform env desk remote_support_approve req a =
    let (b, e) = approve_remote_session env req.monitor_count a in
    (
      b,
      report (codes "remote support approved and started") (codes "remote_support_approved")
          (codes "remote support approve failed") (codes "remote_support_approve_failed")
          (remote_support_snapshot b) e,
    )
perform env desk remote_support_reject req a =
    let (b, e) = reject_remote_session env (trim_space req.reason) a in
    (
      b,
      report (codes "remote support rejected") (codes "remote_support_rejected")
          (codes "remote support reject failed") (codes "remote_support_reject_failed")
          (remote_support_snapshot b) e,
    )
perform env desk remote_support_clear req a =
    let b = persist (record a { session = clear a.session }) in
    (
      b,
      ok_resp (codes "remote support state cleared") (codes "remote_support_cleared")
          (remote_support_snapshot b),
    )
perform env desk remote_support_end req a = end_stopped env a.session.session_id (stop_vnc env a)
perform env desk remote_support_start req a =
    if a.enabled then start_resp (start_vnc env [] a) else (
      a,
      err_resp (codes "remote support is disabled by config") (codes "remote_support_disabled") none
          (remote_support_snapshot a),
    )
perform env desk remote_support_stop req a =
    let (b, e) = stop_vnc env a in
    (
      b,
      report (codes "remote support stopped") (codes "remote_support_stopped")
          (codes "remote support stop failed") (codes "remote_support_stop_failed")
          (daemon b.vnc.status) e,
    )
perform env desk unsupported req a =
    (a, err_resp (codes "unsupported action") (codes "unsupported_action") none nothing)

-- handler
unfoldable pub handler : Env → Desk → Request → Agent → Agent × Response
unfolding action_of perform
handler env desk req a = perform env desk (action_of req) req a
