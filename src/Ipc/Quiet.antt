-- ===== src/Ipc/Quiet.antt =====
-- cmd/service/main.go: that no session is active and x11vnc is not running, through the requests of the
-- local socket that neither approve a session nor start x11vnc.
use appcenter_agent_linux.Base.{ℤ, Bool, true, false, Option, none, some, ◌≡◌, refl, arith}
use appcenter_agent_linux.Text.{codes, trim_space}
use appcenter_agent_linux.Api.{Error, Result, ok, err}
use appcenter_agent_linux.Session.{
  SessionStatus, SessionError, begin, end, is_active, reset_connection, clear, new_session,
}
use appcenter_agent_linux.Remote.{Agent, Env, persist, stop_vnc, send_remote_ended}
use appcenter_agent_linux.Remote.Server.{end_session}
use appcenter_agent_linux.Ipc.{Request}
use appcenter_agent_linux.Ipc.Handler.{
  Desk, Action, ping, store_list, store_install, remote_support_env, remote_support_status,
  remote_support_session_request, remote_support_approve, remote_support_reject,
  remote_support_clear, remote_support_end, remote_support_start, remote_support_stop, unsupported,
  list_store, install_from_store, refresh_status, begun, end_stopped, end_reported, perform,
}
use appcenter_agent_linux.Remote.Quiet.{IsQuiet, begin-inactive, stop-down, reject-IsQuiet}

-- The requests over the local socket that approve a session or start x11vnc
abbrev pub is_opening : Action → Bool
is_opening remote_support_approve = true
is_opening remote_support_start = true
is_opening _ = false

module _ (env : Env) where
  pub begun-IsQuiet :
      (x : SessionStatus × Option SessionError) (a : Agent)
      → IsQuiet a
      → is_active x.0.state ≡ false
      → IsQuiet (begun x a).0
  unfolding begun persist
  begun-IsQuiet (s, some e) a q i = q
  begun-IsQuiet (s, none) a q i = record { inactive = i; down = q.down }

  pub list_store-IsQuiet : (desk : Desk) (a : Agent) → IsQuiet a → IsQuiet (list_store desk a).0
  unfolding list_store
  list_store-IsQuiet desk a q = ground arith

  pub install_from_store-IsQuiet :
      (desk : Desk) (id : ℤ) (a : Agent) → IsQuiet a → IsQuiet (install_from_store desk id a).0
  unfolding install_from_store
  install_from_store-IsQuiet desk id a q = ground arith

  pub refresh-IsQuiet : (a : Agent) → IsQuiet a → IsQuiet (refresh_status env a)
  unfolding refresh_status
  refresh-IsQuiet a q = ground (arith, q.inactive)

  pub end_reported-IsQuiet :
      (x : Agent × Result (Unit {0})) → IsQuiet x.0 → IsQuiet (end_reported x).0
  unfolding end_reported persist
  end_reported-IsQuiet (a, ok u) q = record { inactive = q.inactive; down = q.down }
  end_reported-IsQuiet (a, err e) q = q

  pub end_stopped-IsQuiet :
      (id : ℤ) (x : Agent × Option Error) → IsQuiet x.0 → IsQuiet (end_stopped env id x).0
  unfolding end_stopped end_session end reset_connection
  end_stopped-IsQuiet id (a, some e) q = q
  end_stopped-IsQuiet id (a, none) q =
      let b = end_session env (codes "ended") a in
      let (r, n) = send_remote_ended env b.secret_key id (codes "ended from ipc") b.net in
      end_reported-IsQuiet (record b { net = n }, r) (record { inactive = refl; down = q.down })

  pub stop-IsQuiet : (a : Agent) → IsQuiet a → IsQuiet (stop_vnc env a).0
  unfolding stop_vnc
  stop-IsQuiet a q = ground (arith, stop-down a.vnc (env.halt a.net.step) q.down)

  pub perform-IsQuiet :
      (desk : Desk) (act : Action) (req : Request) (a : Agent)
      → is_opening act ≡ false
      → IsQuiet a
      → IsQuiet (perform env desk act req a).0
  unfolding perform persist clear new_session
  perform-IsQuiet desk ping req a h q = q
  perform-IsQuiet desk store_list req a h q = list_store-IsQuiet desk a q
  perform-IsQuiet desk store_install req a h q = install_from_store-IsQuiet desk req.app_id a q
  perform-IsQuiet desk remote_support_env req a h q = q
  perform-IsQuiet desk remote_support_status req a h q = refresh-IsQuiet a q
  perform-IsQuiet desk remote_support_session_request req a h q =
      let now = env.now a.net.step in
      begun-IsQuiet
        (begin a.session req.session_id (trim_space req.admin_name) (trim_space req.reason) now) a q
        (begin-inactive env a.session req.session_id (trim_space req.admin_name)
          (trim_space req.reason) now q.inactive)
  perform-IsQuiet desk remote_support_approve req a h q = cc
  perform-IsQuiet desk remote_support_reject req a h q =
      reject-IsQuiet env (trim_space req.reason) a q
  perform-IsQuiet desk remote_support_clear req a h q = record { inactive = refl; down = q.down }
  perform-IsQuiet desk remote_support_end req a h q =
      end_stopped-IsQuiet a.session.session_id _ (stop-IsQuiet a q)
  perform-IsQuiet desk remote_support_start req a h q = cc
  perform-IsQuiet desk remote_support_stop req a h q = stop-IsQuiet a q
  perform-IsQuiet desk unsupported req a h q = q
