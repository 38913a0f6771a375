-- ===== src/Ipc/Effects.antt =====
-- cmd/service/main.go: what a request over the local socket may change.
use appcenter_agent_linux.Base.{
  ℕ, ℤ, is_positive, true, ◌||◌, not, [], Option, none, some, ◌≡◌, refl, arith,
}
use appcenter_agent_linux.Text.{Text, codes, trim_space}
use appcenter_agent_linux.Api.{Error, Result, ok, err}
use appcenter_agent_linux.Session.{
  SessionStatus, SessionError, begin, clear, end, fail, is_open, reset_connection, new_session,
}
use appcenter_agent_linux.Vnc.Laws.{start-IsConsistent}
use appcenter_agent_linux.Remote.{Agent, Env, persist, start_vnc, stop_vnc, send_remote_ended}
use appcenter_agent_linux.Remote.Server.{end_session, report_ended}
use appcenter_agent_linux.Remote.Invariant.{
  Inv, approve_remote_session-Inv, reject_remote_session-Inv, stop_vnc-IsConsistent,
}
use appcenter_agent_linux.Ipc.{Request}
use appcenter_agent_linux.Ipc.Handler.{
  Desk, Action, ping, store_list, store_install, remote_support_env, remote_support_status,
  remote_support_session_request, remote_support_approve, remote_support_reject,
  remote_support_clear, remote_support_end, remote_support_start, remote_support_stop, unsupported,
  list_store, install_from_store, refresh_status, stopped_session, begun, start_resp, end_stopped,
  end_reported, perform, handler, action_of,
}

module _ (env : Env) (desk : Desk) where
  begun-Inv :
      (x : SessionStatus × Option SessionError) (a : Agent)
      → Inv a
      → (not (is_open x.0.state) || is_positive x.0.session_id) ≡ true
      → Inv (begun x a).0
  unfolding begun persist
  begun-Inv (s, some e) a v h = v
  begun-Inv (s, none) a v h = record { vnc = v.vnc; has_id = h }

  refresh-Inv : (a : Agent) → Inv a → Inv (refresh_status env a)
  unfolding refresh_status persist report_ended stopped_session end fail reset_connection
  refresh-Inv a v = ground arith

  list_store-Inv : (a : Agent) → Inv a → Inv (list_store desk a).0
  unfolding list_store
  list_store-Inv a v = ground arith

  install_from_store-Inv : (id : ℤ) (a : Agent) → Inv a → Inv (install_from_store desk id a).0
  unfolding install_from_store
  install_from_store-Inv id a v = ground arith

  end_reported-Inv : (x : Agent × Result (Unit {0})) → Inv x.0 → Inv (end_reported x).0
  unfolding end_reported persist
  end_reported-Inv (a, ok u) v = record { vnc = v.vnc; has_id = v.has_id }
  end_reported-Inv (a, err e) v = v

  end_stopped-Inv : (id : ℤ) (x : Agent × Option Error) → Inv x.0 → Inv (end_stopped env id x).0
  unfolding end_stopped end_session end reset_connection
  end_stopped-Inv id (a, some e) v = v
  end_stopped-Inv id (a, none) v =
      let b = end_session env (codes "ended") a in
      let (r, n) = send_remote_ended env b.secret_key id (codes "ended from ipc") b.net in
      end_reported-Inv (record b { net = n }, r) (record { vnc = v.vnc; has_id = refl })

  stop-Inv : (a : Agent) → Inv a → Inv (stop_vnc env a).0
  unfolding stop_vnc
  stop-Inv a v = record { vnc = stop_vnc-IsConsistent env a v.vnc; has_id = v.has_id }

  start-Inv : (a : Agent) → Inv a → Inv (start_vnc env [] a).0
  unfolding start_vnc
  start-Inv a v = record {
    vnc = start-IsConsistent a.vnc [] (env.launch a.net.step) v.vnc;
    has_id = v.has_id;
  }

  begin-has_id :
      (a : Agent) (id : ℤ) (x y : Text) (now : ℕ)
      → Inv a
      → (not (is_open (begin a.session id x y now).0.state)
          || is_positive (begin a.session id x y now).0.session_id)
        ≡ true
  unfolding begin
  begin-has_id a id x y now v = ground arith

  perform-Inv :
      (act : Action) (req : Request) (a : Agent) → Inv a → Inv (perform env desk act req a).0
  unfolding perform start_resp persist clear new_session
  perform-Inv ping req a v = v
  perform-Inv store_list req a v = list_store-Inv a v
  perform-Inv store_install req a v = install_from_store-Inv req.app_id a v
  perform-Inv remote_support_env req a v = v
  perform-Inv remote_support_status req a v = refresh-Inv a v
  perform-Inv remote_support_session_request req a v = begun-Inv _ a v (
      begin-has_id a req.session_id (trim_space req.admin_name) (trim_space req.reason)
        (env.now a.net.step) v)
  perform-Inv remote_support_approve req a v = approve_remote_session-Inv env req.monitor_count a v
  perform-Inv remote_support_reject req a v =
      reject_remote_session-Inv env (trim_space req.reason) a v
  perform-Inv remote_support_clear req a v = record { vnc = v.vnc; has_id = refl }
  perform-Inv remote_support_end req a v = end_stopped-Inv a.session.session_id _ (stop-Inv a v)
  perform-Inv remote_support_start req a v = ground (arith, v, start-Inv a v)
  perform-Inv remote_support_stop req a v = stop-Inv a v
  perform-Inv unsupported req a v = v

  -- A request over the local socket keeps the invariant of the remote support state.
  pub handler-Inv : (req : Request) (a : Agent) → Inv a → Inv (handler env desk req a).0
  unfolding handler
  handler-Inv req a v = perform-Inv (action_of req) req a v
