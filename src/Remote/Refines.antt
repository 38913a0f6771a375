-- ===== src/Remote/Refines.antt =====
-- cmd/service/main.go: which moves of the protocol each operation of remote support makes.
use appcenter_agent_linux.Base.{
  ℕ, ℤ, pos, is_positive, eq_ℤ, Bool, true, false, ◌&&◌, not, Option, none, some, ◌≡◌, refl, sym,
  subst, arith, if_both, if_split,
}
use appcenter_agent_linux.Text.{Text, codes, trim_space, is_empty}
use appcenter_agent_linux.Api.{Error, Result, ok, err}
use appcenter_agent_linux.Session.{
  State, error, SessionStatus, SessionError, begin, end, fail, clear, new_session, is_pending,
  is_open, is_active, reset_connection,
}
use appcenter_agent_linux.Remote.{Agent, Env, persist, start_vnc, stop_vnc, send_remote_ended}
use appcenter_agent_linux.Remote.Server.{
  RemoteSupportRequest, PromptResult, failed, closed, answered, enforce_remote_support_policy,
  terminate, time_out, end_session, report_ended, request_allowed, begin_requested,
  start_approval_prompt, apply_prompt, finish_prompt, handle_rs_end, end_by_server, check_daemon,
  has_timed_out,
}
use appcenter_agent_linux.Remote.Protocol.{
  Kind, opens, accepts, refuses, loses, ends, clears, lose, finish, reset, Moves, done, move, join,
  Follows, active-eq, begin-Moves, reject-Moves, approve-Moves, rejection-Moves,
}
use appcenter_agent_linux.Ipc.{Request, Response}
use appcenter_agent_linux.Ipc.Handler.{
  Desk, Action, ping, store_list, store_install, remote_support_env, remote_support_status,
  remote_support_session_request, remote_support_approve, remote_support_reject,
  remote_support_clear, remote_support_end, remote_support_start, remote_support_stop, unsupported,
  list_store, install_from_store, refresh_status, stopped_session, begun, start_resp, end_stopped,
  end_reported, perform, handler, action_of,
}

-- Sets of kinds
abbrev pub nothing : Kind → Bool
nothing k = false

-- What each action of a local request may do with the session
unfoldable pub action_kinds : Action → Kind → Bool
action_kinds remote_support_status loses = true
action_kinds remote_support_status ends = true
action_kinds remote_support_session_request opens = true
action_kinds remote_support_approve accepts = true
action_kinds remote_support_reject refuses = true
action_kinds remote_support_clear clears = true
action_kinds remote_support_end ends = true
action_kinds _ _ = false

ended-Moves :
    {may : Kind → Bool} (o : may ends ≡ true) {s : State} (t : SessionStatus) (why : Text) (now : ℕ)
    → Moves may s (end t why now).state
unfolding end reset_connection
ended-Moves o t why now = move o finish done

-- An active session without x11vnc is lost.
lost-Moves :
    {may : Kind → Bool} (o : may loses ≡ true) (s : State) (t : SessionStatus) (why : Text)
    (now : ℕ)
    → is_active s ≡ true
    → Moves may s (fail t why now).state
unfolding fail reset_connection
lost-Moves {may} o s t why now h =
    subst (λ (x : State). Moves may x error) (sym (active-eq s h)) (move o lose done)

module _ (env : Env) where
  terminate-Moves :
      {may : Kind → Bool} (o : may ends ≡ true) (a : Agent) → Follows may a (terminate env a)
  unfolding terminate end_session report_ended persist end reset_connection stop_vnc
  terminate-Moves o a = move o finish done

  time_out-Moves :
      {may : Kind → Bool} (o : may refuses ≡ true) (a : Agent) → Follows may a (time_out env a)
  unfolding time_out persist
  time_out-Moves o a = reject-Moves o a.session (codes "approval timeout") (env.now a.net.step)

  pub enforce-Moves :
      {may : Kind → Bool} (r : may refuses ≡ true) (o : may ends ≡ true) (a : Agent)
      → Follows may a (enforce_remote_support_policy env a).0
  unfolding enforce_remote_support_policy
  enforce-Moves {may} r o a =
      let P = λ (x : Agent × Bool). Follows may a x.0 in
      if_both P (a.enabled && a.server_enabled)
        (if_both P (has_timed_out a.session a.approval_timeout_sec (env.now a.net.step))
          (time_out-Moves r a) done)
        (if_both P (is_open a.session.state) (terminate-Moves o a) done)

  start_approval_prompt-same :
      (id : ℤ) (a : Agent) → (start_approval_prompt id a).session ≡ a.session
  unfolding start_approval_prompt
  start_approval_prompt-same id a = ground arith

  begin_requested-Moves :
      {may : Kind → Bool} (o : may accepts ≡ true) (req : RemoteSupportRequest)
      (x : SessionStatus × Option SessionError) (a : Agent)
      → Moves may a.session.state x.0.state
      → Follows may a (begin_requested env req x a)
  unfolding begin_requested persist
  begin_requested-Moves {may} o req (s, some e) a p = done
  begin_requested-Moves {may} o req (s, none) a p =
      let b : Agent = persist (record a { session = s }) in
      if_both (λ (c : Agent). Follows may a c) req.requires_approval
        (subst (λ (t : SessionStatus). Moves may a.session.state t.state)
          (sym (start_approval_prompt-same req.session_id b)) p)
        (join p (approve-Moves env o (pos 1) b))

  pub request_allowed-Moves :
      {may : Kind → Bool} (p : may opens ≡ true) (o : may accepts ≡ true)
      (req : RemoteSupportRequest) (x : Agent × Bool)
      → Follows may x.0 (request_allowed env req x)
  unfolding request_allowed
  request_allowed-Moves p o req (a, false) = done
  request_allowed-Moves p o req (a, true) =
      let now = env.now a.net.step in
      begin_requested-Moves o req
        (begin a.session req.session_id (trim_space req.admin_name) (trim_space req.reason) now) a
        (begin-Moves p a.session req.session_id (trim_space req.admin_name) (trim_space req.reason)
          now)

  apply_prompt-Moves :
      {may : Kind → Bool} (p : may accepts ≡ true) (q : may refuses ≡ true) (r : PromptResult)
      (a : Agent)
      → Follows may a (apply_prompt env r a)
  unfolding apply_prompt
  apply_prompt-Moves p q failed a = done
  apply_prompt-Moves p q closed a = done
  apply_prompt-Moves p q (answered true) a = approve-Moves env p (pos 1) a
  apply_prompt-Moves p q (answered false) a = rejection-Moves env q (codes "rejected by user") a

  pub finish_prompt-Moves :
      {may : Kind → Bool} (p : may accepts ≡ true) (q : may refuses ≡ true) (id : ℤ)
      (r : PromptResult) (a : Agent)
      → Follows may a (finish_prompt env id r a)
  unfolding finish_prompt
  finish_prompt-Moves {may} p q id r a =
      if_both (λ (b : Agent). Follows may a b)
        (eq_ℤ a.session.session_id id && is_pending a.session.state) (apply_prompt-Moves p q r a)
        done

  pub handle_rs_end-Moves :
      {may : Kind → Bool} (o : may ends ≡ true) (id : ℤ) (a : Agent)
      → Follows may a (handle_rs_end env (some id) a)
  unfolding handle_rs_end end_by_server stop_vnc end_session report_ended persist end
      reset_connection
  handle_rs_end-Moves {may} o id a =
      if_both (λ (b : Agent). Follows may a b) (is_positive id && eq_ℤ a.session.session_id id)
        (move o finish done) done

  pub check_daemon-Moves :
      {may : Kind → Bool} (l : may loses ≡ true) (a : Agent) → Follows may a (check_daemon env a)
  unfolding check_daemon persist report_ended
  check_daemon-Moves {may} l a =
      if_split (λ (b : Agent). Follows may a b)
        (is_active a.session.state && not a.vnc.status.running)
        (λ e. lost-Moves l a.session.state a.session _ (env.now a.net.step) (ground arith))
        (λ e. done)

  stopped-Moves :
      {may : Kind → Bool} (l : may loses ≡ true) (o : may ends ≡ true) (a : Agent)
      → is_active a.session.state ≡ true
      → Moves may a.session.state (stopped_session env a).state
  unfolding stopped_session
  stopped-Moves {may} l o a h =
      if_both (λ (s : SessionStatus). Moves may a.session.state s.state)
        (is_empty (trim_space a.vnc.status.last_error))
        (ended-Moves o a.session (codes "daemon stopped") (env.now a.net.step))
        (lost-Moves l a.session.state a.session a.vnc.status.last_error (env.now a.net.step) h)

  refresh-Moves :
      {may : Kind → Bool} (l : may loses ≡ true) (o : may ends ≡ true) (a : Agent)
      → Follows may a (refresh_status env a)
  unfolding refresh_status persist report_ended
  refresh-Moves {may} l o a =
      if_split (λ (b : Agent). Follows may a b)
        (is_active a.session.state && not a.vnc.status.running)
        (λ e. stopped-Moves l o a (ground arith)) (λ e. done)

  begun-Moves :
      {may : Kind → Bool} (x : SessionStatus × Option SessionError) (a : Agent)
      → Moves may a.session.state x.0.state
      → Follows may a (begun x a).0
  unfolding begun persist
  begun-Moves (s, some e) a p = done
  begun-Moves (s, none) a p = p

  end_reported-same : (x : Agent × Result (Unit {0})) → (end_reported x).0.session ≡ x.0.session
  unfolding end_reported persist
  end_reported-same (a, ok u) = refl
  end_reported-same (a, err e) = refl

  end_stopped-Moves :
      {may : Kind → Bool} (o : may ends ≡ true) (id : ℤ) (x : Agent × Option Error)
      → Follows may x.0 (end_stopped env id x).0
  unfolding end_stopped end_session
  end_stopped-Moves {may} o id (a, some e) = done
  end_stopped-Moves {may} o id (a, none) =
      let b = end_session env (codes "ended") a in
      let (r, n) = send_remote_ended env b.secret_key id (codes "ended from ipc") b.net in
      subst (λ (t : SessionStatus). Moves may a.session.state t.state)
        (sym (end_reported-same (record b { net = n }, r)))
        (ended-Moves o a.session (codes "ended") (env.now a.net.step))

  list_store-Moves :
      {may : Kind → Bool} (desk : Desk) (a : Agent) → Follows may a (list_store desk a).0
  unfolding list_store
  list_store-Moves {may} desk a =
      if_both (λ (r : Agent × Response). Follows may a r.0) (is_empty a.secret_key) done done

  install-Moves :
      {may : Kind → Bool} (desk : Desk) (id : ℤ) (a : Agent)
      → Follows may a (install_from_store desk id a).0
  unfolding install_from_store
  install-Moves {may} desk id a =
      let P = λ (r : Agent × Response). Follows may a r.0 in
      if_both P (is_positive id) (if_both P (is_empty a.secret_key) done done) done

  perform-Moves :
      (desk : Desk) (act : Action) (req : Request) (a : Agent)
      → Follows (action_kinds act) a (perform env desk act req a).0
  unfolding action_kinds perform start_resp persist clear new_session start_vnc stop_vnc
  perform-Moves desk ping req a = done
  perform-Moves desk store_list req a = list_store-Moves desk a
  perform-Moves desk store_install req a = install-Moves desk req.app_id a
  perform-Moves desk remote_support_env req a = done
  perform-Moves desk remote_support_status req a = refresh-Moves refl refl a
  perform-Moves desk remote_support_session_request req a =
      let now = env.now a.net.step in
      begun-Moves
        (begin a.session req.session_id (trim_space req.admin_name) (trim_space req.reason) now) a
        (begin-Moves refl a.session req.session_id (trim_space req.admin_name)
          (trim_space req.reason) now)
  perform-Moves desk remote_support_approve req a = approve-Moves env refl req.monitor_count a
  perform-Moves desk remote_support_reject req a =
      rejection-Moves env refl (trim_space req.reason) a
  perform-Moves desk remote_support_clear req a = move refl reset done
  perform-Moves desk remote_support_end req a =
      end_stopped-Moves refl a.session.session_id (stop_vnc env a)
  perform-Moves desk remote_support_start req a =
      if_both (λ (r : Agent × Response). Follows nothing a r.0) a.enabled done done
  perform-Moves desk remote_support_stop req a = done
  perform-Moves desk unsupported req a = done

  -- A request takes the session along moves of its action's kinds.
  pub handler-Moves :
      (desk : Desk) (req : Request) (a : Agent)
      → Follows (action_kinds (action_of req)) a (handler env desk req a).0
  unfolding handler
  handler-Moves desk req a = perform-Moves desk (action_of req) req a
