-- ===== src/Ipc/Saved.antt =====
-- cmd/service/main.go: when the session in the state file is the one that is held, after a request
-- over the local socket. Whether each save succeeds is a parameter, for the code only logs it.
use appcenter_agent_linux.Base.{
  ℤ, pos, is_positive, Bool, true, false, [], Option, none, some, ◌≡◌, refl, ◌⊎◌, inl, inr, arith,
  if◌then◌else◌, ℕ, List, ◌∷◌, length, is_some, if_both, not, ◌&&◌,
}
use appcenter_agent_linux.Text.{Text, codes, trim_space, is_empty}
use appcenter_agent_linux.Api.{Error, error_text, Result, ok, err, RemoteApproveResponse}
use appcenter_agent_linux.Session.{
  SessionStatus, SessionError, begin, approve, reject, fail, activate, set_connection_info, clear,
  is_active,
}
use appcenter_agent_linux.Remote.{
  Agent, Env, persist, start_vnc, stop_vnc, approve_remote_session, reject_remote_session,
  send_remote_ended, send_remote_approve, send_remote_ready, fail_session, finish_approve,
  report_ready, launch_approved, send_approval, finish_reject, send_rejection, local_vnc_port,
  vnc_password, guacd_host, guacd_reverse_port,
}
use appcenter_agent_linux.Remote.Server.{end_session, report_ended}
use appcenter_agent_linux.Ipc.{Request, Payload, Response, err_resp, Outcome, done, failure}
use appcenter_agent_linux.Ipc.Handler.{
  Desk, Action, ping, store_list, store_install, remote_support_env, remote_support_status,
  remote_support_session_request, remote_support_approve, remote_support_reject,
  remote_support_clear, remote_support_end, remote_support_start, remote_support_stop, unsupported,
  list_store, install_from_store, refresh_status, stopped_session, begun, report, start_resp,
  end_stopped, end_reported, perform, handler, action_of,
}

-- The session in the state file after the saves of remote support, newest first. `start` is the one that it has before
-- them, and the error of the save that `n` others came before is `save_error n`.
unfoldable pub state_file : (ℕ → Option Error) → SessionStatus → List SessionStatus → SessionStatus
state_file save_error start [] = start
state_file save_error start (s ∷ l) =
    let rest = state_file save_error start l in if is_some (save_error (length l)) then rest else s

-- The state and its file have the session that is held.
record IsSaved (save_error : ℕ → Option Error) (start : SessionStatus) (a : Agent) : Type 0 where
  saved_lem : a.saved ≡ a.session
  filed : state_file save_error start a.saves ≡ a.session

abbrev is_done : Outcome → Bool
is_done done = true
is_done failure = false

module _ (save_error : ℕ → Option Error) (no_error : (n : ℕ) → save_error n ≡ none)
    (start : SessionStatus) where
  persist-IsSaved : (a : Agent) → IsSaved save_error start (persist a)
  unfolding persist state_file
  persist-IsSaved a = record { saved_lem = refl; filed = rw (no_error (length a.saves)) refl }

  -- The operation may leave the session unsaved only with an error.
  abbrev SavedUnless : Agent × Option Error → Type 0
  SavedUnless (a, none) = IsSaved save_error start a
  SavedUnless (a, some e) = Unit

  module _ (env : Env) where
    fail_session-IsSaved : (a : Agent) (e : Error) → IsSaved save_error start (fail_session env a e)
    unfolding fail_session persist
    fail_session-IsSaved a e =
        persist-IsSaved (record a { session = fail a.session (error_text e) (env.now a.net.step) })

    finish_approve-IsSaved :
        (resp : Option RemoteApproveResponse) (port : ℤ) (r : Result (Unit {0})) (a : Agent)
        → IsSaved save_error start (finish_approve env resp port r a).0
    unfolding finish_approve fail_session persist
    finish_approve-IsSaved resp port (err e) a =
        fail_session-IsSaved
          (record (stop_vnc env a).0 {
            net =
                (send_remote_ended env a.secret_key a.session.session_id
                  (codes "ready callback failed") (stop_vnc env a).0.net).1;
          })
          e
    finish_approve-IsSaved resp port (ok u) a = persist-IsSaved (record a {
      session = activate (
          set_connection_info a.session (guacd_host resp) (guacd_reverse_port resp) port
            (not (is_empty (vnc_password resp))));
    })

    report_ready-IsSaved :
        (resp : Option RemoteApproveResponse) (e : Option Error) (a : Agent)
        → IsSaved save_error start (report_ready env resp e a).0
    unfolding report_ready
    report_ready-IsSaved resp (some e) a = fail_session-IsSaved a e
    report_ready-IsSaved resp none a =
        let (r, n) =
          send_remote_ready env a.secret_key a.session.session_id (local_vnc_port a) a.net in
        finish_approve-IsSaved resp (local_vnc_port a) r (record a { net = n })

    launch_approved-IsSaved :
        (r : Result (Option RemoteApproveResponse)) (a : Agent)
        → IsSaved save_error start (launch_approved env r a).0
    unfolding launch_approved
    launch_approved-IsSaved (err e) a = fail_session-IsSaved a e
    launch_approved-IsSaved (ok resp) a =
        let (b, e) = start_vnc env (vnc_password resp) a in report_ready-IsSaved resp e b

    send_approval-IsSaved :
        (count : ℤ) (x : SessionStatus × Option SessionError) (a : Agent)
        → IsSaved save_error start a
        → IsSaved save_error start (send_approval env count x a).0
    unfolding send_approval
    send_approval-IsSaved count (s, some e) a v = v
    send_approval-IsSaved count (s, none) a v =
        let (r, n) =
          send_remote_approve env a.secret_key s.session_id true
            (if is_positive count then count else pos 1) a.net in
        launch_approved-IsSaved r (record a { session = s; net = n })

    approve-IsSaved :
        (count : ℤ) (a : Agent)
        → IsSaved save_error start a
        → IsSaved save_error start (approve_remote_session env count a).0
    unfolding approve_remote_session
    approve-IsSaved count a v =
        ground (arith, v, send_approval-IsSaved count (approve a.session (env.now a.net.step)) a v)

    finish_reject-IsSaved :
        (r : Result (Option RemoteApproveResponse)) (a : Agent) → SavedUnless (finish_reject r a)
    unfolding finish_reject persist
    finish_reject-IsSaved (ok u) a = persist-IsSaved a
    finish_reject-IsSaved (err e) a = tt

    send_rejection-IsSaved :
        (x : SessionStatus × Option SessionError) (a : Agent) → SavedUnless (send_rejection env x a)
    unfolding send_rejection
    send_rejection-IsSaved (s, some e) a = tt
    send_rejection-IsSaved (s, none) a =
        let (r, n) = send_remote_approve env a.secret_key s.session_id false (pos 0) a.net in
        finish_reject-IsSaved r (record a { session = s; net = n })

    reject-IsSaved : (reason : Text) (a : Agent) → SavedUnless (reject_remote_session env reason a)
    unfolding reject_remote_session
    reject-IsSaved reason a =
        let why = if is_empty (trim_space reason) then codes "rejected by user" else reason in
        send_rejection-IsSaved (reject a.session why (env.now a.net.step)) a

  -- An answer is an error, or the session was saved.
  abbrev SavedIfDone : Agent × Response → Type 0
  SavedIfDone x = (is_done x.1.status ≡ false) ⊎ IsSaved save_error start x.0

  report-SavedIfDone :
      (g gc b bc : Text) (p : Payload) (x : Agent × Option Error)
      → SavedUnless x
      → SavedIfDone (x.0, report g gc b bc p x.1)
  unfolding report err_resp
  report-SavedIfDone g gc b bc p (a, none) s = inr s
  report-SavedIfDone g gc b bc p (a, some e) s = inl refl

  begun-SavedIfDone :
      (x : SessionStatus × Option SessionError) (a : Agent) → SavedIfDone (begun x a)
  unfolding begun err_resp persist
  begun-SavedIfDone (s, some e) a = inl refl
  begun-SavedIfDone (s, none) a = inr (persist-IsSaved (record a { session = s }))

  end_reported-SavedIfDone : (x : Agent × Result (Unit {0})) → SavedIfDone (end_reported x)
  unfolding end_reported err_resp persist
  end_reported-SavedIfDone (a, err e) = inl refl
  end_reported-SavedIfDone (a, ok u) = inr (persist-IsSaved a)

  module _ (env : Env) where
    end_stopped-SavedIfDone :
        (id : ℤ) (x : Agent × Option Error) → SavedIfDone (end_stopped env id x)
    unfolding end_stopped err_resp
    end_stopped-SavedIfDone id (a, some e) = inl refl
    end_stopped-SavedIfDone id (a, none) =
        let b = end_session env (codes "ended") a in
        let (r, n) = send_remote_ended env b.secret_key id (codes "ended from ipc") b.net in
        end_reported-SavedIfDone (record b { net = n }, r)

    start_vnc-IsSaved :
        (a : Agent) → IsSaved save_error start a → IsSaved save_error start (start_vnc env [] a).0
    unfolding start_vnc
    start_vnc-IsSaved a v = record { saved_lem = v.saved_lem; filed = v.filed }

    stop_vnc-IsSaved :
        (a : Agent) → IsSaved save_error start a → IsSaved save_error start (stop_vnc env a).0
    unfolding stop_vnc
    stop_vnc-IsSaved a v = record { saved_lem = v.saved_lem; filed = v.filed }

    refresh-IsSaved :
        (a : Agent) → IsSaved save_error start a → IsSaved save_error start (refresh_status env a)
    unfolding refresh_status
    refresh-IsSaved a v =
        if_both (IsSaved save_error start) (is_active a.session.state && not a.vnc.status.running)
          (persist-IsSaved (
            report_ended env a.session.session_id (codes "daemon stopped")
              (record a { session = stopped_session env a })))
          v

    list_store-IsSaved :
        (desk : Desk) (a : Agent)
        → IsSaved save_error start a
        → IsSaved save_error start (list_store desk a).0
    unfolding list_store
    list_store-IsSaved desk a v = ground arith

    install_from_store-IsSaved :
        (desk : Desk) (id : ℤ) (a : Agent)
        → IsSaved save_error start a
        → IsSaved save_error start (install_from_store desk id a).0
    unfolding install_from_store
    install_from_store-IsSaved desk id a v = ground arith

    perform-SavedIfDone :
        (desk : Desk) (act : Action) (req : Request) (a : Agent)
        → IsSaved save_error start a
        → SavedIfDone (perform env desk act req a)
    unfolding perform persist start_resp
    perform-SavedIfDone desk ping req a v = inr v
    perform-SavedIfDone desk store_list req a v = inr (list_store-IsSaved desk a v)
    perform-SavedIfDone desk store_install req a v =
        inr (install_from_store-IsSaved desk req.app_id a v)
    perform-SavedIfDone desk remote_support_env req a v = inr v
    perform-SavedIfDone desk remote_support_status req a v = inr (refresh-IsSaved a v)
    perform-SavedIfDone desk remote_support_session_request req a v =
        begun-SavedIfDone
          (begin a.session req.session_id (trim_space req.admin_name) (trim_space req.reason)
            (env.now a.net.step))
          a
    perform-SavedIfDone desk remote_support_approve req a v =
        inr (approve-IsSaved env req.monitor_count a v)
    perform-SavedIfDone desk remote_support_reject req a v =
        report-SavedIfDone _ _ _ _ _ (reject_remote_session env (trim_space req.reason) a)
          (reject-IsSaved env (trim_space req.reason) a)
    perform-SavedIfDone desk remote_support_clear req a v =
        inr (persist-IsSaved (record a { session = clear a.session }))
    perform-SavedIfDone desk remote_support_end req a v =
        end_stopped-SavedIfDone a.session.session_id (stop_vnc env a)
    perform-SavedIfDone desk remote_support_start req a v =
        inr (ground (arith, v, start_vnc-IsSaved a v))
    perform-SavedIfDone desk remote_support_stop req a v = inr (stop_vnc-IsSaved a v)
    perform-SavedIfDone desk unsupported req a v = inr v

-- Where no save of the state file fails, and the state and its file have the session that is held,
-- a request over the local socket leaves it so, or it answers with an error.
pub handler_saves :
    (save_error : ℕ → Option Error) (start : SessionStatus) (env : Env) (desk : Desk)
    (req : Request) (a : Agent)
    → ((n : ℕ) → save_error n ≡ none)
    → a.saved ≡ a.session
    → state_file save_error start a.saves ≡ a.session
    → let (b, r) = handler env desk req a in
      (r.status ≡ failure)
      ⊎ ((b.saved ≡ b.session) × (state_file save_error start b.saves ≡ b.session))
unfolding handler
handler_saves save_error start env desk req a n v w =
    outcome (perform env desk (action_of req) req a) (
      perform-SavedIfDone save_error n start env desk (action_of req) req a
        (record { saved_lem = v; filed = w }))
  where
    outcome :
        (x : Agent × Response)
        → SavedIfDone save_error n start x
        → (x.1.status ≡ failure)
          ⊎ ((x.0.saved ≡ x.0.session) × (state_file save_error start x.0.saves ≡ x.0.session))
    outcome x (inl e) = inl (is_failure x.1.status e)
      where
        is_failure : (o : Outcome) → is_done o ≡ false → o ≡ failure
        is_failure done h = ground arith
        is_failure failure h = refl
    outcome x (inr w) = inr (w.saved_lem, w.filed)
