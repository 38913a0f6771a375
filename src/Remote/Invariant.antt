-- ===== src/Remote/Invariant.antt =====
-- cmd/service/main.go: the invariant of the remote support state, through an approval and a
-- rejection.
use appcenter_agent_linux.Base.{
  ℕ, ℤ, pos, is_positive, true, false, not, ◌||◌, if◌then◌else◌, Option, none, some, ◌≡◌, arith,
  if_both, if_split,
}
use appcenter_agent_linux.Text.{Text, codes}
use appcenter_agent_linux.Api.{Error, Result, ok, err, RemoteApproveResponse}
use appcenter_agent_linux.Session.{
  SessionStatus, SessionError, approve, reject, fail, is_pending, is_open, reset_connection,
  set_connection_info, activate,
}
use appcenter_agent_linux.Vnc.Laws.{IsConsistent, start-IsConsistent, stop-IsConsistent}
use appcenter_agent_linux.Remote.{
  Agent, Env, persist, start_vnc, stop_vnc, fail_session, finish_approve, report_ready,
  launch_approved, send_approval, approve_remote_session, finish_reject, send_rejection,
  reject_remote_session, send_remote_approve, send_remote_ready, send_remote_ended, local_vnc_port,
  vnc_password,
}

-- The x11vnc manager is consistent, and an open session has a positive id.
pub record Inv (a : Agent) : Type 0 where
  pub vnc : IsConsistent a.vnc
  pub has_id : (not (is_open a.session.state) || is_positive a.session.session_id) ≡ true

module _ (env : Env) where
  pub fail_session-Inv : (a : Agent) (e : Error) → IsConsistent a.vnc → Inv (fail_session env a e)
  unfolding fail_session persist fail reset_connection
  fail_session-Inv a e v = ground arith

  pub stop_vnc-IsConsistent : (a : Agent) → IsConsistent a.vnc → IsConsistent (stop_vnc env a).0.vnc
  unfolding stop_vnc
  stop_vnc-IsConsistent a v = stop-IsConsistent a.vnc (env.halt a.net.step) v

  finish_approve-Inv :
      (resp : Option RemoteApproveResponse) (port : ℤ) (r : Result (Unit {0})) (a : Agent)
      → IsConsistent a.vnc
      → is_positive a.session.session_id ≡ true
      → Inv (finish_approve env resp port r a).0
  unfolding finish_approve persist set_connection_info activate
  finish_approve-Inv resp port (err e) a v p =
      fail_session-Inv
        (record (stop_vnc env a).0 {
          net =
              (send_remote_ended env (stop_vnc env a).0.secret_key
                (stop_vnc env a).0.session.session_id (codes "ready callback failed")
                (stop_vnc env a).0.net).1;
        })
        e (stop_vnc-IsConsistent a v)
  finish_approve-Inv resp port (ok u) a v p = record { vnc = v; has_id = ground (arith, p) }

  report_ready-Inv :
      (resp : Option RemoteApproveResponse) (e : Option Error) (a : Agent)
      → IsConsistent a.vnc
      → is_positive a.session.session_id ≡ true
      → Inv (report_ready env resp e a).0
  unfolding report_ready
  report_ready-Inv resp (some e) a v p = fail_session-Inv a e v
  report_ready-Inv resp none a v p =
      let (r, n) =
        send_remote_ready env a.secret_key a.session.session_id (local_vnc_port a) a.net in
      finish_approve-Inv resp (local_vnc_port a) r (record a { net = n }) v p

  launch_approved-Inv :
      (r : Result (Option RemoteApproveResponse)) (a : Agent)
      → IsConsistent a.vnc
      → is_positive a.session.session_id ≡ true
      → Inv (launch_approved env r a).0
  unfolding launch_approved start_vnc
  launch_approved-Inv (err e) a v p = fail_session-Inv a e v
  launch_approved-Inv (ok resp) a v p =
      report_ready-Inv resp (start_vnc env (vnc_password resp) a).1
        (start_vnc env (vnc_password resp) a).0
        (start-IsConsistent a.vnc (vnc_password resp) (env.launch a.net.step) v) p

  -- What Approve() and Reject() give: no error only for a pending session, whose id they keep.
  KeepsId : Agent → SessionStatus × Option SessionError → Type 0
  KeepsId a (t, none) = is_positive t.session_id ≡ true
  KeepsId a (t, some e) = Unit

  approve-KeepsId : (a : Agent) (now : ℕ) → Inv a → KeepsId a (approve a.session now)
  unfolding approve reset_connection KeepsId
  approve-KeepsId a now v =
      if_split {A = SessionStatus × Option SessionError} (KeepsId a) (is_pending a.session.state)
        (λ h. ground (arith, v)) (λ h. tt)

  reject-KeepsId : (a : Agent) (why : Text) (now : ℕ) → Inv a → KeepsId a (reject a.session why now)
  unfolding reject reset_connection KeepsId
  reject-KeepsId a why now v =
      if_split {A = SessionStatus × Option SessionError} (KeepsId a) (is_pending a.session.state)
        (λ h. ground (arith, v)) (λ h. tt)

  send_approval-Inv :
      (count : ℤ) (x : SessionStatus × Option SessionError) (a : Agent)
      → Inv a
      → KeepsId a x
      → Inv (send_approval env count x a).0
  unfolding send_approval KeepsId
  send_approval-Inv count (s, some e) a v k = v
  send_approval-Inv count (s, none) a v k =
      let (r, n) =
        send_remote_approve env a.secret_key s.session_id true
          (if is_positive count then count else pos 1) a.net in
      launch_approved-Inv r (record a { session = s; net = n }) v.vnc k

  pub approve_remote_session-Inv :
      (count : ℤ) (a : Agent) → Inv a → Inv (approve_remote_session env count a).0
  unfolding approve_remote_session
  approve_remote_session-Inv count a v =
      if_both {A = Agent × Option Error} (λ r. Inv r.0) a.enabled
        (send_approval-Inv count (approve a.session (env.now a.net.step)) a v
          (approve-KeepsId a (env.now a.net.step) v))
        v

  finish_reject-Inv :
      (r : Result (Option RemoteApproveResponse)) (a : Agent) → Inv a → Inv (finish_reject r a).0
  unfolding finish_reject persist
  finish_reject-Inv (ok u) a v = record { vnc = v.vnc; has_id = v.has_id }
  finish_reject-Inv (err e) a v = v

  send_rejection-Inv :
      (x : SessionStatus × Option SessionError) (a : Agent)
      → Inv a
      → KeepsId a x
      → Inv (send_rejection env x a).0
  unfolding send_rejection KeepsId
  send_rejection-Inv (s, some e) a v k = v
  send_rejection-Inv (s, none) a v k =
      let (r, n) = send_remote_approve env a.secret_key s.session_id false (pos 0) a.net in
      finish_reject-Inv r (record a { session = s; net = n })
        (record { vnc = v.vnc; has_id = ground (arith, k) })

  pub reject_remote_session-Inv :
      (reason : Text) (a : Agent) → Inv a → Inv (reject_remote_session env reason a).0
  unfolding reject_remote_session
  reject_remote_session-Inv reason a v =
      send_rejection-Inv _ a v (reject-KeepsId a _ (env.now a.net.step) v)
