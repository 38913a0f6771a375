-- ===== src/Remote/Approval.antt =====
-- What the approval of a session achieves, and what it leaves behind when it fails.
use appcenter_agent_linux.Base.{
  ℕ, ℤ, pos, is_positive, true, false, not, [], if◌then◌else◌, if_split, subst, Option, is_some,
  none, some, ◌≡◌, refl, ap, ◌⊎◌, inl, inr, arith,
}
use appcenter_agent_linux.Text.{codes, is_empty}
use appcenter_agent_linux.Api.{Error, message, error_text, Result, ok, err, RemoteApproveResponse}
use appcenter_agent_linux.Session.{
  active, error, SessionStatus, SessionError, session_error_text, approve, set_connection_info,
  activate, fail, is_pending, reset_connection,
}
use appcenter_agent_linux.Vnc
use appcenter_agent_linux.Vnc.Laws.{start_outcome, IsConsistent}
use appcenter_agent_linux.Remote.{
  Agent, Env, persist, start_vnc, stop_vnc, fail_session, finish_approve, report_ready,
  launch_approved, send_approval, approve_remote_session, local_vnc_port, send_remote_approve,
  send_remote_ready, send_remote_ended, vnc_password, guacd_host, guacd_reverse_port,
}

-- A session that has failed with the error `e`, saved as it is.
pub record IsFailed (id : ℤ) (e : Error) (b : Agent) : Type 0 where
  pub state : b.session.state ≡ error
  pub session_id : b.session.session_id ≡ id
  pub last_error : b.session.last_error ≡ error_text e
  pub saved : b.saved ≡ b.session
  pub no_host : b.session.guacd_host ≡ []
  pub no_port : b.session.local_vnc_port ≡ pos 0

-- A session that is active: x11vnc runs, and the session has the connection that the server answered
-- with and is saved so.
pub record IsActive (answer : Result (Option RemoteApproveResponse)) (id : ℤ) (b : Agent)
    : Type 0 where
  pub resp : Option RemoteApproveResponse
  pub answered : answer ≡ ok resp
  pub host : b.session.guacd_host ≡ guacd_host resp
  pub reverse_port : b.session.guacd_reverse_port ≡ guacd_reverse_port resp
  pub password_set : b.session.server_vnc_password_set ≡ not (is_empty (vnc_password resp))
  pub state : b.session.state ≡ active
  pub session_id : b.session.session_id ≡ id
  pub running : b.vnc.status.running ≡ true
  pub port : b.session.local_vnc_port ≡ local_vnc_port b
  pub saved : b.saved ≡ b.session

-- By the error that an operation returns.
abbrev pub Outcome : Result (Option RemoteApproveResponse) → ℤ → Agent × Option Error → Type 0
Outcome answer id (b, none) = IsActive answer id b
Outcome answer id (b, some e) = IsFailed id e b

fail_session-IsFailed :
    (env : Env) (a : Agent) (e : Error) → IsFailed a.session.session_id e (fail_session env a e)
unfolding fail_session persist fail reset_connection
fail_session-IsFailed env a e = ground arith

finish_approve-Outcome :
    (env : Env) (resp : Option RemoteApproveResponse) (r : Result (Unit {0})) (a : Agent)
    → a.vnc.status.running ≡ true
    → Outcome (ok resp) a.session.session_id (finish_approve env resp (local_vnc_port a) r a)
unfolding finish_approve stop_vnc persist set_connection_info activate
finish_approve-Outcome env resp (err e) a on =
    let b = (stop_vnc env a).0 in
    let n =
      (send_remote_ended env b.secret_key b.session.session_id (codes "ready callback failed")
        b.net).1 in
    fail_session-IsFailed env (record b { net = n }) e
finish_approve-Outcome env resp (ok u) a on = record {
  resp = resp;
  answered = refl;
  host = refl;
  reverse_port = refl;
  password_set = refl;
  state = refl;
  session_id = refl;
  running = on;
  port = refl;
  saved = refl;
}

report_ready-Outcome :
    (env : Env) (resp : Option RemoteApproveResponse) (e : Option Error) (a : Agent)
    → a.vnc.status.running ≡ not (is_some e)
    → Outcome (ok resp) a.session.session_id (report_ready env resp e a)
unfolding report_ready
report_ready-Outcome env resp (some e) a on = fail_session-IsFailed env a e
report_ready-Outcome env resp none a on =
    let (r, n) = send_remote_ready env a.secret_key a.session.session_id (local_vnc_port a) a.net in
    finish_approve-Outcome env resp r (record a { net = n }) on

launch_approved-Outcome :
    (env : Env) (r : Result (Option RemoteApproveResponse)) (a : Agent)
    → IsConsistent a.vnc
    → Outcome r a.session.session_id (launch_approved env r a)
unfolding launch_approved start_vnc
launch_approved-Outcome env (err e) a v = fail_session-IsFailed env a e
launch_approved-Outcome env (ok resp) a v =
    let l = env.launch a.net.step in
    let (m, e) = Vnc.start a.vnc (vnc_password resp) l in
    report_ready-Outcome env resp e _ (start_outcome a.vnc (vnc_password resp) l v).0

-- What the server answers to the approve callback of an approval for so many monitors
abbrev pub approve_answer : Env → ℤ → Agent → Result (Option RemoteApproveResponse)
approve_answer env count a =
    (send_remote_approve env a.secret_key a.session.session_id true
      (if is_positive count then count else pos 1) a.net).0

-- What an approval does: it is refused and changes nothing where remote support is disabled or no
-- session is pending; else it ends with an active session, or with a failed one and the error.
pub data Approved (env : Env) (count : ℤ) (a : Agent) (r : Agent × Option Error) : Type 0 where
  refused :
      (e : Error)
      → r ≡ (a, some e)
      → (a.enabled ≡ false) ⊎ (is_pending a.session.state ≡ false)
      → Approved env count a r
  decided :
      a.enabled ≡ true
      → is_pending a.session.state ≡ true
      → Outcome (approve_answer env count a) a.session.session_id r
      → Approved env count a r

-- What Approve() gives, by its error.
abbrev Granted : SessionStatus → SessionStatus × Option SessionError → Type 0
Granted s (t, none) = (is_pending s.state ≡ true) × (t.session_id ≡ s.session_id)
Granted s (t, some e) = is_pending s.state ≡ false

approve-Granted : (s : SessionStatus) (now : ℕ) → Granted s (approve s now)
unfolding approve reset_connection
approve-Granted s now =
    if_split {A = SessionStatus × Option SessionError} (Granted s) (is_pending s.state)
      (λ h. (h, refl)) (λ h. h)

send_approval-Approved :
    (env : Env) (count : ℤ) (x : SessionStatus × Option SessionError) (a : Agent)
    → IsConsistent a.vnc
    → a.enabled ≡ true
    → Granted a.session x
    → Approved env count a (send_approval env count x a)
unfolding send_approval
send_approval-Approved env count (s, some e) a v on h =
    refused (message (session_error_text e)) refl (inr h)
send_approval-Approved env count (s, none) a v on (h, same) =
    let (r, n) =
      send_remote_approve env a.secret_key s.session_id true
        (if is_positive count then count else pos 1) a.net in
    decided on h (
      let b : Agent = record a { session = s; net = n } in
      let answer = λ (id : ℤ).
        (send_remote_approve env a.secret_key id true (if is_positive count then count else pos 1)
          a.net).0 in
      subst (λ q. Outcome q a.session.session_id (launch_approved env r b)) (ap answer same)
        (subst (λ id. Outcome r id (launch_approved env r b)) same
          (launch_approved-Outcome env r b v)))

-- With x11vnc in a consistent state, an approval has one of the outcomes of `Approved`: it is
-- refused because remote support is disabled or no session is pending, and changes nothing; or the
-- pending session ends in error and is saved, or it is active and saved, with x11vnc running and
-- with the host, the port and the password flag that the server answered.
pub approve_remote_session-Approved :
    (env : Env) (count : ℤ) (a : Agent)
    → IsConsistent a.vnc
    → Approved env count a (approve_remote_session env count a)
unfolding approve_remote_session
approve_remote_session-Approved env count a v =
    if_split {A = Agent × Option Error} (Approved env count a) a.enabled
      (λ on.
        send_approval-Approved env count (approve a.session (env.now a.net.step)) a v on
          (approve-Granted a.session (env.now a.net.step)))
      (λ off. refused (message (codes "remote support is disabled by config")) refl (inl off))
