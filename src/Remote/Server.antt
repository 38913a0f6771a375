-- ===== src/Remote/Server.antt =====
-- cmd/service/main.go: what the agent does with the server's remote support messages, with the
-- answer of the desktop prompt, and when it finds that x11vnc has stopped.
use appcenter_agent_linux.Base.{
  ℕ, ◌+◌, ◌^◌, ℤ, pos, is_positive, pos_part, eq_ℤ, Bool, true, false, ◌&&◌, ◌||◌, not, List, [],
  ◌∷◌, if◌then◌else◌, Option, none, some, ltb, keep,
}
use appcenter_agent_linux.Text.{Text, codes, trim_space, is_empty}
use appcenter_agent_linux.Session.{
  SessionStatus, SessionError, begin, reject, end, fail, is_pending, is_open, is_active,
}
use appcenter_agent_linux.Remote.{
  Agent, Env, persist, stop_vnc, approve_remote_session, reject_remote_session, send_remote_approve,
  send_remote_ended,
}

-- internal/api/client.go: `RemoteSupportRequest`
pub record RemoteSupportRequest : Type 0 where
  pub session_id : ℤ
  pub admin_name : Text
  pub reason : Text
  pub requires_approval : Bool

-- `now > requested + timeout` on int64: a sum beyond 2^63 - 1 is negative, so `now` is beyond it.
unfoldable pub is_past_deadline : ℤ → ℕ → ℕ → Bool
is_past_deadline requested timeout now =
    let deadline = pos_part requested + timeout in ltb deadline now || not (ltb deadline (2 ^ 63))

-- A pending session with a request time whose deadline has passed.
unfoldable pub has_timed_out : SessionStatus → ℕ → ℕ → Bool
unfolding is_past_deadline
has_timed_out s timeout now =
    is_pending s.state
    && (is_positive s.requested_at_unix && is_past_deadline s.requested_at_unix timeout now)

-- remoteSupportSession.End(message)
unfoldable pub end_session : Env → Text → Agent → Agent
end_session env why a = record a { session = end a.session why (env.now a.net.step) }

-- sendRemoteEnded, whose error is only logged here
unfoldable pub report_ended : Env → ℤ → Text → Agent → Agent
unfolding send_remote_ended
report_ended env id reason a = record a {
  net = (send_remote_ended env a.secret_key id reason a.net).1;
}

-- enforceRemoteSupportPolicy where remote support is not allowed and a session is open
unfoldable pub terminate : Env → Agent → Agent
unfolding stop_vnc end_session report_ended persist
terminate env a = persist (
    report_ended env a.session.session_id (codes "disabled by config")
      (end_session env (codes "disabled by config") (stop_vnc env a).0))

-- enforceRemoteSupportPolicy where a pending session has timed out
unfoldable pub time_out : Env → Agent → Agent
unfolding persist send_remote_approve
time_out env a =
    let s = (reject a.session (codes "approval timeout") (env.now a.net.step)).0 in
    persist (record a {
      session = s;
      net = (send_remote_approve env a.secret_key a.session.session_id false (pos 0) a.net).1;
    })

-- enforceRemoteSupportPolicy
unfoldable pub enforce_remote_support_policy : Env → Agent → Agent × Bool
unfolding terminate time_out has_timed_out
enforce_remote_support_policy env a =
    if a.enabled && a.server_enabled
    then (if has_timed_out a.session a.approval_timeout_sec (env.now a.net.step)
        then (time_out env a, true)
        else (a, true))
    else (if is_open a.session.state then (terminate env a, false) else (a, false))

unfoldable pub is_prompting : ℤ → List ℤ → Bool
is_prompting id [] = false
is_prompting id (k ∷ ks) = eq_ℤ k id || is_prompting id ks

-- startApprovalPrompt, up to the start of its goroutine
unfoldable pub start_approval_prompt : ℤ → Agent → Agent
unfolding is_prompting
start_approval_prompt id a =
    if is_positive id
    then (if is_prompting id a.prompts then a else record a { prompts = id ∷ a.prompts })
    else a

-- What PromptApproval returns: an error, no decision, or a decision.
pub data PromptResult : Type 0 where
  failed : PromptResult
  closed : PromptResult
  answered : Bool → PromptResult

-- The decision of a prompt on the session that it was about.
unfoldable pub apply_prompt : Env → PromptResult → Agent → Agent
unfolding approve_remote_session reject_remote_session
apply_prompt env failed a = a
apply_prompt env closed a = a
apply_prompt env (answered true) a = (approve_remote_session env (pos 1) a).0
apply_prompt env (answered false) a = (reject_remote_session env (codes "rejected by user") a).0

-- The goroutine of startApprovalPrompt, when the prompt for session `id` returns.
unfoldable pub finish_prompt : Env → ℤ → PromptResult → Agent → Agent
unfolding apply_prompt
finish_prompt env id r a =
    let b =
      (if eq_ℤ a.session.session_id id && is_pending a.session.state
        then apply_prompt env r a
        else a) in
    record b { prompts = keep (λ k. not (eq_ℤ k id)) b.prompts }

-- handleRSRequest after Begin
unfoldable pub begin_requested :
    Env → RemoteSupportRequest → SessionStatus × Option SessionError → Agent → Agent
unfolding persist start_approval_prompt approve_remote_session
begin_requested env req (s, some e) a = a
begin_requested env req (s, none) a =
    let b = persist (record a { session = s }) in
    if req.requires_approval
    then start_approval_prompt req.session_id b
    else (approve_remote_session env (pos 1) b).0

-- handleRSRequest after enforceRemoteSupportPolicy
unfoldable pub request_allowed : Env → RemoteSupportRequest → Agent × Bool → Agent
unfolding begin_requested
request_allowed env req (a, false) = a
request_allowed env req (a, true) =
    begin_requested env req
      (begin a.session req.session_id (trim_space req.admin_name) (trim_space req.reason)
        (env.now a.net.step))
      a

-- handleRSRequest
unfoldable pub handle_rs_request : Env → Option RemoteSupportRequest → Agent → Agent
unfolding request_allowed enforce_remote_support_policy
handle_rs_request env none a = a
handle_rs_request env (some req) a = request_allowed env req (enforce_remote_support_policy env a)

-- handleRSEnd where the message is about the session that is held
unfoldable pub end_by_server : Env → ℤ → Agent → Agent
unfolding stop_vnc end_session persist report_ended
end_by_server env id a =
    report_ended env id (codes "ended by server signal")
      (persist (end_session env (codes "ended by server") (stop_vnc env a).0))

-- handleRSEnd, with the session id of the message
unfoldable pub handle_rs_end : Env → Option ℤ → Agent → Agent
unfolding end_by_server
handle_rs_end env none a = a
handle_rs_end env (some id) a =
    if is_positive id && eq_ℤ a.session.session_id id then end_by_server env id a else a

-- The start of sendHeartbeat, where the session is active and x11vnc is not running. The error that
-- x11vnc left is a format of `fmt.Errorf` there, and is taken to hold no `%`.
unfoldable pub check_daemon : Env → Agent → Agent
unfolding persist report_ended
check_daemon env a =
    let why =
      (if is_empty (trim_space a.vnc.status.last_error)
        then codes "remote support daemon stopped"
        else a.vnc.status.last_error) in
    let b = record a { session = fail a.session why (env.now a.net.step) } in
    if is_active a.session.state && not a.vnc.status.running
    then persist (report_ended env a.session.session_id (codes "daemon stopped") b)
    else a

-- The start of `main`, on the session that was restored
unfoldable pub expire_restored : Env → Agent → Agent
unfolding persist end_session has_timed_out
expire_restored env a =
    if has_timed_out a.session a.approval_timeout_sec (env.now a.net.step)
    then persist (end_session env (codes "approval timeout after restart") a)
    else a
