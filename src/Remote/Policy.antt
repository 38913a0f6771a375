-- ===== src/Remote/Policy.antt =====
-- What the server's messages, the policy and the daemon check guarantee.
use appcenter_agent_linux.Base.{
  ℤ, is_positive, eq_ℤ, eq_ℤ_iff, true, false, ◌&&◌, ◌||◌, not, some, ◌≡◌, refl, ◌⊎◌, inl, inr,
  arith, Bool-cases,
}
use appcenter_agent_linux.Text.{codes}
use appcenter_agent_linux.Session.{
  ended, rejected, reject, end, fail, is_open, is_active, reset_connection,
}
use appcenter_agent_linux.Remote.{Agent, Env, persist, stop_vnc}
use appcenter_agent_linux.Remote.Server.{
  enforce_remote_support_policy, terminate, time_out, has_timed_out, end_session, report_ended,
  handle_rs_end, end_by_server, check_daemon,
}

module _ (env : Env) (a : Agent) where
  terminate-closed : (terminate env a).session.state ≡ ended
  unfolding terminate stop_vnc end_session report_ended persist end reset_connection
  terminate-closed = refl

  terminate-saved : (terminate env a).saved ≡ (terminate env a).session
  unfolding terminate stop_vnc end_session report_ended persist end reset_connection
  terminate-saved = refl

-- The policy allows remote support exactly if the configuration and the server both enable it, and
-- where it does not, it leaves no session open; a session that it closes is saved as ended.
pub policy_closes :
    (env : Env) (a : Agent)
    → let r = enforce_remote_support_policy env a in
      (r.1 ≡ (a.enabled && a.server_enabled))
      × ((r.1 || not (is_open r.0.session.state)) ≡ true)
      × ((r.1 || not (is_open a.session.state)) ≡ true
          ⊎ ((r.0.session.state ≡ ended) × (r.0.saved ≡ r.0.session)))
unfolding enforce_remote_support_policy
policy_closes env a = ground (arith, terminate-closed env a, terminate-saved env a)

-- A pending session whose deadline has passed is rejected by the policy, with the reason, and
-- saved.
pub policy_times_out :
    (env : Env) (a : Agent)
    → (a.enabled && a.server_enabled) ≡ true
    → has_timed_out a.session a.approval_timeout_sec (env.now a.net.step) ≡ true
    → let b = (enforce_remote_support_policy env a).0 in
      (b.session.state ≡ rejected)
      × (b.session.last_error ≡ codes "approval timeout")
      × (b.session.session_id ≡ a.session.session_id)
      × (b.saved ≡ b.session)
unfolding enforce_remote_support_policy time_out has_timed_out reject reset_connection persist
policy_times_out env a on late = ground arith

-- A message about the end of a session ends the session that it names, which is saved, and changes
-- nothing at all if another session is held or its id is not positive.
pub end_ends_its_session :
    (env : Env) (id : ℤ) (a : Agent)
    → let b = handle_rs_end env (some id) a in
      (((is_positive id && eq_ℤ a.session.session_id id) ≡ true)
        × (b.session.state ≡ ended)
        × (b.session.session_id ≡ id)
        × (b.saved ≡ b.session))
      ⊎ (((is_positive id && eq_ℤ a.session.session_id id) ≡ false) × (b ≡ a))
unfolding handle_rs_end end_by_server stop_vnc end_session report_ended persist end reset_connection
end_ends_its_session env id a = elim (Bool-cases (is_positive id && eq_ℤ a.session.session_id id)) [
  | inl e ↦ inl (e, ground arith, ground (arith, eq_ℤ_iff a.session.session_id id), ground arith)
  | inr e ↦ inr (e, ground arith)
]

-- After the check of a heartbeat no session is active without x11vnc running.
pub check_daemon_lem :
    (env : Env) (a : Agent)
    → let b = check_daemon env a in (is_active b.session.state && not b.vnc.status.running) ≡ false
unfolding check_daemon report_ended persist fail reset_connection
check_daemon_lem env a = ground arith
