-- ===== src/Session/Run.antt =====
-- internal/remotesupport/session_linux.go: what a call keeps of an open session.
use appcenter_agent_linux.Base.{ℕ, ◌≡◌, Bool, true, false, arith}
use appcenter_agent_linux.Session.{SessionStatus, is_open, Call, begins, clears, step}

abbrev pub is_clear : Call → Bool
is_clear clears = true
is_clear _ = false

-- While a session is open, no call but `Clear` changes its id, its administrator, its reason or the
-- time of its request.
pub step_keeps_request :
    (s : SessionStatus) (c : Call) (now : ℕ)
    → is_open s.state ≡ true
    → is_clear c ≡ false
    → let t = step s c now in
      (t.session_id ≡ s.session_id)
      × (t.admin_name ≡ s.admin_name)
      × (t.reason ≡ s.reason)
      × (t.requested_at_unix ≡ s.requested_at_unix)
unfolding step
step_keeps_request s (begins id admin reason) now o k = ground arith
step_keeps_request s _ now o k = ground arith
