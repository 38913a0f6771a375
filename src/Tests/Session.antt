-- ===== src/Tests/Session.antt =====
-- The session (internal/remotesupport/session_linux.go) and the texts at concrete inputs.
use appcenter_agent_linux.Base.{◌≡◌, refl, none, some, pos, false, []}
use appcenter_agent_linux.Text.{codes}
use appcenter_agent_linux.Session.{SessionStatus, pending, new_session, begin, another_in_progress}

-- A session that waits for approval since second 100.
abbrev waiting : SessionStatus
waiting = record {
  state = pending;
  session_id = pos 7;
  admin_name = codes "ada";
  reason = codes "help";
  requested_at_unix = pos 100;
  decision_at_unix = pos 0;
  message = codes "waiting for approval";
  last_error = [];
  guacd_host = [];
  guacd_reverse_port = pos 0;
  local_vnc_port = pos 0;
  server_vnc_password_set = false;
}

waiting_begun : begin new_session (pos 7) (codes "ada") (codes "help") 100 ≡ (waiting, none)
unfolding begin new_session
waiting_begun = refl

second_request : (begin waiting (pos 8) [] [] 101).1 ≡ some another_in_progress
unfolding begin
second_request = refl
