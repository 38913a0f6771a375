-- ===== src/Session.antt =====
-- internal/remotesupport/session_linux.go: the remote support session. A method that mutates the
-- `*SessionManager` returns the new status; `now` is `time.Now().Unix()`.
pub mod Graph
pub mod Begin
pub mod Run
use appcenter_agent_linux.Base.{
  ℕ, ℤ, pos, is_positive, eq_ℤ, Bool, true, false, [], ◌∷◌, if◌then◌else◌, Option, none, some,
}
use appcenter_agent_linux.Text.{Text, codes}

-- The values of `State`; `other` is any further text that a state file may hold.
pub data State : Type 0 where
  idle pending approved active rejected ended error : State
  other : Text → State

unfoldable pub state_text : State → Text
state_text idle = codes "idle"
state_text pending = codes "pending_approval"
state_text approved = codes "approved"
state_text active = codes "active"
state_text rejected = codes "rejected"
state_text ended = codes "ended"
state_text error = codes "error"
state_text (other s) = s

pub record SessionStatus : Type 0 where
  pub state : State
  pub session_id : ℤ
  pub admin_name : Text
  pub reason : Text
  pub requested_at_unix : ℤ
  pub decision_at_unix : ℤ
  pub message : Text
  pub last_error : Text
  pub guacd_host : Text
  pub guacd_reverse_port : ℤ
  pub local_vnc_port : ℤ
  pub server_vnc_password_set : Bool

-- SessionStatus{State: StateIdle, Message: DefaultMessage}
unfoldable pub new_session : SessionStatus
new_session = record {
  state = idle;
  session_id = pos 0;
  admin_name = [];
  reason = [];
  requested_at_unix = pos 0;
  decision_at_unix = pos 0;
  message = [];
  last_error = [];
  guacd_host = [];
  guacd_reverse_port = pos 0;
  local_vnc_port = pos 0;
  server_vnc_password_set = false;
}

-- The empty text becomes idle.
unfoldable pub restore_state : State → State
restore_state (other []) = idle
restore_state s = s

unfoldable pub restore : SessionStatus → SessionStatus
unfolding restore_state
restore s = record s { state = restore_state s.state }

abbrev pub is_pending : State → Bool
is_pending pending = true
is_pending _ = false

abbrev pub is_active : State → Bool
is_active active = true
is_active _ = false

-- State is pending, approved or active.
abbrev pub is_open : State → Bool
is_open pending = true
is_open approved = true
is_open active = true
is_open _ = false

unfoldable pub in_progress : SessionStatus → Bool
in_progress s = is_open s.state

unfoldable pub clear : SessionStatus → SessionStatus
unfolding new_session
clear s = new_session

pub data SessionError : Type 0 where
  session_id_not_positive : SessionError
  another_in_progress : SessionError
  not_pending : SessionError

-- err.Error()
unfoldable pub session_error_text : SessionError → Text
session_error_text session_id_not_positive = codes "session_id must be positive"
session_error_text another_in_progress =
    codes "another remote support session is already in progress"
session_error_text not_pending = codes "session is not pending approval"

unfoldable pub begin : SessionStatus → ℤ → Text → Text → ℕ → SessionStatus × Option SessionError
begin s id admin reason now =
    if is_positive id
    then (if is_open s.state
        then (s, (if eq_ℤ s.session_id id then none else some another_in_progress))
        else (
          record {
            state = pending;
            session_id = id;
            admin_name = admin;
            reason = reason;
            requested_at_unix = pos now;
            decision_at_unix = pos 0;
            message = codes "waiting for approval";
            last_error = [];
            guacd_host = [];
            guacd_reverse_port = pos 0;
            local_vnc_port = pos 0;
            server_vnc_password_set = false;
          },
          none,
        ))
    else (s, some session_id_not_positive)

-- The four fields that a decision resets.
unfoldable pub reset_connection : SessionStatus → SessionStatus
reset_connection s = record s {
  guacd_host = [];
  guacd_reverse_port = pos 0;
  local_vnc_port = pos 0;
  server_vnc_password_set = false;
}

unfoldable pub approve : SessionStatus → ℕ → SessionStatus × Option SessionError
unfolding reset_connection
approve s now =
    if is_pending s.state
    then (
      record (reset_connection s) {
        state = approved;
        decision_at_unix = pos now;
        message = codes "approved";
        last_error = [];
      },
      none,
    )
    else (s, some not_pending)

unfoldable pub set_connection_info : SessionStatus → Text → ℤ → ℤ → Bool → SessionStatus
set_connection_info s host reverse_port vnc_port password_set = record s {
  guacd_host = host;
  guacd_reverse_port = reverse_port;
  local_vnc_port = vnc_port;
  server_vnc_password_set = password_set;
}

unfoldable pub activate : SessionStatus → SessionStatus
activate s = record s { state = active; message = codes "active"; last_error = [] }

unfoldable pub reject : SessionStatus → Text → ℕ → SessionStatus × Option SessionError
unfolding reset_connection
reject s reason now =
    if is_pending s.state
    then (
      record (reset_connection s) {
        state = rejected;
        decision_at_unix = pos now;
        message = codes "rejected";
        last_error = reason;
      },
      none,
    )
    else (s, some not_pending)

unfoldable pub end : SessionStatus → Text → ℕ → SessionStatus
unfolding reset_connection
end s message now = record (reset_connection s) {
  state = ended;
  decision_at_unix = pos now;
  message = message;
  last_error = [];
}

-- `Error(err)` with the text of an error that is not nil, as every caller gives.
unfoldable pub fail : SessionStatus → Text → ℕ → SessionStatus
unfolding reset_connection
fail s err now = record (reset_connection s) {
  state = error;
  decision_at_unix = pos now;
  message = codes "remote support failed";
  last_error = err;
}

-- The calls that change the session.
pub data Call : Type 0 where
  begins : ℤ → Text → Text → Call
  approves : Call
  connects : Text → ℤ → ℤ → Bool → Call
  activates : Call
  rejects : Text → Call
  ends : Text → Call
  fails : Text → Call
  clears : Call

-- One call at time `now`, as a change of the status.
unfoldable pub step : SessionStatus → Call → ℕ → SessionStatus
unfolding begin approve set_connection_info activate reject end fail clear
step s (begins id admin reason) now = (begin s id admin reason now).0
step s approves now = (approve s now).0
step s (connects host reverse_port vnc_port password_set) now =
    set_connection_info s host reverse_port vnc_port password_set
step s activates now = activate s
step s (rejects reason) now = (reject s reason now).0
step s (ends message) now = end s message now
step s (fails err) now = fail s err now
step s clears now = clear s
