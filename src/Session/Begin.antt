-- ===== src/Session/Begin.antt =====
-- What `Begin` does on each of its branches, and what `Approve` and `Reject` do with its result.
use appcenter_agent_linux.Base.{
  ℕ, ◌≡◌, refl, ◌≢◌, Bool, true, false, [], arith, ℤ, pos, is_positive, eq_ℤ, eq_ℤ_iff, Option,
  none, some,
}
use appcenter_agent_linux.Text.{Text}
use appcenter_agent_linux.Session.{
  pending, SessionStatus, is_open, is_pending, begin, approve, reject, SessionError,
  session_id_not_positive, another_in_progress, not_pending,
}

-- What a request for session `id` at time `now` may do: it is refused for an id that is not
-- positive or while another session is open, repeats the open session with the same id, or
-- replaces a closed session by a pending one that keeps nothing of the old session.
pub data Begun (s : SessionStatus) (id : ℤ) (admin reason : Text) (now : ℕ)
    (r : SessionStatus × Option SessionError) : Type 0 where
  bad_id :
      is_positive id ≡ false → r ≡ (s, some session_id_not_positive) → Begun s id admin reason now r
  busy :
      is_positive id ≡ true
      → is_open s.state ≡ true
      → s.session_id ≢ id
      → r ≡ (s, some another_in_progress)
      → Begun s id admin reason now r
  again :
      is_positive id ≡ true
      → is_open s.state ≡ true
      → s.session_id ≡ id
      → r ≡ (s, none)
      → Begun s id admin reason now r
  fresh :
      is_positive id ≡ true
      → is_open s.state ≡ false
      → r.1 ≡ none
      → (r.0.state ≡ pending)
        × (r.0.session_id ≡ id)
        × (r.0.admin_name ≡ admin)
        × (r.0.reason ≡ reason)
      → (r.0.requested_at_unix ≡ pos now) × (r.0.decision_at_unix ≡ pos 0) × (r.0.last_error ≡ [])
      → (r.0.guacd_host ≡ [])
        × (r.0.guacd_reverse_port ≡ pos 0)
        × (r.0.local_vnc_port ≡ pos 0)
        × (r.0.server_vnc_password_set ≡ false)
      → Begun s id admin reason now r

begin_opened :
    (s : SessionStatus) (id : ℤ) (admin reason : Text) (now : ℕ)
    → is_positive id ≡ true
    → is_open s.state ≡ true
    → (b : Bool) → eq_ℤ s.session_id id ≡ b
    → Begun s id admin reason now (begin s id admin reason now)
unfolding begin
begin_opened s id admin reason now p o true e =
    again p o ((eq_ℤ_iff s.session_id id).0 e) (rw (p, o, e))
begin_opened s id admin reason now p o false e =
    busy p o (λ q. ground (arith, eq_ℤ_iff s.session_id id)) (rw (p, o, e))

-- In every state and for every request `Begin` takes one of four ways: it refuses an id that is not
-- positive, it refuses another session while one is open, it changes nothing for the session that
-- is open already, or, with no session open, it begins a pending one with the request's fields and
-- no connection.
pub begin-Begun :
    (s : SessionStatus) (id : ℤ) (admin reason : Text) (now : ℕ)
    → Begun s id admin reason now (begin s id admin reason now)
unfolding begin
begin-Begun s id admin reason now = go (is_positive id) refl (is_open s.state) refl
  where
    go :
        (p : Bool)
        → is_positive id ≡ p
        → (o : Bool) → is_open s.state ≡ o
        → Begun s id admin reason now (begin s id admin reason now)
    go false p o q = bad_id p (rw p)
    go true p true q = begin_opened s id admin reason now p q (eq_ℤ s.session_id id) refl
    go true p false q = fresh p q (rw (p, q)) (ground arith) (ground arith) (ground arith)

-- A pending session is decided once: `Approve` and `Reject` both succeed on it, and after either of
-- them both fail and change nothing.
pub decide_once :
    (s : SessionStatus) (reason : Text) (now later : ℕ)
    → is_pending s.state ≡ true
    → let t = (approve s now).0 in
      let u = (reject s reason now).0 in
      ((approve s now).1 ≡ none)
      × ((reject s reason now).1 ≡ none)
      × (approve t later ≡ (t, some not_pending))
      × (reject t reason later ≡ (t, some not_pending))
      × (approve u later ≡ (u, some not_pending))
      × (reject u reason later ≡ (u, some not_pending))
unfolding approve reject
decide_once s reason now later h = ground arith
