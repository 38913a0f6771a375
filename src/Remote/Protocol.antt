-- ===== src/Remote/Protocol.antt =====
-- The protocol of a remote support session as the agent runs it: an abstract machine on the session's
-- state alone, whose moves are those that the user, the server and x11vnc cause.
use appcenter_agent_linux.Base.{
  Bool, ℕ, ℤ, pos, is_positive, true, false, Option, none, some, ◌≡◌, refl, sym, subst, ◌⊎◌, inl,
  inr, arith, if_both, if_split, if◌then◌else◌,
}
use appcenter_agent_linux.Text.{Text, codes, trim_space, is_empty}
use appcenter_agent_linux.Api.{Error, Result, ok, err, RemoteApproveResponse}
use appcenter_agent_linux.Session.{
  State, idle, pending, approved, active, rejected, ended, error, other, SessionStatus,
  SessionError, begin, approve, reject, fail, is_pending, is_open, is_active, reset_connection,
  activate,
}
use appcenter_agent_linux.Remote.{
  Agent, Env, persist, start_vnc, approve_remote_session, reject_remote_session,
  send_remote_approve, send_remote_ready, fail_session, finish_approve, report_ready,
  launch_approved, send_approval, finish_reject, send_rejection, local_vnc_port, vnc_password,
}

-- What a move does with the session
pub data Kind : Type 0 where
  opens : Kind
  accepts : Kind
  refuses : Kind
  loses : Kind
  ends : Kind
  clears : Kind

-- The moves
pub data Move : Kind → State → State → Type 0 where
  request : {s : State} → is_open s ≡ false → Move opens s pending
  accept : Move accepts pending active
  break : Move accepts pending error
  refuse : Move refuses pending rejected
  lose : Move loses active error
  finish : {s : State} → Move ends s ended
  reset : {s : State} → Move clears s idle

-- A sequence of moves of the kinds that are allowed
pub data Moves (may : Kind → Bool) : State → State → Type 0 where
  done : {s : State} → Moves may s s
  move : {k : Kind} {s t u : State} → may k ≡ true → Move k s t → Moves may t u → Moves may s u

pub join : {may : Kind → Bool} {s t u : State} → Moves may s t → Moves may t u → Moves may s u
join done q = q
join (move e m p) q = move e m (join p q)

abbrev pub Follows : (Kind → Bool) → Agent → Agent → Type 0
Follows may a b = Moves may a.session.state b.session.state

pending-eq : (s : State) → is_pending s ≡ true → s ≡ pending
pending-eq idle h = ground arith
pending-eq pending h = refl
pending-eq approved h = ground arith
pending-eq active h = ground arith
pending-eq rejected h = ground arith
pending-eq ended h = ground arith
pending-eq error h = ground arith
pending-eq (other t) h = ground arith

pub active-eq : (s : State) → is_active s ≡ true → s ≡ active
active-eq idle h = ground arith
active-eq pending h = ground arith
active-eq approved h = ground arith
active-eq active h = refl
active-eq rejected h = ground arith
active-eq ended h = ground arith
active-eq error h = ground arith
active-eq (other t) h = ground arith

-- The move out of a pending session
from_pending :
    {may : Kind → Bool} {k : Kind} (s : State) {t : State}
    → may k ≡ true
    → is_pending s ≡ true
    → Move k pending t
    → Moves may s t
from_pending {may} s {t} e h m = subst (λ x. Moves may x t) (sym (pending-eq s h)) (move e m done)

pub begin-Moves :
    {may : Kind → Bool} (o : may opens ≡ true) (s : SessionStatus) (id : ℤ) (x y : Text) (now : ℕ)
    → Moves may s.state (begin s id x y now).0.state
unfolding begin
begin-Moves {may} o s id x y now =
    if_both (λ (r : SessionStatus × Option SessionError). Moves may s.state r.0.state)
      (is_positive id)
      (if_split (λ (r : SessionStatus × Option SessionError). Moves may s.state r.0.state)
        (is_open s.state) (λ e. done) (λ e. move o (request e) done))
      done

pub reject-Moves :
    {may : Kind → Bool} (o : may refuses ≡ true) (s : SessionStatus) (why : Text) (now : ℕ)
    → Moves may s.state (reject s why now).0.state
unfolding reject reset_connection
reject-Moves {may} o s why now =
    if_split (λ (r : SessionStatus × Option SessionError). Moves may s.state r.0.state)
      (is_pending s.state) (λ e. from_pending s.state o e refuse) (λ e. done)

-- An approval ends with the session active or in error.
abbrev Settled : Agent → Type 0
Settled a = (a.session.state ≡ active) ⊎ (a.session.state ≡ error)

settled-Moves :
    {may : Kind → Bool} (o : may accepts ≡ true) (s : State) (a : Agent)
    → is_pending s ≡ true
    → Settled a
    → Moves may s a.session.state
settled-Moves {may} o s a h (inl e) = subst (λ x. Moves may s x) (sym e) (from_pending s o h accept)
settled-Moves {may} o s a h (inr e) = subst (λ x. Moves may s x) (sym e) (from_pending s o h break)

module _ (env : Env) where
  fail_session-Settled : (a : Agent) (e : Error) → Settled (fail_session env a e)
  unfolding fail_session persist fail reset_connection
  fail_session-Settled a e = inr refl

  finish_approve-Settled :
      (resp : Option RemoteApproveResponse) (port : ℤ) (r : Result (Unit {0})) (a : Agent)
      → Settled (finish_approve env resp port r a).0
  unfolding finish_approve fail_session persist fail reset_connection activate
  finish_approve-Settled resp port (err e) a = inr refl
  finish_approve-Settled resp port (ok u) a = inl refl

  report_ready-Settled :
      (resp : Option RemoteApproveResponse) (e : Option Error) (a : Agent)
      → Settled (report_ready env resp e a).0
  unfolding report_ready
  report_ready-Settled resp (some e) a = fail_session-Settled a e
  report_ready-Settled resp none a =
      let (r, n) =
        send_remote_ready env a.secret_key a.session.session_id (local_vnc_port a) a.net in
      finish_approve-Settled resp (local_vnc_port a) r (record a { net = n })

  launch_approved-Settled :
      (r : Result (Option RemoteApproveResponse)) (a : Agent) → Settled (launch_approved env r a).0
  unfolding launch_approved
  launch_approved-Settled (err e) a = fail_session-Settled a e
  launch_approved-Settled (ok resp) a =
      let (b, e) = start_vnc env (vnc_password resp) a in report_ready-Settled resp e b

  send_approval-Moves :
      {may : Kind → Bool} (o : may accepts ≡ true) (count : ℤ)
      (x : SessionStatus × Option SessionError) (a : Agent)
      → (x.1 ≡ none → is_pending a.session.state ≡ true)
      → Follows may a (send_approval env count x a).0
  unfolding send_approval
  send_approval-Moves {may} o count (s, some e) a h = done
  send_approval-Moves {may} o count (s, none) a h =
      let (r, n) =
        send_remote_approve env a.secret_key s.session_id true
          (if is_positive count then count else pos 1) a.net in
      let b : Agent = record a { session = s; net = n } in
      settled-Moves o a.session.state (launch_approved env r b).0 (h refl)
        (launch_approved-Settled r b)

  approved_pending :
      (s : SessionStatus) (now : ℕ) → (approve s now).1 ≡ none → is_pending s.state ≡ true
  unfolding approve
  approved_pending s now h = ground arith

  pub approve-Moves :
      {may : Kind → Bool} (o : may accepts ≡ true) (count : ℤ) (a : Agent)
      → Follows may a (approve_remote_session env count a).0
  unfolding approve_remote_session
  approve-Moves {may} o count a =
      if_both (λ (r : Agent × Option Error). Follows may a r.0) a.enabled
        (send_approval-Moves o count (approve a.session (env.now a.net.step)) a
          (approved_pending a.session (env.now a.net.step)))
        done

  finish_reject-session :
      (r : Result (Option RemoteApproveResponse)) (a : Agent)
      → (finish_reject r a).0.session ≡ a.session
  unfolding finish_reject persist
  finish_reject-session (ok u) a = refl
  finish_reject-session (err e) a = refl

  send_rejection-Moves :
      {may : Kind → Bool} (x : SessionStatus × Option SessionError) (a : Agent)
      → Moves may a.session.state x.0.state
      → Follows may a (send_rejection env x a).0
  unfolding send_rejection
  send_rejection-Moves {may} (s, some e) a p = done
  send_rejection-Moves {may} (s, none) a p =
      let (r, n) = send_remote_approve env a.secret_key s.session_id false (pos 0) a.net in
      subst (λ (t : SessionStatus). Moves may a.session.state t.state)
        (sym (finish_reject-session r (record a { session = s; net = n }))) p

  pub rejection-Moves :
      {may : Kind → Bool} (o : may refuses ≡ true) (reason : Text) (a : Agent)
      → Follows may a (reject_remote_session env reason a).0
  unfolding reject_remote_session
  rejection-Moves o reason a =
      let why = if is_empty (trim_space reason) then codes "rejected by user" else reason in
      send_rejection-Moves (reject a.session why (env.now a.net.step)) a
        (reject-Moves o a.session why (env.now a.net.step))
