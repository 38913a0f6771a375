-- ===== src/Session/Graph.antt =====
-- The transition diagram of the session.
use appcenter_agent_linux.Base.{ℕ, ◌≡◌, false, arith}
use appcenter_agent_linux.Session.{
  State, idle, pending, approved, active, rejected, ended, error, SessionStatus, is_open, Call,
  begins, approves, connects, activates, rejects, ends, fails, clears, step,
}

infix 40 ◌⟶◌
-- The edges of the diagram, without those of `activate`, `end`, `fail` and `clear`, which the
-- session manager allows from every state.
pub data ◌⟶◌ : State → State → Type 0 where
  stay : {s : State} → s ⟶ s
  request : {s : State} → is_open s ≡ false → s ⟶ pending
  grant : pending ⟶ approved
  refuse : pending ⟶ rejected
  start : {s : State} → s ⟶ active
  finish : {s : State} → s ⟶ ended
  break : {s : State} → s ⟶ error
  reset : {s : State} → s ⟶ idle

-- Every call follows an edge: a session becomes pending only if none was open, and approved or
-- rejected only from pending.
pub step-⟶ : (s : SessionStatus) (c : Call) (now : ℕ) → s.state ⟶ (step s c now).state
unfolding step
step-⟶ s (begins id admin reason) now = grind (arith, stay, request)
step-⟶ s approves now = grind (arith, stay, grant)
step-⟶ s (connects h r v p) now = stay
step-⟶ s activates now = start
step-⟶ s (rejects reason) now = grind (arith, stay, refuse)
step-⟶ s (ends m) now = finish
step-⟶ s (fails e) now = break
step-⟶ s clears now = reset
