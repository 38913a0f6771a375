-- ===== src/Vnc/Laws.antt =====
-- internal/remotesupport/manager_linux.go: the manager's status and the process that it holds.
use appcenter_agent_linux.Base.{
  ℕ, zero, suc, ◌<◌, ℤ, true, false, not, ◌||◌, ◌==◌, List, if◌then◌else◌, Option, is_some, none,
  some, ◌≡◌, refl, ◌⊎◌, inl, inr, Bool-cases, if_both, arith,
}
use appcenter_agent_linux.Text.{Text}
use appcenter_agent_linux.Api.{Error, ok, err, Result}
use appcenter_agent_linux.Vnc.{
  Manager, exit_text, start_args, cmd_pid, Launch, Halt, EnvInfo, new_manager, start, launched,
  wait, poll, stop_held, last_look, stop_running, stop, term_error, poll_or_kill,
}

-- A process is held exactly while the status says running, under its id; otherwise the status has
-- no id and no start time.
pub record IsConsistent (m : Manager) : Type 0 where
  pub held : cmd_pid m.cmd ≡ (if m.status.running then some m.status.pid else none)
  pub idle_pid : (m.status.running || m.status.pid == 0) ≡ true
  pub idle_start : (m.status.running || m.status.started_at_unix == 0) ≡ true

pub new-IsConsistent :
    (env : EnvInfo) (display : Text) (port : ℤ) → IsConsistent (new_manager env display port)
unfolding new_manager
new-IsConsistent env display port = ground arith

-- The arguments of a start.
abbrev pub args_of : Manager → Text → Launch → List Text
args_of m password l = start_args m.status.x11vnc_path l.display m.status.port password l.authority

launched-IsConsistent :
    (r : Result ℕ) (args : List Text) (m : Manager) (l : Launch)
    → IsConsistent m
    → m.status.running ≡ false
    → IsConsistent (launched r args m l).0
unfolding launched
launched-IsConsistent (ok pid) args m l v off = ground arith
launched-IsConsistent (err e) args m l v off = ground arith

pub start-IsConsistent :
    (m : Manager) (password : Text) (l : Launch)
    → IsConsistent m
    → IsConsistent (start m password l).0
unfolding start
start-IsConsistent m password l v = ground (
  arith,
  v,
  launched-IsConsistent (l.spawned (args_of m password l)) (args_of m password l) m l v,
)

pub wait-IsConsistent :
    (m : Manager) (pid : ℕ) (exit : Option Error) → IsConsistent m → IsConsistent (wait m pid exit)
unfolding wait
wait-IsConsistent m pid exit v = ground arith

-- The polls see the process exit, or leave the manager as it was.
poll_cases :
    (m : Manager) (pid left at : ℕ) (exit : Option Error)
    → (poll m pid left at exit ≡ (wait m pid exit, true)) ⊎ (poll m pid left at exit ≡ (m, false))
unfolding poll
poll_cases m pid zero at exit = inr refl
poll_cases m pid (suc left) zero exit = inl refl
poll_cases m pid (suc left) (suc k) exit = poll_cases m pid left k exit

-- The polls see the exit exactly if it comes before they are used up.
poll_in_time :
    (m : Manager) (pid left at : ℕ) (exit : Option Error)
    → at < left
    → poll m pid left at exit ≡ (wait m pid exit, true)
unfolding poll
poll_in_time m pid zero at exit h = elim h [ ]
poll_in_time m pid (suc left) zero exit h = refl
poll_in_time m pid (suc left) (suc k) exit h = poll_in_time m pid left k exit (omega arith)

-- The manager is as it was, or has seen the exit of its process.
abbrev pub IsSettled : Manager → Manager → Option Error → Type 0
IsSettled m r exit = (r ≡ m) ⊎ ((pid : ℕ) × (cmd_pid m.cmd ≡ some pid) × (r ≡ wait m pid exit))

last_look-IsSettled :
    (m : Manager) (pid : ℕ) (h : Halt)
    → cmd_pid m.cmd ≡ some pid
    → IsSettled m (last_look m pid h) h.exit
unfolding last_look
last_look-IsSettled m pid h e = elim (Bool-cases h.exits_late) [
  | inl late ↦ inr (pid, e, rw late)
  | inr none_seen ↦ inl (rw none_seen)
]

stop_running-IsSettled :
    (m : Manager) (pid : ℕ) (h : Halt)
    → cmd_pid m.cmd ≡ some pid
    → IsSettled m (stop_running m pid h).0 h.exit
unfolding stop_running
stop_running-IsSettled m pid h e = go (term_error h) refl
  where
    polled :
        (poll m pid h.polls h.exits_at h.exit ≡ (wait m pid h.exit, true))
          ⊎ (poll m pid h.polls h.exits_at h.exit ≡ (m, false))
        → IsSettled m (poll_or_kill m pid h (poll m pid h.polls h.exits_at h.exit)).0 h.exit
    polled (inl seen) = inr (pid, e, rw seen)
    polled (inr missed) = rw missed (last_look-IsSettled m pid h e)

    go : (t : Option Error) → term_error h ≡ t → IsSettled m (stop_running m pid h).0 h.exit
    go (some x) q = rw (q, stop_running) (last_look-IsSettled m pid h e)
    go none q = rw (q, stop_running) (polled (poll_cases m pid h.polls h.exits_at h.exit))

stop_held-IsSettled :
    (c : Option ℕ) (m : Manager) (h : Halt)
    → cmd_pid m.cmd ≡ c
    → IsSettled m (stop_held c m h).0 h.exit
unfolding stop_held
stop_held-IsSettled none m h e = inl refl
stop_held-IsSettled (some pid) m h e =
    if_both {A = Manager × Option Error} (λ r. IsSettled m r.0 h.exit) m.status.running
      (stop_running-IsSettled m pid h e) (inl refl)

pub stop-IsSettled : (m : Manager) (h : Halt) → IsSettled m (stop m h).0 h.exit
unfolding stop
stop-IsSettled m h = stop_held-IsSettled (cmd_pid m.cmd) m h refl

pub stop-IsConsistent : (m : Manager) (h : Halt) → IsConsistent m → IsConsistent (stop m h).0
stop-IsConsistent m h v = elim (stop-IsSettled m h) [
  | inl e ↦ rw e v
  | inr (pid, c, e) ↦ rw e (wait-IsConsistent m pid h.exit v)
]

-- The events in the life of a manager.
pub data Event : Type 0 where
  starts : Text → Launch → Event
  exits : ℕ → Option Error → Event
  stops : Halt → Event

unfoldable pub after : Manager → Event → Manager
after m (starts password l) = (start m password l).0
after m (exits pid exit) = wait m pid exit
after m (stops h) = (stop m h).0

-- Every start, exit and stop keeps the status in agreement with the process held.
pub after-IsConsistent : (m : Manager) (e : Event) → IsConsistent m → IsConsistent (after m e)
unfolding after
after-IsConsistent m (starts password l) v = start-IsConsistent m password l v
after-IsConsistent m (exits pid exit) v = wait-IsConsistent m pid exit v
after-IsConsistent m (stops h) v = stop-IsConsistent m h v

launched_outcome :
    (r : Result ℕ) (args : List Text) (m : Manager) (l : Launch)
    → m.status.running ≡ false
    → ((launched r args m l).0.status.running ≡ not (is_some (launched r args m l).1))
unfolding launched
launched_outcome (ok pid) args m l off = refl
launched_outcome (err e) args m l off = off

start-running :
    (m : Manager) (password : Text) (l : Launch)
    → (start m password l).0.status.running ≡ not (is_some (start m password l).1)
unfolding start
start-running m password l =
    ground (arith, launched_outcome (l.spawned (args_of m password l)) (args_of m password l) m l)

-- x11vnc is running after a start exactly if the start returns no error, and then a process is
-- held.
pub start_outcome :
    (m : Manager) (password : Text) (l : Launch)
    → IsConsistent m
    → ((start m password l).0.status.running ≡ not (is_some (start m password l).1))
      × (is_some (start m password l).0.cmd ≡ not (is_some (start m password l).1))
start_outcome m password l v = (
  start-running m password l,
  ground (arith, start-running m password l, start-IsConsistent m password l v),
)

-- A consistent manager is stopped, without an error, if SIGTERM or else the kill can be sent and
-- the process exits while it is polled; where x11vnc was running, the error that it exited with, or
-- none, is recorded, and else the last error stays.
pub stop_in_time :
    (m : Manager) (h : Halt)
    → IsConsistent m
    → term_error h ≡ none
    → h.exits_at < h.polls
    → ((stop m h).1 ≡ none)
      × ((stop m h).0.status.running ≡ false)
      × ((stop m h).0.cmd ≡ none)
      × ((stop m h).0.status.last_error
          ≡ (if m.status.running then exit_text h.exit else m.status.last_error))
unfolding stop stop_running wait
stop_in_time m h v t early =
    ground (arith, poll_in_time m m.status.pid h.polls h.exits_at h.exit early)
