-- ===== src/Vnc.antt =====
-- internal/remotesupport/manager_linux.go: the manager of the x11vnc process. The operating system
-- is a parameter: whether the process starts, answers a signal, and when it exits.
pub mod Laws
use appcenter_agent_linux.Base.{
  ℕ, zero, suc, ◌+◌, ◌++◌, ℤ, pos, is_positive, Bool, true, false, ◌&&◌, ◌||◌, not, List, [], ◌∷◌,
  if◌then◌else◌, Option, none, some, ltb, leb, ◌==◌,
}
use appcenter_agent_linux.Text.{Text, codes, trim_space, itoa_ℤ, is_empty}
use appcenter_agent_linux.Api.{Error, message, error_text, Result, ok, err}

pub record Status : Type 0 where
  pub installed : Bool
  pub x11vnc_path : Text
  pub running : Bool
  pub pid : ℕ
  pub display : Text
  pub port : ℤ
  pub started_at_unix : ℕ
  pub last_error : Text

-- The `*exec.Cmd` of a process: its id, which tells two of them apart, and its arguments.
pub record Cmd : Type 0 where
  pub pid : ℕ
  pub args : List Text

pub record Manager : Type 0 where
  pub status : Status
  pub cmd : Option Cmd
  pub preferred_display : Text

-- EnvInfo: what `exec.LookPath("x11vnc")` and the variable DISPLAY give.
pub record EnvInfo : Type 0 where
  pub x11vnc_path : Text
  pub installed : Bool
  pub display : Text

-- ProbeEnv
unfoldable pub probe_env : Text → Option Text → EnvInfo
probe_env display none = record {
  x11vnc_path = [];
  installed = false;
  display = trim_space display;
}
probe_env display (some path) = record {
  x11vnc_path = path;
  installed = true;
  display = trim_space display;
}

unfoldable pub new_manager : EnvInfo → Text → ℤ → Manager
new_manager env display port = record {
  status = record {
    installed = env.installed;
    x11vnc_path = env.x11vnc_path;
    running = false;
    pid = 0;
    display = display;
    port = port;
    started_at_unix = 0;
    last_error = [];
  };
  cmd = none;
  preferred_display = display;
}

-- What a start meets: the display that ResolveDisplay finds, the authority file, the time, and the
-- process id or the error of `cmd.Start()` with these arguments.
pub record Launch : Type 0 where
  pub display : Text
  pub authority : Text
  pub now : ℕ
  pub spawned : List Text → Result ℕ

-- The password options of x11vnc.
unfoldable pub password_args : Text → List Text
password_args password =
    if is_empty (trim_space password) then codes "-nopw" ∷ [] else codes "-passwd" ∷ password ∷ []

unfoldable pub auth_args : Text → List Text
auth_args authority = if is_empty authority then [] else codes "-auth" ∷ authority ∷ []

-- cmd.Args: the path of x11vnc and the arguments that `Start` gives to it.
unfoldable pub start_args : Text → Text → ℤ → Text → Text → List Text
unfolding password_args auth_args
start_args path display port password authority =
    (path
      ∷ codes "-display"
      ∷ display
      ∷ codes "-rfbport"
      ∷ itoa_ℤ port
      ∷ codes "-forever"
      ∷ codes "-shared"
      ∷ codes "-noxrecord"
      ∷ codes "-noxfixes"
      ∷ codes "-noxdamage"
      ∷ codes "-noshm"
      ∷ [])
    ++ (password_args password ++ auth_args authority)

abbrev pub started : Manager → Launch → Cmd → Manager
started m l cmd = record m {
  status = record (m.status) {
    running = true;
    pid = cmd.pid;
    display = l.display;
    started_at_unix = l.now;
    last_error = [];
  };
  cmd = some cmd;
}

abbrev pub not_started : Manager → Launch → Error → Manager
not_started m l e = record m {
  status = record (m.status) { display = l.display; last_error = error_text e };
}

-- `cmd.Start()` with these arguments, and what follows it.
unfoldable pub launched : Result ℕ → List Text → Manager → Launch → Manager × Option Error
launched (ok pid) args m l = (started m l (record { pid = pid; args = args }), none)
launched (err e) args m l = (not_started m l e, some e)

-- Start: the manager after it, and its error.
unfoldable pub start : Manager → Text → Launch → Manager × Option Error
unfolding launched start_args
start m password l =
    let args = start_args m.status.x11vnc_path l.display m.status.port password l.authority in
    if m.status.running
    then (m, none)
    else if not m.status.installed || is_empty m.status.x11vnc_path
    then (m, some (message (codes "x11vnc is not installed")))
    else launched (l.spawned args) args m l

-- The error that a process exited with
abbrev pub exit_text : Option Error → Text
exit_text exit = elim exit [ none ↦ [] | some e ↦ error_text e ]

abbrev pub stopped : Manager → Option Error → Manager
stopped m exit = record m {
  status = record (m.status) {
    running = false;
    pid = 0;
    started_at_unix = 0;
    last_error = exit_text exit;
  };
  cmd = none;
}

abbrev pub cmd_pid : Option Cmd → Option ℕ
cmd_pid none = none
cmd_pid (some c) = some c.pid

abbrev pub is_cmd : Option ℕ → ℕ → Bool
is_cmd none pid = false
is_cmd (some p) pid = p == pid

-- The end of `wait(cmd)`, when the process `pid` has exited with this error or none.
unfoldable pub wait : Manager → ℕ → Option Error → Manager
wait m pid exit = if is_cmd (cmd_pid m.cmd) pid then stopped m exit else m

-- What a stop meets: whether SIGTERM and each of the two kills can be sent, how many polls fit
-- into the four seconds, at which poll the process has exited if it does, whether it has exited
-- by the last snapshot where no poll saw that, and the error that it exits with.
pub record Halt : Type 0 where
  pub signal : Option Error
  pub kill : Option Error
  pub polls : ℕ
  pub exits_at : ℕ
  pub late_kill : Option Error
  pub exits_late : Bool
  pub exit : Option Error

-- The polling loop: `left` polls remain, and the process exits before poll `exits_at`.
unfoldable pub poll : Manager → ℕ → ℕ → ℕ → Option Error → Manager × Bool
unfolding wait
poll m pid zero exits_at exit = (m, false)
poll m pid (suc left) zero exit = (wait m pid exit, true)
poll m pid (suc left) (suc k) exit = poll m pid left k exit

abbrev pub stop_error : Error → Error → Error
stop_error signal kill =
    message (
      codes "stop x11vnc failed: signal=" ++ error_text signal ++ codes " kill=" ++ error_text kill)

-- What the last snapshot shows where no poll saw the process exit.
unfoldable pub last_look : Manager → ℕ → Halt → Manager
unfolding wait
last_look m pid h = if h.exits_late then wait m pid h.exit else m

abbrev pub poll_or_kill : Manager → ℕ → Halt → Manager × Bool → Manager × Option Error
poll_or_kill m pid h (m', true) = (m', none)
poll_or_kill m pid h (m', false) = (last_look m' pid h, h.late_kill)

-- SIGTERM, or a kill where it cannot be sent.
abbrev pub term_error : Halt → Option Error
term_error h = elim h.signal [
  | none ↦ none
  | some e ↦ elim h.kill [ none ↦ none | some k ↦ some (stop_error e k) ]
]

unfoldable pub stop_running : Manager → ℕ → Halt → Manager × Option Error
unfolding poll last_look
stop_running m pid h = elim (term_error h) [
  | some e ↦ (last_look m pid h, some e)
  | none ↦ poll_or_kill m pid h (poll m pid h.polls h.exits_at h.exit)
]

-- Stop, by the process that is held.
unfoldable pub stop_held : Option ℕ → Manager → Halt → Manager × Option Error
unfolding stop_running
stop_held none m h = (m, none)
stop_held (some pid) m h = if m.status.running then stop_running m pid h else (m, none)

-- Stop
unfoldable pub stop : Manager → Halt → Manager × Option Error
unfolding stop_held
stop m h = stop_held (cmd_pid m.cmd) m h
