-- ===== src/Tasks.antt =====
-- cmd/service/main.go: the install commands. The server, the clock, the file system and the
-- installer are a parameter, `Env`, by the number of outside events before; `World` counts these and
-- records what was reported, installed and removed.
pub mod Command
pub mod Install
pub mod Queue
pub mod Reports
pub mod Verified
pub mod Outcome
pub mod Cleanup
pub mod Names
pub mod Bounds
use appcenter_agent_linux.Base.{
  ℕ, zero, suc, ◌+◌, ◌++◌, ℤ, pos, Bool, true, false, ◌&&◌, ◌||◌, not, List, [], ◌∷◌, if◌then◌else◌,
  Option, none, some,
}
use appcenter_agent_linux.Text.{Text, codes, trim_space, is_empty}
use appcenter_agent_linux.Api.{Error, message, error_text, Result, ok, err}

-- internal/api/client.go: `TaskStatusRequest`
pub record TaskStatusRequest : Type 0 where
  pub status : Text
  pub progress : ℕ
  pub message : Text
  pub exit_code : Option ℤ
  pub installed_version : Text
  pub download_duration_sec : ℕ
  pub install_duration_sec : ℕ
  pub error : Text

-- What `installer.Install` returns; `timed_out` says that its context's deadline was exceeded.
pub record Installed : Type 0 where
  pub stdout : Text
  pub exit_code : ℤ
  pub error : Option Error
  pub timed_out : Bool

pub record World : Type 0 where
  pub step : ℕ
  pub reports : List (ℤ × TaskStatusRequest)
  pub installs : List Text
  pub removed : List Text

pub record Env : Type 0 where
  -- time.Now(), in nanoseconds
  pub now : ℕ → ℕ
  -- ctx.Done() during a wait
  pub is_done : ℕ → Bool
  pub report : ℕ → ℤ → TaskStatusRequest → Result (Unit {0})
  -- the path and the size of a downloaded file, by its URL and default name
  pub download : ℕ → Text → Text → Result (Text × ℕ)
  -- the SHA-256 of the file at a path, in hexadecimal
  pub sha256 : ℕ → Text → Result Text
  pub install : ℕ → Text → Text → Installed

abbrev pub event : World → World
event w = record w { step = w.step + 1 }

-- One attempt of ReportTaskStatus
abbrev pub send_report : ℤ → TaskStatusRequest → World → World
send_report id req w = record w { step = w.step + 1; reports = w.reports ++ (id, req) ∷ [] }

-- reportTaskStatus with `more` attempts after this one; `is_done` ends the wait between two.
unfoldable pub report_attempts : Env → ℤ → TaskStatusRequest → ℕ → World → Bool × World
report_attempts env id req zero w =
    let w' = send_report id req w in
    elim (env.report w.step id req) [ ok u ↦ (true, w') | err e ↦ (false, w') ]
report_attempts env id req (suc more) w =
    let w' = send_report id req w in
    let rest = report_attempts env id req more w' in
    elim (env.report w.step id req) [
      | ok u ↦ (true, w')
      | err e ↦ if env.is_done w'.step then (false, w') else rest
    ]

-- reportTaskStatus: whether the report arrived
unfoldable pub report_task_status : Env → ℤ → TaskStatusRequest → World → Bool × World
unfolding report_attempts
report_task_status env id req w = report_attempts env id req 2 w

abbrev pub context_canceled : Error
context_canceled = message (codes "context canceled")

-- downloadWithRetry with `more` attempts after this one
unfoldable pub download_attempts : Env → Text → Text → ℕ → World → Result (Text × ℕ) × World
download_attempts env url name zero w = (env.download w.step url name, event w)
download_attempts env url name (suc more) w =
    let rest = download_attempts env url name more (event w) in
    elim (env.download w.step url name) [
      | ok r ↦ (ok r, event w)
      | err e ↦ if env.is_done (w.step + 1) then (err context_canceled, event w) else rest
    ]

-- downloadWithRetry
unfoldable pub download_with_retry : Env → Text → Text → World → Result (Text × ℕ) × World
unfolding download_attempts
download_with_retry env url name w = download_attempts env url name 2 w

-- cleanupDownloadedPackage; a failure to remove the file is only logged.
unfoldable pub cleanup_downloaded_package : Text → World → World
cleanup_downloaded_package path w =
    if is_empty (trim_space path) then w else record (event w) { removed = w.removed ++ path ∷ [] }
