-- ===== src/Tasks/Install.antt =====
-- cmd/service/main.go: `runInstallCommand`. `time.Since` reads the clock `Env.now`, in seconds.
use appcenter_agent_linux.Base.{
  ℕ, ◌+◌, ◌-◌, ◌/◌, ◌++◌, ℤ, pos, Bool, ◌&&◌, not, [], ◌∷◌, if◌then◌else◌, Option, none, some, ltb,
  eq_ℤ, is_positive, pos_part,
}
use appcenter_agent_linux.Text.{Text, codes, trim_space, is_empty, itoa, itoa_ℤ}
use appcenter_agent_linux.Api.{error_text, Result, ok, err}
use appcenter_agent_linux.Dedup.{second}
use appcenter_agent_linux.Tasks.{
  TaskStatusRequest, Installed, World, Env, report_task_status, download_with_retry,
  cleanup_downloaded_package,
}
use appcenter_agent_linux.Tasks.Command.{
  Command, build_download_filename, verify_sha256, trim_output,
}

abbrev pub seconds_between : ℕ → ℕ → ℕ
seconds_between start end = (end - start) / second

-- A report of the given status, progress and message; the other fields are empty.
abbrev pub plain_report : Text → ℕ → Text → TaskStatusRequest
plain_report status progress msg = record {
  status = status;
  progress = progress;
  message = msg;
  exit_code = none;
  installed_version = [];
  download_duration_sec = 0;
  install_duration_sec = 0;
  error = [];
}

abbrev pub downloading : ℕ → Text → ℕ → TaskStatusRequest
downloading progress msg sec = record (plain_report (codes "downloading") progress msg) {
  download_duration_sec = sec;
}

abbrev pub failure : Text → Text → ℕ → TaskStatusRequest
failure msg e sec = record (plain_report (codes "failed") 100 msg) {
  error = e;
  download_duration_sec = sec;
}

-- The checks of a downloaded package of `n` bytes: the message and the error of the first that
-- fails. A limit that is not positive is no limit.
unfoldable pub package_error : ℤ → Command → ℕ → Result Text → Option (Text × Text)
unfolding verify_sha256
package_error max cmd n got =
    if is_positive max && ltb (pos_part max) n
    then some (
      codes "Download exceeds size limit",
      codes "download size limit exceeded: got=" ++ itoa n ++ codes " max=" ++ itoa_ℤ max,
    )
    else if is_positive cmd.file_size_bytes && not (eq_ℤ (pos n) cmd.file_size_bytes)
    then some (
      codes "Download size mismatch",
      codes "download size mismatch: got="
          ++ itoa n
          ++ codes " expected="
          ++ itoa_ℤ cmd.file_size_bytes,
    )
    else elim (verify_sha256 got cmd.file_hash) [
      | none ↦ none
      | some e ↦ some (codes "Hash verification failed", error_text e)
    ]

-- The error text of a failed installer, with what it printed.
unfoldable pub install_message : Text → Text → Text
unfolding trim_output
install_message msg stdout =
    if is_empty (trim_space stdout) then msg else msg ++ codes " | " ++ trim_output stdout 1200

-- The report on the installer's result
unfoldable pub install_report : Command → Installed → ℕ → ℕ → TaskStatusRequest
unfolding install_message
install_report cmd r download_sec install_sec = elim r.error [
  | none ↦ record (plain_report (codes "success") 100 (codes "Install completed")) {
    exit_code = some (pos 0);
    installed_version = cmd.app_version;
    download_duration_sec = download_sec;
    install_duration_sec = install_sec;
  }
  | some e ↦
      if r.timed_out
      then record (plain_report (codes "timeout") 100 (codes "Install timed out")) {
        error = install_message (codes "Install timed out") r.stdout;
        download_duration_sec = download_sec;
        install_duration_sec = install_sec;
      }
      else record (plain_report (codes "failed") 100 (codes "Install failed")) {
        exit_code = some r.exit_code;
        error = install_message (error_text e) r.stdout;
        download_duration_sec = download_sec;
        install_duration_sec = install_sec;
      }
]

-- The installer's run on a package and the report on it
unfoldable pub install_package : Env → Command → Text → ℕ → World → Bool × World
unfolding install_report report_task_status
install_package env cmd path download_sec w =
    let r = env.install w.step path cmd.install_args in
    let w' = record w { step = w.step + 1; installs = w.installs ++ path ∷ [] } in
    let install_sec = seconds_between (env.now w.step) (env.now w'.step) in
    report_task_status env cmd.task_id (install_report cmd r download_sec install_sec) w'

-- The two reports on a good package, and its installation
unfoldable pub install_checked : Env → Command → Text → ℕ → World → Bool × World
unfolding install_package report_task_status
install_checked env cmd path sec w =
    let done = downloading 80 (codes "Download completed") sec in
    let begun = downloading 90 (codes "Install started") sec in
    let w1 = (report_task_status env cmd.task_id done w).1 in
    let w2 = (report_task_status env cmd.task_id begun w1).1 in install_package env cmd path sec w2

unfoldable pub install_or_refuse :
    Env → Command → Text → ℕ → Option (Text × Text) → World → Bool × World
unfolding install_checked report_task_status
install_or_refuse env cmd path sec (some (msg, e)) w =
    report_task_status env cmd.task_id (failure msg e sec) w
install_or_refuse env cmd path sec none w = install_checked env cmd path sec w

-- What follows the download: the checks, the installation and, whatever came of these, the removal
-- of the package.
unfoldable pub after_download : Env → ℤ → Command → ℕ → Result (Text × ℕ) → World → Bool × World
unfolding package_error install_or_refuse report_task_status cleanup_downloaded_package
after_download env max cmd sec (err e) w =
    report_task_status env cmd.task_id (failure (codes "Download failed") (error_text e) sec) w
after_download env max cmd sec (ok (path, n)) w =
    let problem = package_error max cmd n (env.sha256 w.step path) in
    let out = install_or_refuse env cmd path sec problem w in
    (out.0, cleanup_downloaded_package path out.1)

-- runInstallCommand with the size limit `max`: whether the last report arrived
unfoldable pub run_install_command : Env → ℤ → Command → World → Bool × World
unfolding after_download download_with_retry build_download_filename report_task_status
run_install_command env max cmd w =
    let begun = downloading 10 (codes "Download started") 0 in
    let w1 = (report_task_status env cmd.task_id begun w).1 in
    let got = download_with_retry env cmd.download_url (build_download_filename cmd) w1 in
    let sec = seconds_between (env.now w.step) (env.now got.1.step) in
    after_download env max cmd sec got.0 got.1
