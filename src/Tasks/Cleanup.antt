-- ===== src/Tasks/Cleanup.antt =====
-- cmd/service/main.go: the deferred `cleanupDownloadedPackage` of `runInstallCommand`.
use appcenter_agent_linux.Base.{
  ℕ, ◌+◌, ◌≡◌, ap, ◌∙◌, ◌++◌, ℤ, List, [], ◌∷◌, if◌then◌else◌, Option, none, some, arith,
}
use appcenter_agent_linux.Text.{Text, codes, trim_space, is_empty}
use appcenter_agent_linux.Api.{error_text, Result, ok, err}
use appcenter_agent_linux.Tasks.{
  World, Env, report_task_status, download_with_retry, cleanup_downloaded_package,
}
use appcenter_agent_linux.Tasks.Command.{Command, build_download_filename}
use appcenter_agent_linux.Tasks.Install.{
  seconds_between, downloading, failure, package_error, install_report, install_package,
  install_checked, install_or_refuse, after_download, run_install_command,
}
use appcenter_agent_linux.Tasks.Reports.{report_task_status-Reported, download_with_retry_lem}

-- The removed files after a download: a package whose path is not blank has been removed.
unfoldable pub cleaned : Result (Text × ℕ) → List Text → List Text
cleaned (err e) removed = removed
cleaned (ok (path, n)) removed =
    if is_empty (trim_space path) then removed else removed ++ path ∷ []

-- The begun download of an install command, and the world in which it begins
abbrev pub begin_download : Env → Command → World → World
begin_download env cmd w =
    (report_task_status env cmd.task_id (downloading 10 (codes "Download started") 0) w).1

module _ (env : Env) (cmd : Command) where
  install_checked-removed :
      (path : Text) (sec : ℕ) (w : World)
      → (install_checked env cmd path sec w).1.removed ≡ w.removed
  unfolding install_checked install_package
  install_checked-removed path sec w =
      let done = downloading 80 (codes "Download completed") sec in
      let begun = downloading 90 (codes "Install started") sec in
      let w1 = (report_task_status env cmd.task_id done w).1 in
      let w2 = (report_task_status env cmd.task_id begun w1).1 in
      let isec = seconds_between (env.now w2.step) (env.now (w2.step + 1)) in
      (report_task_status-Reported env cmd.task_id
        (install_report cmd (env.install w2.step path cmd.install_args) sec isec)
        (record w2 { step = w2.step + 1; installs = w2.installs ++ path ∷ [] })).same_removed
      ∙ (report_task_status-Reported env cmd.task_id begun w1).same_removed
      ∙ (report_task_status-Reported env cmd.task_id done w).same_removed

  install_or_refuse-removed :
      (path : Text) (sec : ℕ) (problem : Option (Text × Text)) (w : World)
      → (install_or_refuse env cmd path sec problem w).1.removed ≡ w.removed
  unfolding install_or_refuse
  install_or_refuse-removed path sec (some (msg, e)) w =
      (report_task_status-Reported env cmd.task_id (failure msg e sec) w).same_removed
  install_or_refuse-removed path sec none w = install_checked-removed path sec w

  cleanup-removed :
      (path : Text) (n : ℕ) (w : World)
      → (cleanup_downloaded_package path w).removed ≡ cleaned (ok (path, n)) w.removed
  unfolding cleanup_downloaded_package cleaned
  cleanup-removed path n w = ground arith

  after_download-removed :
      (max : ℤ) (sec : ℕ) (r : Result (Text × ℕ)) (w : World)
      → (after_download env max cmd sec r w).1.removed ≡ cleaned r w.removed
  unfolding after_download cleaned
  after_download-removed max sec (err e) w =
      (report_task_status-Reported env cmd.task_id
        (failure (codes "Download failed") (error_text e) sec) w).same_removed
  after_download-removed max sec (ok (path, n)) w =
      let problem = package_error max cmd n (env.sha256 w.step path) in
      let out = install_or_refuse env cmd path sec problem w in
      cleanup-removed path n out.1
      ∙ ap (cleaned (ok (path, n))) (install_or_refuse-removed path sec problem w)

  -- Whatever comes of an install command, the package that it downloaded is removed, and nothing
  -- else is.
  pub run_install_command-removed :
      (max : ℤ) (w : World)
      → (run_install_command env max cmd w).1.removed
        ≡ cleaned
            (download_with_retry env cmd.download_url
              (build_download_filename cmd)
              (begin_download env cmd w)).0
            w.removed
  unfolding run_install_command
  run_install_command-removed max w =
      let w1 = begin_download env cmd w in
      let got = download_with_retry env cmd.download_url (build_download_filename cmd) w1 in
      let d = download_with_retry_lem env cmd.download_url (build_download_filename cmd) w1 in
      let r =
        report_task_status-Reported env cmd.task_id (downloading 10 (codes "Download started") 0)
          w in
      after_download-removed max (seconds_between (env.now w.step) (env.now got.1.step)) got.0 got.1
      ∙ ap (cleaned got.0) (d.same_removed ∙ r.same_removed)
