-- ===== src/Tasks/Outcome.antt =====
-- cmd/service/main.go: what `runInstallCommand` comes to.
use appcenter_agent_linux.Base.{
  ℕ, zero, suc, ◌+◌, ◌≡◌, refl, sym, ap, ◌∙◌, ◌++◌, ℤ, pos, Bool, false, not, ◌&&◌, List, [], ◌∷◌,
  ◌⊎◌, inl, inr, if_both, Option, none, some, replicate, append_assoc, is_positive, pos_part, eq_ℤ,
  ltb, arith,
}
use appcenter_agent_linux.Text.{Text, codes, trim_space, is_empty}
use appcenter_agent_linux.Api.{Error, error_text, Result, ok, err}
use appcenter_agent_linux.Tasks.{
  TaskStatusRequest, World, Env, report_task_status, download_with_retry,
  cleanup_downloaded_package,
}
use appcenter_agent_linux.Tasks.Command.{
  Command, build_download_filename, verify_sha256, validate_install_command, normal_hash,
}
use appcenter_agent_linux.Tasks.Install.{
  seconds_between, downloading, failure, package_error, install_report, install_package,
  install_checked, install_or_refuse, after_download, run_install_command,
}
use appcenter_agent_linux.Tasks.Reports.{
  IsTaken, Reported, report_task_status-Reported, download_with_retry_lem,
}
use appcenter_agent_linux.Tasks.Verified.{verified_hash}

-- That a package of `n` bytes has a size that the limit and the command allow.
unfoldable pub IsRightSize : ℤ → Command → ℕ → Type 0
IsRightSize max cmd n =
    ((is_positive max && ltb (pos_part max) n) ≡ false)
    × ((is_positive cmd.file_size_bytes && not (eq_ℤ (pos n) cmd.file_size_bytes)) ≡ false)

package_error-none :
    (max : ℤ) (cmd : Command) (n : ℕ) (got : Result Text)
    → package_error max cmd n got ≡ none
    → IsRightSize max cmd n × (verify_sha256 got cmd.file_hash ≡ none)
unfolding package_error IsRightSize
package_error-none max cmd n got h = ground arith

-- That a package passed the checks for a command: the server gave it for the command's URL, its
-- size is allowed, and its SHA-256 was read and is the command's.
pub record Verified (env : Env) (max : ℤ) (cmd : Command) (path : Text) : Type 0 where
  pub valid : validate_install_command cmd ≡ []
  pub size : ℕ
  pub when_downloaded : ℕ
  pub when_hashed : ℕ
  pub downloaded :
      env.download when_downloaded cmd.download_url (build_download_filename cmd) ≡ ok (path, size)
  pub right_size : IsRightSize max cmd size
  pub right_hash : env.sha256 when_hashed path ≡ ok (normal_hash cmd.file_hash)

-- That the last report of a task is `req`, and that success means that the server took it.
pub record Ended (env : Env) (id : ℤ) (req : TaskStatusRequest) (out : Bool × World) : Type 0 where
  pub before : List (ℤ × TaskStatusRequest)
  pub last : out.1.reports ≡ before ++ (id, req) ∷ []
  pub taken : (out.0 ≡ false) ⊎ IsTaken env id req

-- The two ends of an install command: nothing is installed and the failure is reported, or one
-- package that passed the checks is handed to the installer, whose result is reported, and is then
-- removed.
pub data Outcome (env : Env) (max : ℤ) (cmd : Command) (w : World) (out : Bool × World)
    : Type 0 where
  refused :
      (msg e : Text) (sec : ℕ)
      → Ended env cmd.task_id (failure msg e sec) out
      → out.1.installs ≡ w.installs
      → Outcome env max cmd w out
  installed :
      (path : Text) (k download_sec install_sec : ℕ)
      → Verified env max cmd path
      → Ended env cmd.task_id
          (install_report cmd (env.install k path cmd.install_args) download_sec install_sec)
          out
      → out.1.installs ≡ w.installs ++ path ∷ []
      → Outcome env max cmd w out

replicate-snoc {ℓ} : {A : Type ℓ} (n : ℕ) (a : A) → replicate (suc n) a ≡ replicate n a ++ a ∷ []
replicate-snoc zero a = refl
replicate-snoc (suc n) a = ap (λ t. a ∷ t) (replicate-snoc n a)

module _ {env : Env} {id : ℤ} {req : TaskStatusRequest} {most : ℕ} {w : World}
    {out : Bool × World} where
  Reported-Ended : Reported env id req most w out → Ended env id req out
  Reported-Ended r = record {
    before = w.reports ++ replicate r.more (id, req);
    last =
        r.sent
        ∙ ap (λ t. w.reports ++ t) (replicate-snoc r.more (id, req))
        ∙ sym (append_assoc w.reports (replicate r.more (id, req)) ((id, req) ∷ []));
    taken = r.taken;
  }

module _ (env : Env) (max : ℤ) (cmd : Command) where
  install_checked-Outcome :
      (path : Text) (sec : ℕ) (w : World)
      → Verified env max cmd path
      → Outcome env max cmd w (install_checked env cmd path sec w)
  unfolding install_checked install_package
  install_checked-Outcome path sec w v =
      let done = downloading 80 (codes "Download completed") sec in
      let begun = downloading 90 (codes "Install started") sec in
      let r1 = report_task_status-Reported env cmd.task_id done w in
      let w1 = (report_task_status env cmd.task_id done w).1 in
      let r2 = report_task_status-Reported env cmd.task_id begun w1 in
      let w2 = (report_task_status env cmd.task_id begun w1).1 in
      let isec = seconds_between (env.now w2.step) (env.now (w2.step + 1)) in
      let r3 =
        report_task_status-Reported env cmd.task_id
          (install_report cmd (env.install w2.step path cmd.install_args) sec isec)
          (record w2 { step = w2.step + 1; installs = w2.installs ++ path ∷ [] }) in
      installed path w2.step sec isec v (Reported-Ended r3)
        (r3.same_installs ∙ ap (λ t. t ++ path ∷ []) (r2.same_installs ∙ r1.same_installs))

  report_failure :
      (msg e : Text) (sec : ℕ) (w : World)
      → Outcome env max cmd w (report_task_status env cmd.task_id (failure msg e sec) w)
  report_failure msg e sec w =
      let r = report_task_status-Reported env cmd.task_id (failure msg e sec) w in
      refused msg e sec (Reported-Ended r) r.same_installs

  install_or_refuse-Outcome :
      (path : Text) (sec : ℕ) (problem : Option (Text × Text)) (w : World)
      → (problem ≡ none → Verified env max cmd path)
      → Outcome env max cmd w (install_or_refuse env cmd path sec problem w)
  unfolding install_or_refuse
  install_or_refuse-Outcome path sec (some (msg, e)) w v = report_failure msg e sec w
  install_or_refuse-Outcome path sec none w v = install_checked-Outcome path sec w (v refl)

  package_error-Verified :
      (path : Text) (n k j : ℕ)
      → validate_install_command cmd ≡ []
      → env.download k cmd.download_url (build_download_filename cmd) ≡ ok (path, n)
      → package_error max cmd n (env.sha256 j path) ≡ none
      → Verified env max cmd path
  package_error-Verified path n k j v d e =
      let p = package_error-none max cmd n (env.sha256 j path) e in
      record {
        valid = v;
        size = n;
        when_downloaded = k;
        when_hashed = j;
        downloaded = d;
        right_size = p.0;
        right_hash = verified_hash cmd (env.sha256 j path) v p.1;
      }

  cleanup-Outcome :
      (path : Text) (w : World) (out : Bool × World)
      → Outcome env max cmd w out
      → Outcome env max cmd w (out.0, cleanup_downloaded_package path out.1)
  unfolding cleanup_downloaded_package
  cleanup-Outcome path w out (refused msg e sec d h) =
      if_both (λ x. Outcome env max cmd w (out.0, x)) (is_empty (trim_space path))
        (refused msg e sec (record { before = d.before; last = d.last; taken = d.taken }) h)
        (refused msg e sec (record { before = d.before; last = d.last; taken = d.taken }) h)
  cleanup-Outcome path w out (installed p k ds is v d h) =
      if_both (λ x. Outcome env max cmd w (out.0, x)) (is_empty (trim_space path))
        (installed p k ds is v (record { before = d.before; last = d.last; taken = d.taken }) h)
        (installed p k ds is v (record { before = d.before; last = d.last; taken = d.taken }) h)

  after_download-Outcome :
      (sec : ℕ) (r : Result (Text × ℕ)) (w : World)
      → validate_install_command cmd ≡ []
      → ((e : Error) × (r ≡ err e))
        ⊎ ((k : ℕ) × (env.download k cmd.download_url (build_download_filename cmd) ≡ r))
      → Outcome env max cmd w (after_download env max cmd sec r w)
  unfolding after_download
  after_download-Outcome sec (err e) w v d =
      report_failure (codes "Download failed") (error_text e) sec w
  after_download-Outcome sec (ok (path, n)) w v (inl (e, h)) = ground arith
  after_download-Outcome sec (ok (path, n)) w v (inr (k, h)) =
      let problem = package_error max cmd n (env.sha256 w.step path) in
      cleanup-Outcome path w (install_or_refuse env cmd path sec problem w) (
        install_or_refuse-Outcome path sec problem w
          (λ e. package_error-Verified path n k w.step v h e))

  Outcome-from :
      (w w' : World) (out : Bool × World)
      → w'.installs ≡ w.installs
      → Outcome env max cmd w' out
      → Outcome env max cmd w out
  Outcome-from w w' out e (refused msg x sec d h) = refused msg x sec d (h ∙ e)
  Outcome-from w w' out e (installed p k ds is v d h) =
      installed p k ds is v d (h ∙ ap (λ t. t ++ p ∷ []) e)

  -- An install command that was accepted ends in one of two ways. Either a failure is the task's
  -- last report and nothing was installed. Or exactly one package was handed to the installer, the
  -- server gave it for the command's URL, its size was allowed and its SHA-256 was the command's,
  -- and the task's last report is the one on the installer's result. The code returns true only
  -- when the server took that last report.
  pub run_install_command-Outcome :
      (w : World)
      → validate_install_command cmd ≡ []
      → Outcome env max cmd w (run_install_command env max cmd w)
  unfolding run_install_command
  run_install_command-Outcome w v =
      let begun = downloading 10 (codes "Download started") 0 in
      let r1 = report_task_status-Reported env cmd.task_id begun w in
      let w1 = (report_task_status env cmd.task_id begun w).1 in
      let url = cmd.download_url in
      let name = build_download_filename cmd in
      let got = download_with_retry env url name w1 in
      let d = download_with_retry_lem env url name w1 in
      let sec = seconds_between (env.now w.step) (env.now got.1.step) in
      Outcome-from w got.1 (after_download env max cmd sec got.0 got.1)
        (d.same_installs ∙ r1.same_installs) (after_download-Outcome sec got.0 got.1 v d.source)
