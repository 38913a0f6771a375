-- ===== src/Installer/Outcome.antt =====
-- internal/installer/installer.go: the exit code and the error.
use appcenter_agent_linux.Base.{
  ◌≡◌, refl, pos, eq_ℤ, not, List, [], ◌∷◌, ◌++◌, if_both, option_split, ℕ, suc, is_some, length,
  length-append, ◌≤◌, Option, none, some, arith,
}
use appcenter_agent_linux.Text.{Text, codes, same, to_lower, has_suffix}
use appcenter_agent_linux.Api.{Error}
use appcenter_agent_linux.Tasks.Command.{path_ext}
use appcenter_agent_linux.Installer.{
  Exit, exited, not_run, Env, Runs, exit_result, run, run_script, after_tar, script_args,
  install_archive, without_tar_gz, install,
}

-- That a result has an error exactly when its exit code is not 0, and comes from at most two
-- commands.
pub record IsHonest (r : Runs) : Type 0 where
  pub error_is_code : is_some r.1.error ≡ not (eq_ℤ r.1.code (pos 0))
  pub runs_at_most_two : length r.0 ≤ 2

-- The same of a part of an installation that starts at most `most` commands.
abbrev Honest : ℕ → Runs → Type 0
Honest most r = (is_some r.1.error ≡ not (eq_ℤ r.1.code (pos 0))) × (length r.0 ≤ most)

exit_result-error :
    (env : Env) (exe : Text) (args : List Text) (x : Exit)
    → is_some (exit_result env exe args x).error
      ≡ not (eq_ℤ (exit_result env exe args x).code (pos 0))
unfolding exit_result
exit_result-error env exe args (exited out code) = ground arith
exit_result-error env exe args (not_run out e) = refl

module _ (env : Env) (install_args : Text) where
  run-Honest : (n : ℕ) (exe : Text) (args : List Text) → Honest 1 (run env n exe args)
  unfolding run
  run-Honest n exe args = (exit_result-error env exe args (env.exec n exe args), omega arith)

  run_script-Honest : (dir : Text) → Honest 1 (run_script env dir install_args)
  unfolding run_script
  run_script-Honest dir =
      if_both (Honest 1) env.has_script
        (run-Honest 1 (codes "/bin/bash") (script_args (dir ++ codes "/install.sh") install_args))
        (refl, omega arith)

  more_runs : (most : ℕ) (r : Runs) → Honest most r → Honest (suc most) r
  more_runs most r h = (h.0, omega (arith, h.1))

  after_tar-Honest :
      (dir : Text) (r : Runs) → Honest 1 r → Honest 2 (after_tar env dir install_args r)
  unfolding after_tar
  after_tar-Honest dir (runs, r) h =
      let s = run_script env dir install_args in
      let k = run_script-Honest dir in
      option_split (Honest 2) r.error (λ e. (k.0, omega (arith, h.1, k.1, length-append runs s.0)))
        (λ x e. more_runs 1 (runs, r) h)

  install_archive-Honest :
      (o : Option Error) (path : Text) → Honest 2 (install_archive env o path install_args)
  unfolding install_archive
  install_archive-Honest (some e) path = (refl, omega arith)
  install_archive-Honest none path =
      let dir = without_tar_gz path ++ codes "_extract" in
      let args = codes "-xzf" ∷ path ∷ codes "-C" ∷ dir ∷ [] in
      after_tar-Honest dir (run env 0 (codes "tar") args) (run-Honest 0 (codes "tar") args)

  install-Honest : (path : Text) → Honest 2 (install env path install_args)
  unfolding install
  install-Honest path =
      if_both (Honest 2) (has_suffix (to_lower path) (codes ".tar.gz"))
        (install_archive-Honest env.mkdir_error path)
        (if_both (Honest 2) (same (to_lower (path_ext path [])) (codes ".deb"))
          (more_runs 1 (run env 0 (codes "dpkg") (codes "-i" ∷ path ∷ []))
            (run-Honest 0 (codes "dpkg") (codes "-i" ∷ path ∷ [])))
          (more_runs 1 (run env 0 (codes "/bin/bash") (script_args path install_args))
            (run-Honest 0 (codes "/bin/bash") (script_args path install_args))))

-- An installation reports an error exactly when its exit code is not 0, whatever the package's type
-- and however its commands end, and it starts at most two commands.
pub install-IsHonest :
    (env : Env) (path install_args : Text) → IsHonest (install env path install_args)
install-IsHonest env path install_args =
    let h = install-Honest env install_args path in
    record { error_is_code = h.0; runs_at_most_two = h.1 }
