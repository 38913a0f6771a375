-- ===== src/Installer.antt =====
-- internal/installer/installer.go. The operating system is a parameter: what a command prints and
-- how it ends, by the number of commands before it. The result is what `runInstallCommand` reports.
pub mod Outcome
use appcenter_agent_linux.Base.{
  ℕ, ◌+◌, ◌++◌, ℤ, pos, negsuc, Bool, true, false, not, List, [], ◌∷◌, if◌then◌else◌, Option, none,
  some, eq_ℤ, map,
}
use appcenter_agent_linux.Text.{
  Text, codes, trim_space, is_empty, to_lower, has_suffix, same, is_space,
}
use appcenter_agent_linux.Text.Split.{fields}
use appcenter_agent_linux.Api.{Error, message, error_text}
use appcenter_agent_linux.Tasks.Command.{path_ext}

-- How a command ends; Go's error is nil exactly for exit code 0.
pub data Exit : Type 0 where
  exited : Text → ℤ → Exit
  not_run : Text → Error → Exit

pub record Result : Type 0 where
  pub output : Text
  pub code : ℤ
  pub error : Option Error

pub record Env : Type 0 where
  pub exec : ℕ → Text → List Text → Exit
  pub mkdir_error : Option Error
  -- whether os.Stat finds the script of the archive
  pub has_script : Bool
  -- the texts of `%v` and of the exit code in an error
  pub failure_text : Text → List Text → ℤ → Text

-- The commands that were started, with their arguments, and the result
abbrev pub Runs : Type 0
Runs = List (Text × List Text) × Result

-- run's result
unfoldable pub exit_result : Env → Text → List Text → Exit → Result
exit_result env exe args (exited out code) = record {
  output = out;
  code = code;
  error = if eq_ℤ code (pos 0) then none else some (message (env.failure_text exe args code));
}
exit_result env exe args (not_run out e) = record {
  output = out;
  code = negsuc 0;
  error = some (message (codes "run command: " ++ error_text e));
}

-- run, after `n` other commands
unfoldable pub run : Env → ℕ → Text → List Text → Runs
unfolding exit_result
run env n exe args = ((exe, args) ∷ [], exit_result env exe args (env.exec n exe args))

-- The arguments of a script
unfoldable pub script_args : Text → Text → List Text
unfolding fields
script_args script install_args =
    script ∷ (if is_empty (trim_space install_args) then [] else fields install_args)

-- The end of the `.tar.gz` case: the archive's script, if there is one
unfoldable pub run_script : Env → Text → Text → Runs
unfolding run script_args
run_script env target_dir install_args =
    if env.has_script
    then run env 1 (codes "/bin/bash")
        (script_args (target_dir ++ codes "/install.sh") install_args)
    else ([], record { output = []; code = pos 0; error = none })

-- What follows the run of tar
unfoldable pub after_tar : Env → Text → Text → Runs → Runs
unfolding run_script
after_tar env target_dir install_args (runs, r) = elim r.error [
  | some e ↦ (runs, r)
  | none ↦ let s = run_script env target_dir install_args in (runs ++ s.0, s.1)
]

-- strings.TrimSuffix(path, ".tar.gz")
unfoldable pub without_tar_gz : Text → Text
unfolding same
without_tar_gz [] = []
without_tar_gz (c ∷ s) =
    let rest = without_tar_gz s in if same (c ∷ s) (codes ".tar.gz") then [] else c ∷ rest

-- The `.tar.gz` case, with the error of making the directory
unfoldable pub install_archive : Env → Option Error → Text → Text → Runs
unfolding run after_tar without_tar_gz
install_archive env (some e) path install_args = (
  [],
  record {
    output = [];
    code = negsuc 0;
    error = some (message (codes "mkdir extract dir: " ++ error_text e));
  },
)
install_archive env none path install_args =
    let dir = without_tar_gz path ++ codes "_extract" in
    after_tar env dir install_args
      (run env 0 (codes "tar") (codes "-xzf" ∷ path ∷ codes "-C" ∷ dir ∷ []))

-- Install: the commands that were started, and the result
unfoldable pub install : Env → Text → Text → Runs
unfolding run install_archive script_args path_ext
install env path install_args =
    if has_suffix (to_lower path) (codes ".tar.gz")
    then install_archive env env.mkdir_error path install_args
    else if same (to_lower (path_ext path [])) (codes ".deb")
    then run env 0 (codes "dpkg") (codes "-i" ∷ path ∷ [])
    else run env 0 (codes "/bin/bash") (script_args path install_args)
