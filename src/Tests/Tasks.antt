-- ===== src/Tests/Tasks.antt =====
-- The install commands of cmd/service/main.go at concrete inputs.
use appcenter_agent_linux.Base.{
  ◌≡◌, refl, pos, false, [], ◌∷◌, replicate, arith, ◌*◌, ◌+◌, ◌==◌, if◌then◌else◌, none,
}
use appcenter_agent_linux.Text.{Text, codes, same, to_lower, trim_space, trim_prefix}
use appcenter_agent_linux.Api.{ok, err, message}
use appcenter_agent_linux.Dedup.{new_task_deduper, second}
use appcenter_agent_linux.Tasks.{World, Env, report_task_status, download_with_retry}
use appcenter_agent_linux.Tasks.Command.{
  Command, validate_install_command, verify_sha256, build_download_filename,
}
use appcenter_agent_linux.Tasks.Install.{run_install_command, plain_report}
use appcenter_agent_linux.Tasks.Reports.{Reported, report_task_status-Reported}
use appcenter_agent_linux.Tasks.Names.{IsPlain, build_download_filename-IsPlain}
use appcenter_agent_linux.Tasks.Outcome.{Outcome, run_install_command-Outcome}
use appcenter_agent_linux.Tasks.Cleanup.{cleaned, begin_download, run_install_command-removed}
use appcenter_agent_linux.Tasks.Queue.{Installer, Limits}
use appcenter_agent_linux.Tasks.Bounds.{IsSafe, run, run-IsSafe, receive, take_job}

abbrev good_hash : Text
good_hash = replicate 64 b'a'

abbrev pub command : Command
command = record {
  task_id = pos 7;
  action = codes " Install";
  app_id = pos 3;
  app_name = codes "tool";
  app_version = codes "1.2";
  download_url = codes "/d/tool.deb";
  file_hash = codes "SHA256:AAAAAAAAAAAAAAAAAAAAAAAAAAAAAAAAAAAAAAAAAAAAAAAAAAAAAAAAAAAAAAAA ";
  file_size_bytes = pos 5;
  install_args = [];
  force_update = false;
  priority = pos 1;
}

-- A server whose second report fails, and whose packages have five bytes and the right hash.
abbrev pub env : Env
env = record {
  now = λ k. 1000 * second + k;
  is_done = λ k. false;
  report = λ k id req. if k == 1 then err (message (codes "timeout")) else ok tt;
  download = λ k url name. ok (codes "/tmp/task_7.deb", 5);
  sha256 = λ k path. ok good_hash;
  install =
      λ k path args. record { stdout = []; exit_code = pos 0; error = none; timed_out = false };
}

abbrev world : World
world = record { step = 0; reports = []; installs = []; removed = [] }

abbrev pub limits : Limits
limits = record { queue_capacity = 1; max_size_bytes = pos 100 }

abbrev installer : Installer
installer = record {
  guard = new_task_deduper (1800 * second);
  queue = [];
  world = world;
  saved = [];
}

command-valid : validate_install_command command ≡ []
unfolding validate_install_command trim_space trim_prefix to_lower
command-valid = refl

report_task_status-Reported_example :
    Reported env
      (pos 7)
      (plain_report (codes "success") 100 [])
      3
      world
      (report_task_status env (pos 7) (plain_report (codes "success") 100 []) world)
report_task_status-Reported_example =
    report_task_status-Reported env (pos 7) (plain_report (codes "success") 100 []) world

command_verified : verify_sha256 (ok good_hash) command.file_hash ≡ none
unfolding verify_sha256 trim_prefix trim_space to_lower same
command_verified = refl

run_install_command-Outcome_example :
    Outcome env (pos 100) command world (run_install_command env (pos 100) command world)
run_install_command-Outcome_example =
    run_install_command-Outcome env (pos 100) command world command-valid

run_install_command-removed_example :
    (run_install_command env (pos 100) command world).1.removed
    ≡ cleaned
        (download_with_retry env command.download_url
          (build_download_filename command)
          (begin_download env command world)).0
        []
run_install_command-removed_example = run_install_command-removed env command (pos 100) world

run-IsSafe_example :
    IsSafe env limits (run env limits (receive (command ∷ command ∷ []) ∷ take_job ∷ []) installer)
run-IsSafe_example =
    run-IsSafe env limits (receive (command ∷ command ∷ []) ∷ take_job ∷ []) installer
      (record { in_capacity = omega arith; accepted = tt; verified = tt })

-- The package is installed once, although the command came twice.
installed_once :
    (run env limits (receive (command ∷ command ∷ []) ∷ take_job ∷ []) installer).world.installs
    ≡ codes "/tmp/task_7.deb" ∷ []
unfolding run same to_lower trim_space new_task_deduper trim_prefix
installed_once = refl

build_download_filename-IsPlain_example : IsPlain (build_download_filename command)
build_download_filename-IsPlain_example = build_download_filename-IsPlain command
