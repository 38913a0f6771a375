-- ===== src/Tasks/Queue.antt =====
-- cmd/service/main.go: `processCommands`, the install queue, a round of an install worker, and
-- `persistTaskDeduper`. The channel is the list of the jobs that wait in it; a worker's round is one
-- step.
use appcenter_agent_linux.Base.{
  ℕ, ◌++◌, ℤ, Bool, true, List, [], ◌∷◌, if◌then◌else◌, ltb, length, is_positive,
}
use appcenter_agent_linux.Text.{Text, codes, trim_space, is_empty, to_lower, same}
use appcenter_agent_linux.Dedup.{TaskDeduper, ProcessedTask, try_start, finish, snapshot}
use appcenter_agent_linux.Tasks.{TaskStatusRequest, World, Env, report_task_status}
use appcenter_agent_linux.Tasks.Command.{Command, validate_install_command}
use appcenter_agent_linux.Tasks.Install.{run_install_command, failure, downloading}

pub record Installer : Type 0 where
  pub guard : TaskDeduper
  pub queue : List Command
  pub world : World
  -- the processed tasks of the state, each time it was saved
  pub saved : List (List ProcessedTask)

-- cfg.Install.QueueCapacity and cfg.Download.MaxSizeBytes
pub record Limits : Type 0 where
  pub queue_capacity : ℕ
  pub max_size_bytes : ℤ

-- persistTaskDeduper; a failure to save is only logged.
unfoldable pub persist_task_deduper : Env → Installer → Installer
unfolding snapshot
persist_task_deduper env s =
    let r = snapshot s.guard (env.now s.world.step) in
    record s { guard = r.0; saved = s.saved ++ r.1 ∷ [] }

-- A terminal report, `Finish` and the saving of the state
unfoldable pub give_up : Env → Command → TaskStatusRequest → Installer → Installer
unfolding report_task_status finish persist_task_deduper
give_up env cmd req s =
    let out = report_task_status env cmd.task_id req s.world in
    let guard = finish s.guard cmd.task_id out.0 (env.now out.1.step) in
    persist_task_deduper env (record s { guard = guard; world = out.1 })

abbrev pub is_install : Command → Bool
is_install cmd = same (to_lower (trim_space cmd.action)) (codes "install")

-- What becomes of a command with an unsupported action
unfoldable pub refuse_action : Env → Command → Installer → Installer
unfolding report_task_status
refuse_action env cmd s =
    let action = codes "unsupported action: " ++ trim_space cmd.action in
    let req = failure (codes "Unsupported command action") action 0 in
    record s { world = (report_task_status env cmd.task_id req s.world).1 }

-- What becomes of an install command that is not valid; one without a task id is not reported.
unfoldable pub refuse_invalid : Env → Command → Text → Installer → Installer
unfolding give_up finish persist_task_deduper
refuse_invalid env cmd problem s =
    if is_positive cmd.task_id
    then give_up env cmd (failure (codes "Invalid install command") problem 0) s
    else persist_task_deduper env
        (record s { guard = finish s.guard cmd.task_id true (env.now s.world.step) })

-- The send to the queue, or the refusal when it is full
unfoldable pub enqueue : Env → Limits → Command → Installer → Installer
unfolding give_up
enqueue env limits cmd s =
    if ltb (length s.queue) limits.queue_capacity
    then record s { queue = s.queue ++ cmd ∷ [] }
    else give_up env cmd
        (failure (codes "Install queue is full") (codes "install queue capacity reached") 0) s

-- A command that the guard has let through
unfoldable pub admit : Env → Limits → Command → Installer → Installer
unfolding validate_install_command refuse_invalid enqueue
admit env limits cmd s =
    let problem = validate_install_command cmd in
    if is_empty problem then enqueue env limits cmd s else refuse_invalid env cmd problem s

-- One round of processCommands
unfoldable pub process_command : Env → Limits → Command → Installer → Installer
unfolding try_start admit refuse_action
process_command env limits cmd s =
    let r = try_start s.guard cmd.task_id (env.now s.world.step) in
    let s' = record s { guard = r.0 } in
    if is_install cmd
    then (if r.1 then admit env limits cmd s' else s')
    else refuse_action env cmd s

-- processCommands
unfoldable pub process_commands : Env → Limits → List Command → Installer → Installer
unfolding process_command
process_commands env limits [] s = s
process_commands env limits (cmd ∷ cmds) s =
    process_commands env limits cmds (process_command env limits cmd s)

-- A worker's work on a job that it has received
unfoldable pub run_job : Env → Limits → Command → Installer → Installer
unfolding report_task_status run_install_command finish persist_task_deduper
run_job env limits cmd s =
    let queued = downloading 5 (codes "Queued for install") 0 in
    let w = (report_task_status env cmd.task_id queued s.world).1 in
    let out = run_install_command env limits.max_size_bytes cmd w in
    let guard = finish s.guard cmd.task_id out.0 (env.now out.1.step) in
    persist_task_deduper env (record s { guard = guard; world = out.1 })

-- What a worker does with the jobs that wait: it takes the first, if there is one.
unfoldable pub work_on : Env → Limits → List Command → Installer → Installer
unfolding run_job
work_on env limits [] s = s
work_on env limits (cmd ∷ rest) s = run_job env limits cmd (record s { queue = rest })

-- An install worker's round
unfoldable pub work : Env → Limits → Installer → Installer
unfolding work_on
work env limits s = work_on env limits s.queue s
