-- ===== src/Tasks/Bounds.antt =====
-- cmd/service/main.go: what holds of the install queue and of all installations, for any sequence
-- of received command lists and worker rounds.
use appcenter_agent_linux.Base.{
  ◌≤◌, ◌≡◌, refl, sym, subst, ◌++◌, Bool, true, List, [], ◌∷◌, if_both, if_split, All, length,
  length-append, ltb, is_positive, arith,
}
use appcenter_agent_linux.Text.{Text, codes, is_empty, trim_space}
use appcenter_agent_linux.Dedup.{try_start, finish}
use appcenter_agent_linux.Tasks.{TaskStatusRequest, World, Env, report_task_status}
use appcenter_agent_linux.Tasks.Command.{Command, validate_install_command}
use appcenter_agent_linux.Tasks.Install.{run_install_command, failure, downloading}
use appcenter_agent_linux.Tasks.Reports.{report_task_status-Reported}
use appcenter_agent_linux.Tasks.Outcome.{
  Verified, Outcome, refused, installed, run_install_command-Outcome,
}
use appcenter_agent_linux.Tasks.Queue.{
  Installer, Limits, persist_task_deduper, give_up, is_install, refuse_action, refuse_invalid,
  enqueue, admit, process_command, process_commands, run_job, work_on, work,
}

-- The loops of the agent that handle install commands.
pub data Event : Type 0 where
  receive : List Command → Event
  take_job : Event

unfoldable pub apply_event : Env → Limits → Installer → Event → Installer
unfolding process_commands work
apply_event env limits s (receive cmds) = process_commands env limits cmds s
apply_event env limits s take_job = work env limits s

unfoldable pub run : Env → Limits → List Event → Installer → Installer
unfolding apply_event
run env limits [] s = s
run env limits (e ∷ es) s = run env limits es (apply_event env limits s e)

-- That a waiting job is an install command that was accepted.
abbrev pub IsAccepted : Command → Type 0
IsAccepted cmd = (is_install cmd ≡ true) × (validate_install_command cmd ≡ [])

-- That a package passed the checks for some accepted command.
abbrev pub IsVerified : Env → Limits → Text → Type 0
IsVerified env limits path = (cmd : Command) × Verified env limits.max_size_bytes cmd path

-- The queue holds accepted commands only and no more than its capacity, and every package that was
-- handed to the installer had passed the checks.
pub record IsSafe (env : Env) (limits : Limits) (s : Installer) : Type 0 where
  pub in_capacity : length s.queue ≤ limits.queue_capacity
  pub accepted : All IsAccepted s.queue
  pub verified : All (IsVerified env limits) s.world.installs

All-snoc {ℓ κ} :
    {A : Type ℓ} (P : A → Type κ) (xs : List A) (a : A) → All P xs → P a → All P (xs ++ a ∷ [])
All-snoc P [] a h p = (p, tt)
All-snoc P (x ∷ xs) a h p = (h.0, All-snoc P xs a h.1 p)

empty-nil : (t : Text) → is_empty t ≡ true → t ≡ []
empty-nil [] h = refl
empty-nil (c ∷ t) h = ground arith

module _ (env : Env) (limits : Limits) where
  -- The guard and the saved states play no part.
  IsSafe-same :
      (s s' : Installer)
      → s'.queue ≡ s.queue
      → s'.world.installs ≡ s.world.installs
      → IsSafe env limits s
      → IsSafe env limits s'
  IsSafe-same s s' q i h = record {
    in_capacity = subst (λ x. length x ≤ limits.queue_capacity) (sym q) h.in_capacity;
    accepted = subst (All IsAccepted) (sym q) h.accepted;
    verified = subst (All (IsVerified env limits)) (sym i) h.verified;
  }

  persist-IsSafe :
      (s : Installer) → IsSafe env limits s → IsSafe env limits (persist_task_deduper env s)
  unfolding persist_task_deduper
  persist-IsSafe s h = IsSafe-same s (persist_task_deduper env s) refl refl h

  give_up-IsSafe :
      (cmd : Command) (req : TaskStatusRequest) (s : Installer)
      → IsSafe env limits s
      → IsSafe env limits (give_up env cmd req s)
  unfolding give_up persist_task_deduper
  give_up-IsSafe cmd req s h =
      IsSafe-same s (give_up env cmd req s) refl
        (report_task_status-Reported env cmd.task_id req s.world).same_installs h

  refuse_action-IsSafe :
      (cmd : Command) (s : Installer)
      → IsSafe env limits s
      → IsSafe env limits (refuse_action env cmd s)
  unfolding refuse_action
  refuse_action-IsSafe cmd s h =
      let req =
        failure (codes "Unsupported command action")
          (codes "unsupported action: " ++ trim_space cmd.action) 0 in
      IsSafe-same s (refuse_action env cmd s) refl
        (report_task_status-Reported env cmd.task_id req s.world).same_installs h

  refuse_invalid-IsSafe :
      (cmd : Command) (problem : Text) (s : Installer)
      → IsSafe env limits s
      → IsSafe env limits (refuse_invalid env cmd problem s)
  unfolding refuse_invalid persist_task_deduper
  refuse_invalid-IsSafe cmd problem s h =
      if_both (IsSafe env limits) (is_positive cmd.task_id)
        (give_up-IsSafe cmd (failure (codes "Invalid install command") problem 0) s h)
        (IsSafe-same s
          (persist_task_deduper env
            (record s { guard = finish s.guard cmd.task_id true (env.now s.world.step) }))
          refl refl h)

  enqueue-IsSafe :
      (cmd : Command) (s : Installer)
      → IsAccepted cmd
      → IsSafe env limits s
      → IsSafe env limits (enqueue env limits cmd s)
  unfolding enqueue
  enqueue-IsSafe cmd s a h =
      if_split (IsSafe env limits) (ltb (length s.queue) limits.queue_capacity)
        (λ e. record {
          in_capacity = ground (arith, length-append s.queue (cmd ∷ []));
          accepted = All-snoc IsAccepted s.queue cmd h.accepted a;
          verified = h.verified;
        })
        (λ e.
          give_up-IsSafe cmd
            (failure (codes "Install queue is full") (codes "install queue capacity reached") 0) s
            h)

  admit-IsSafe :
      (cmd : Command) (s : Installer)
      → is_install cmd ≡ true
      → IsSafe env limits s
      → IsSafe env limits (admit env limits cmd s)
  unfolding admit
  admit-IsSafe cmd s i h =
      if_split (IsSafe env limits) (is_empty (validate_install_command cmd))
        (λ e. enqueue-IsSafe cmd s (i, empty-nil (validate_install_command cmd) e) h)
        (λ e. refuse_invalid-IsSafe cmd (validate_install_command cmd) s h)

  process_command-IsSafe :
      (cmd : Command) (s : Installer)
      → IsSafe env limits s
      → IsSafe env limits (process_command env limits cmd s)
  unfolding process_command
  process_command-IsSafe cmd s h =
      let r = try_start s.guard cmd.task_id (env.now s.world.step) in
      let s' = record s { guard = r.0 } in
      let h' = IsSafe-same s s' refl refl h in
      if_split (IsSafe env limits) (is_install cmd)
        (λ e. if_both (IsSafe env limits) r.1 (admit-IsSafe cmd s' e h') h')
        (λ e. refuse_action-IsSafe cmd s h)

  pub process_commands-IsSafe :
      (cmds : List Command) (s : Installer)
      → IsSafe env limits s
      → IsSafe env limits (process_commands env limits cmds s)
  unfolding process_commands
  process_commands-IsSafe [] s h = h
  process_commands-IsSafe (cmd ∷ cmds) s h =
      process_commands-IsSafe cmds (process_command env limits cmd s)
        (process_command-IsSafe cmd s h)

  installs-IsVerified :
      (cmd : Command) (w : World) (out : Bool × World)
      → Outcome env limits.max_size_bytes cmd w out
      → All (IsVerified env limits) w.installs
      → All (IsVerified env limits) out.1.installs
  installs-IsVerified cmd w out (refused msg e sec d i) h =
      subst (All (IsVerified env limits)) (sym i) h
  installs-IsVerified cmd w out (installed p k ds is v d i) h =
      subst (All (IsVerified env limits)) (sym i)
        (All-snoc (IsVerified env limits) w.installs p h (cmd, v))

  run_job-IsSafe :
      (cmd : Command) (s : Installer)
      → IsAccepted cmd
      → IsSafe env limits s
      → IsSafe env limits (run_job env limits cmd s)
  unfolding run_job persist_task_deduper
  run_job-IsSafe cmd s a h =
      let req = downloading 5 (codes "Queued for install") 0 in
      let r = report_task_status-Reported env cmd.task_id req s.world in
      let w = (report_task_status env cmd.task_id req s.world).1 in
      record {
        in_capacity = h.in_capacity;
        accepted = h.accepted;
        verified =
            installs-IsVerified cmd w (run_install_command env limits.max_size_bytes cmd w)
              (run_install_command-Outcome env limits.max_size_bytes cmd w a.1)
              (subst (All (IsVerified env limits)) (sym r.same_installs) h.verified);
      }

  work_on-IsSafe :
      (queue : List Command) (s : Installer)
      → length queue ≤ limits.queue_capacity
      → All IsAccepted queue
      → IsSafe env limits s
      → IsSafe env limits (work_on env limits queue s)
  unfolding work_on
  work_on-IsSafe [] s b a h = h
  work_on-IsSafe (cmd ∷ rest) s b a h =
      run_job-IsSafe cmd (record s { queue = rest }) a.0
        (record { in_capacity = omega (arith, b); accepted = a.1; verified = h.verified })

  apply_event-IsSafe :
      (e : Event) (s : Installer)
      → IsSafe env limits s
      → IsSafe env limits (apply_event env limits s e)
  unfolding apply_event work
  apply_event-IsSafe (receive cmds) s h = process_commands-IsSafe cmds s h
  apply_event-IsSafe take_job s h = work_on-IsSafe s.queue s h.in_capacity h.accepted h

  -- Whatever commands arrive and however the workers take them, the queue never holds more than its
  -- capacity, only accepted install commands wait in it, and every package that was ever handed to
  -- the installer came from the server for an accepted command, with an allowed size and with the
  -- command's SHA-256; provided that all this holds at the start, as it does of an empty queue.
  pub run-IsSafe :
      (es : List Event) (s : Installer)
      → IsSafe env limits s
      → IsSafe env limits (run env limits es s)
  unfolding run
  run-IsSafe [] s h = h
  run-IsSafe (e ∷ es) s h = run-IsSafe es (apply_event env limits s e) (apply_event-IsSafe e s h)
