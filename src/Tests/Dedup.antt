-- ===== src/Tests/Dedup.antt =====
-- The deduplicator (cmd/service/main.go) at concrete inputs.
use appcenter_agent_linux.Base.{
  ◌≡◌, refl, pos, true, false, not, ◌||◌, [], ◌∷◌, List, arith, ◌+◌, ◌*◌, ◌≤◌, ltb, take, length,
}
use mathlib.Core.List.{Perm}
use appcenter_agent_linux.Dedup.{
  TaskDeduper, ProcessedTask, new_task_deduper, try_start, finish, prune, seed, snapshot, second,
  lookup, is_recent, processed_list, processed_tasks_max_entries,
}
use appcenter_agent_linux.Dedup.Prune.{IsValid, starts, finishes, snapshots}
use appcenter_agent_linux.Dedup.Start.{finish_then_start}
use appcenter_agent_linux.Dedup.Running.{apply_all, no_second_start}
use appcenter_agent_linux.Dedup.Snapshot.{snapshot-newest, IsNewestFirst}
use appcenter_agent_linux.Dedup.Restart.{restart_refuses}

-- Task 5 runs since second 90, task 3 was done in second 100 and task 4 failed in second 110.
abbrev busy : TaskDeduper
busy = record {
  ttl = 1800 * second;
  retry_cooldown = 30 * second;
  done_time = (pos 3, 100 * second) ∷ [];
  inflight = (pos 5, 90 * second) ∷ [];
  retry_after = (pos 4, 140 * second) ∷ [];
}

busy-IsValid : IsValid busy
unfolding lookup
busy-IsValid = record {
  ttl_positive = omega arith;
  done_map = (refl, tt);
  inflight_map = (refl, tt);
  retry_map = (refl, tt);
}

decisions :
    ((try_start busy (pos 5) (120 * second)).1 ≡ false)
    × ((try_start busy (pos 4) (120 * second)).1 ≡ false)
    × ((try_start busy (pos 3) (120 * second)).1 ≡ false)
    × ((try_start busy (pos 4) (140 * second)).1 ≡ true)
    × ((try_start busy (pos 3) (1900 * second)).1 ≡ true)
unfolding try_start
decisions = (refl, refl, refl, refl, refl)

finish_then_start_example :
    ((try_start (finish busy (pos 5) true (120 * second)) (pos 5) (150 * second)).1
      ≡ not (ltb (150 * second) (120 * second + busy.ttl)))
    × ((try_start (finish busy (pos 5) false (120 * second)) (pos 5) (150 * second)).1
        ≡ not (
            ltb (150 * second) (120 * second + busy.retry_cooldown)
            || is_recent (lookup (pos 5) busy.done_time) (150 * second) busy.ttl))
finish_then_start_example =
    finish_then_start busy (pos 5) (120 * second) (150 * second) busy-IsValid refl (omega arith)

no_second_start_example :
    (try_start
      (apply_all busy (
        (starts (pos 6), 121 * second)
        ∷ (finishes (pos 6) true, 122 * second)
        ∷ (snapshots, 123 * second)
        ∷ []))
      (pos 5)
      (130 * second)).1
    ≡ false
unfolding lookup
no_second_start_example =
    no_second_start busy (pos 5) (90 * second) (130 * second)
      ((starts (pos 6), 121 * second)
        ∷ (finishes (pos 6) true, 122 * second)
        ∷ (snapshots, 123 * second)
        ∷ [])
      busy-IsValid refl refl (refl, (refl, (refl, tt))) (omega arith)

snapshot-newest_example :
    (sorted : List ProcessedTask) × Perm sorted
      (processed_list (prune busy (120 * second)).done_time)
    × IsNewestFirst sorted
    × ((snapshot busy (120 * second)).1 ≡ take processed_tasks_max_entries sorted)
    × (length (snapshot busy (120 * second)).1 ≤ processed_tasks_max_entries)
snapshot-newest_example = snapshot-newest busy (120 * second)

restart_refuses_example :
    (try_start
      (seed (new_task_deduper (1800 * second)) (snapshot busy (120 * second)).1 (200 * second))
      (pos 3)
      (1000 * second)).1
    ≡ false
unfolding lookup prune new_task_deduper
restart_refuses_example =
    restart_refuses busy (pos 3) (100 * second) (120 * second) (200 * second) (1000 * second)
      (1800 * second) busy-IsValid refl refl (omega arith) (omega arith) (omega arith) (omega arith)
      (omega arith)
