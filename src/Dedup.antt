-- ===== src/Dedup.antt =====
-- cmd/service/main.go: `taskDeduper`, which keeps a task from being run twice. Times are
-- nanoseconds since 1970. A Go map is an association list with at most one entry for each id;
-- `pruneLocked` deletes during a `range`, which visits each entry once.
mod Entries
pub mod Prune
pub mod Start
pub mod Running
pub mod Snapshot
pub mod Restart
use appcenter_agent_linux.Base.{
  ℕ, ◌+◌, ◌*◌, ◌/◌, ℤ, pos, is_positive, pos_part, eq_ℤ, Bool, true, false, ◌&&◌, ◌||◌, List, [],
  ◌∷◌, if◌then◌else◌, Option, none, some, ltb, leb, keep, take, length, ◌≡◌, refl,
}

-- One nanosecond count for `time.Second`.
abbrev pub second : ℕ
second = 1000000000

abbrev pub Times : Type 0
Times = List (ℤ × ℕ)

pub record TaskDeduper : Type 0 where
  pub ttl : ℕ
  pub retry_cooldown : ℕ
  pub done_time : Times
  pub inflight : Times
  pub retry_after : Times

-- m[id]
unfoldable pub lookup : ℤ → Times → Option ℕ
lookup id [] = none
lookup id ((k, t) ∷ m) = if eq_ℤ k id then some t else lookup id m

-- delete(m, id)
unfoldable pub delete : ℤ → Times → Times
delete id [] = []
delete id ((k, t) ∷ m) = let rest = delete id m in if eq_ℤ k id then rest else (k, t) ∷ rest

-- m[id] = t
unfoldable pub insert : ℤ → ℕ → Times → Times
unfolding delete
insert id t m = (id, t) ∷ delete id m

-- newTaskDeduper; a `ttl` that is not positive becomes 30 minutes.
unfoldable pub new_task_deduper : ℕ → TaskDeduper
new_task_deduper ttl = record {
  ttl = if ltb 0 ttl then ttl else 30 * 60 * second;
  retry_cooldown = 30 * second;
  done_time = [];
  inflight = [];
  retry_after = [];
}

-- now.Sub(t) < ttl, for an entry
abbrev pub is_younger : ℕ → ℕ → ℤ × ℕ → Bool
is_younger now ttl (id, t) = ltb now (t + ttl)

-- now.Before(t), for an entry
abbrev pub is_ahead : ℕ → ℤ × ℕ → Bool
is_ahead now (id, t) = ltb now t

-- pruneLocked
unfoldable pub prune : TaskDeduper → ℕ → TaskDeduper
prune d now = record d {
  done_time = keep (is_younger now d.ttl) d.done_time;
  inflight = keep (is_younger now d.ttl) d.inflight;
  retry_after = keep (is_ahead now) d.retry_after;
}

-- `t, ok := m[id]; ok && now.Before(t)`
unfoldable pub waits_for : Option ℕ → ℕ → Bool
waits_for none now = false
waits_for (some t) now = ltb now t

-- `t, ok := m[id]; ok && now.Sub(t) < ttl`
unfoldable pub is_recent : Option ℕ → ℕ → ℕ → Bool
is_recent none now ttl = false
is_recent (some t) now ttl = ltb now (t + ttl)

abbrev is_found : Option ℕ → Bool
is_found none = false
is_found (some t) = true

-- The three refusals of `TryStart`.
unfoldable pub refuses : TaskDeduper → ℤ → ℕ → Bool
unfolding waits_for is_recent lookup
refuses d id now =
    is_found (lookup id d.inflight)
    || waits_for (lookup id d.retry_after) now
    || is_recent (lookup id d.done_time) now d.ttl

-- TryStart at time `now`
unfoldable pub try_start : TaskDeduper → ℤ → ℕ → TaskDeduper × Bool
unfolding prune refuses insert
try_start d id now =
    let p = prune d now in
    if is_positive id
    then (if refuses p id now
        then (p, false)
        else (record p { inflight = insert id now p.inflight }, true))
    else (d, true)

-- The part of `Finish` before the last pruning.
unfoldable pub mark : TaskDeduper → ℤ → Bool → ℕ → TaskDeduper
unfolding insert delete
mark d id true now = record d {
  done_time = insert id now d.done_time;
  inflight = delete id d.inflight;
  retry_after = delete id d.retry_after;
}
mark d id false now = record d {
  inflight = delete id d.inflight;
  retry_after = insert id (now + d.retry_cooldown) d.retry_after;
}

-- Finish at time `now`
unfoldable pub finish : TaskDeduper → ℤ → Bool → ℕ → TaskDeduper
unfolding mark prune
finish d id mark_done now = if is_positive id then prune (mark d id mark_done now) now else d

-- internal/state/state.go: `ProcessedTask`
pub record ProcessedTask : Type 0 where
  pub task_id : ℤ
  pub executed_at_unix : ℤ

-- One round of `Seed`: a task of the state file with a positive id and time, not yet expired.
unfoldable pub seed_item : TaskDeduper → ProcessedTask → ℕ → TaskDeduper
unfolding insert
seed_item d it now =
    let t = pos_part it.executed_at_unix * second in
    if is_positive it.task_id && is_positive it.executed_at_unix && ltb now (t + d.ttl)
    then record d { done_time = insert it.task_id t d.done_time }
    else d

unfoldable pub seed_items : TaskDeduper → List ProcessedTask → ℕ → TaskDeduper
seed_items d [] now = d
seed_items d (it ∷ items) now = seed_items (seed_item d it now) items now

-- Seed at time `now`
unfoldable pub seed : TaskDeduper → List ProcessedTask → ℕ → TaskDeduper
unfolding seed_items seed_item prune
seed d items now = prune (seed_items d items now) now

abbrev pub processed_tasks_max_entries : ℕ
processed_tasks_max_entries = 500

-- t.Unix() of an entry of `doneTime`
abbrev pub processed : ℤ × ℕ → ProcessedTask
processed (id, t) = record { task_id = id; executed_at_unix = pos (t / second) }

-- An insertion behind the newer entries.
unfoldable pub insert_newest : ProcessedTask → List ProcessedTask → List ProcessedTask
insert_newest x [] = x ∷ []
insert_newest x (y ∷ ys) =
    let rest = insert_newest x ys in
    if ltb (pos_part x.executed_at_unix) (pos_part y.executed_at_unix) then y ∷ rest else x ∷ y ∷ ys

-- sort.Slice by falling `ExecutedAtUnix`. Go leaves the order of equal times open.
unfoldable pub sort_newest : List ProcessedTask → List ProcessedTask
unfolding insert_newest
sort_newest [] = []
sort_newest (x ∷ xs) = insert_newest x (sort_newest xs)

abbrev pub processed_list : Times → List ProcessedTask
processed_list [] = []
processed_list (e ∷ m) = processed e ∷ processed_list m

-- Snapshot at time `now`
unfoldable pub snapshot : TaskDeduper → ℕ → TaskDeduper × List ProcessedTask
unfolding prune sort_newest
snapshot d now =
    let p = prune d now in
    (p, take processed_tasks_max_entries (sort_newest (processed_list p.done_time)))
