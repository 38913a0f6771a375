-- ===== src/Dedup/Prune.antt =====
-- cmd/service/main.go: the invariant of `taskDeduper`, and its operations as data.
use appcenter_agent_linux.Base.{
  ℕ, ◌<◌, ℤ, Bool, true, false, List, [], ◌∷◌, ◌+◌, ◌*◌, pos_part, arith,
}
use appcenter_agent_linux.Dedup.{
  TaskDeduper, ProcessedTask, prune, try_start, finish, mark, seed, seed_items, seed_item, snapshot,
  new_task_deduper, second,
}
use appcenter_agent_linux.Dedup.Entries.{IsMap, insert-IsMap, delete-IsMap, keep-IsMap}

pub record IsValid (d : TaskDeduper) : Type 0 where
  pub ttl_positive : 0 < d.ttl
  pub done_map : IsMap d.done_time
  pub inflight_map : IsMap d.inflight
  pub retry_map : IsMap d.retry_after

pub new-IsValid : (ttl : ℕ) → IsValid (new_task_deduper ttl)
unfolding new_task_deduper
new-IsValid ttl = record {
  ttl_positive = ground arith;
  done_map = tt;
  inflight_map = tt;
  retry_map = tt;
}

pub prune-IsValid : (d : TaskDeduper) (now : ℕ) → IsValid d → IsValid (prune d now)
unfolding prune
prune-IsValid d now v = record {
  ttl_positive = v.ttl_positive;
  done_map = keep-IsMap _ d.done_time v.done_map;
  inflight_map = keep-IsMap _ d.inflight v.inflight_map;
  retry_map = keep-IsMap _ d.retry_after v.retry_map;
}

start-IsValid : (d : TaskDeduper) (id : ℤ) (now : ℕ) → IsValid d → IsValid (try_start d id now).0
unfolding try_start
start-IsValid d id now v =
    let w = prune-IsValid d now v in
    ground (arith, w, v, insert-IsMap id now (prune d now).inflight w.inflight_map)

mark-IsValid :
    (d : TaskDeduper) (id : ℤ) (b : Bool) (now : ℕ) → IsValid d → IsValid (mark d id b now)
unfolding mark
mark-IsValid d id true now v = record {
  ttl_positive = v.ttl_positive;
  done_map = insert-IsMap id now d.done_time v.done_map;
  inflight_map = delete-IsMap id d.inflight v.inflight_map;
  retry_map = delete-IsMap id d.retry_after v.retry_map;
}
mark-IsValid d id false now v = record {
  ttl_positive = v.ttl_positive;
  done_map = v.done_map;
  inflight_map = delete-IsMap id d.inflight v.inflight_map;
  retry_map = insert-IsMap id (now + d.retry_cooldown) d.retry_after v.retry_map;
}

pub finish-IsValid :
    (d : TaskDeduper) (id : ℤ) (b : Bool) (now : ℕ) → IsValid d → IsValid (finish d id b now)
unfolding finish
finish-IsValid d id b now v =
    ground (arith, v, prune-IsValid (mark d id b now) now (mark-IsValid d id b now v))

seed_item-IsValid :
    (d : TaskDeduper) (it : ProcessedTask) (now : ℕ) → IsValid d → IsValid (seed_item d it now)
unfolding seed_item
seed_item-IsValid d it now v =
    let t : ℕ = pos_part it.executed_at_unix * second in
    ground (arith, v, insert-IsMap it.task_id t d.done_time v.done_map)

pub seed_items-IsValid :
    (d : TaskDeduper) (items : List ProcessedTask) (now : ℕ)
    → IsValid d
    → IsValid (seed_items d items now)
unfolding seed_items
seed_items-IsValid d [] now v = v
seed_items-IsValid d (it ∷ items) now v =
    seed_items-IsValid (seed_item d it now) items now (seed_item-IsValid d it now v)

-- The operations of the deduplicator, each at its time.
pub data Op : Type 0 where
  starts : ℤ → Op
  finishes : ℤ → Bool → Op
  seeds : List ProcessedTask → Op
  snapshots : Op

unfoldable pub apply : TaskDeduper → Op → ℕ → TaskDeduper
apply d (starts id) now = (try_start d id now).0
apply d (finishes id b) now = finish d id b now
apply d (seeds items) now = seed d items now
apply d snapshots now = (snapshot d now).0

-- Every operation, at every time, keeps the maps single-valued and the time to live positive.
pub apply-IsValid : (d : TaskDeduper) (op : Op) (now : ℕ) → IsValid d → IsValid (apply d op now)
unfolding apply seed snapshot
apply-IsValid d (starts id) now v = start-IsValid d id now v
apply-IsValid d (finishes id b) now v = finish-IsValid d id b now v
apply-IsValid d (seeds items) now v =
    prune-IsValid (seed_items d items now) now (seed_items-IsValid d items now v)
apply-IsValid d snapshots now v = prune-IsValid d now v
