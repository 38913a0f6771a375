-- ===== src/Dedup/Start.antt =====
-- When a task may start.
use appcenter_agent_linux.Base.{
  ℕ, ◌≤◌, ℤ, eq_ℤ_refl, is_positive, Bool, true, false, not, ◌||◌, if◌then◌else◌, none, some, ltb,
  ◌+◌, ◌≡◌, refl, arith,
}
use appcenter_agent_linux.Dedup.{
  TaskDeduper, lookup, insert, delete, prune, refuses, waits_for, is_recent, try_start, finish,
  mark, is_younger, is_ahead,
}
use appcenter_agent_linux.Dedup.Entries.{
  insert-IsMap, delete-IsMap, lookup-keep, filtered, lookup-insert, lookup-delete,
}
use appcenter_agent_linux.Dedup.Prune.{IsValid, finish-IsValid}

-- Pruning loses no refusal but that of an expired `inflight` entry.
refuses-prune :
    (d : TaskDeduper) (id : ℤ) (now : ℕ)
    → IsValid d
    → refuses (prune d now) id now ≡ (
        is_recent (lookup id d.inflight) now d.ttl
        || waits_for (lookup id d.retry_after) now
        || is_recent (lookup id d.done_time) now d.ttl)
unfolding refuses prune
refuses-prune d id now v = ground (
  arith,
  lookup-keep (is_younger now d.ttl) id d.inflight v.inflight_map,
  lookup-keep (is_ahead now) id d.retry_after v.retry_map,
  lookup-keep (is_younger now d.ttl) id d.done_time v.done_map,
)

-- A task with a positive id starts exactly if it is not in flight since less than `ttl`, not in its
-- cooldown, and not done since less than `ttl`; other ids always start.
pub try_start_decides :
    (d : TaskDeduper) (id : ℤ) (now : ℕ)
    → IsValid d
    → (try_start d id now).1 ≡ (
        if is_positive id
        then not (
            is_recent (lookup id d.inflight) now d.ttl
            || waits_for (lookup id d.retry_after) now
            || is_recent (lookup id d.done_time) now d.ttl)
        else true)
unfolding try_start
try_start_decides d id now v = ground (arith, refuses-prune d id now v)

-- A task that starts is in flight from then on.
pub start_inflight :
    (d : TaskDeduper) (id : ℤ) (now : ℕ)
    → is_positive id ≡ true
    → (try_start d id now).1 ≡ true
    → lookup id (try_start d id now).0.inflight ≡ some now
unfolding try_start
start_inflight d id now p h =
    ground (arith, lookup-insert id now id (prune d now).inflight, eq_ℤ_refl id)

module _ (d : TaskDeduper) (id : ℤ) (now : ℕ) (v : IsValid d) where
  lookups-mark_done :
      let e = prune (mark d id true now) now in
      (lookup id e.inflight ≡ none)
      × (lookup id e.retry_after ≡ none)
      × (lookup id e.done_time ≡ some now)
  unfolding mark prune
  lookups-mark_done =
      let young = is_younger now d.ttl in
      ground (
        arith,
        v,
        eq_ℤ_refl id,
        lookup-keep young id (insert id now d.done_time)
            (insert-IsMap id now d.done_time v.done_map),
        lookup-keep young id (delete id d.inflight) (delete-IsMap id d.inflight v.inflight_map),
        lookup-keep (is_ahead now) id (delete id d.retry_after)
            (delete-IsMap id d.retry_after v.retry_map),
        lookup-insert id now id d.done_time,
        lookup-delete id id d.inflight,
        lookup-delete id id d.retry_after,
      )

  lookups-mark_failed :
      let e = prune (mark d id false now) now in
      let t = now + d.retry_cooldown in
      (lookup id e.inflight ≡ none)
      × (lookup id e.retry_after ≡ (if ltb now t then some t else none))
      × (lookup id e.done_time ≡ filtered (is_younger now d.ttl) id (lookup id d.done_time))
  unfolding mark prune
  lookups-mark_failed =
      let t = now + d.retry_cooldown in
      ground (
        arith,
        v,
        eq_ℤ_refl id,
        lookup-keep (is_younger now d.ttl) id d.done_time v.done_map,
        lookup-keep (is_younger now d.ttl) id (delete id d.inflight)
            (delete-IsMap id d.inflight v.inflight_map),
        lookup-keep (is_ahead now) id (insert id t d.retry_after)
            (insert-IsMap id t d.retry_after v.retry_map),
        lookup-insert id t id d.retry_after,
        lookup-delete id id d.inflight,
      )

finish-prune :
    (d : TaskDeduper) (id : ℤ) (b : Bool) (now : ℕ)
    → is_positive id ≡ true
    → finish d id b now ≡ prune (mark d id b now) now
unfolding finish
finish-prune d id b now p = rw p

ttl-mark :
    (d : TaskDeduper) (id : ℤ) (b : Bool) (now : ℕ) → (prune (mark d id b now) now).ttl ≡ d.ttl
unfolding prune mark
ttl-mark d id true now = refl
ttl-mark d id false now = refl

-- After `Finish` of a positive id as done at `now`, the task starts again exactly from `ttl` later
-- on; after `Finish` as not done, exactly when the cooldown is over and an earlier run that was
-- done is `ttl` ago.
pub finish_then_start :
    (d : TaskDeduper) (id : ℤ) (now later : ℕ)
    → IsValid d
    → is_positive id ≡ true
    → now ≤ later
    → ((try_start (finish d id true now) id later).1 ≡ not (ltb later (now + d.ttl)))
      × ((try_start (finish d id false now) id later).1
          ≡ not
              (ltb later (now + d.retry_cooldown) || is_recent (lookup id d.done_time) later d.ttl))
unfolding is_recent waits_for
finish_then_start d id now later v p h = (
  rw (finish-prune d id true now p)
      (ground (arith, ttl-mark d id true now, lookups-mark_done d id now v, decided true)),
  rw (finish-prune d id false now p)
      (ground (arith, ttl-mark d id false now, lookups-mark_failed d id now v, decided false)),
)
  where
    decided :
        (b : Bool)
        → let e = prune (mark d id b now) now in
          (try_start e id later).1 ≡ (
            if is_positive id
            then not (
                is_recent (lookup id e.inflight) later e.ttl
                || waits_for (lookup id e.retry_after) later
                || is_recent (lookup id e.done_time) later e.ttl)
            else true)
    decided b =
        try_start_decides (prune (mark d id b now) now) id later
          (rw (← finish-prune d id b now p) (finish-IsValid d id b now v))
