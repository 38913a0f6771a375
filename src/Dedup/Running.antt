-- ===== src/Dedup/Running.antt =====
-- cmd/service/main.go: a task in flight, between its start and its `Finish`.
use appcenter_agent_linux.Base.{
  ℕ, ◌<◌, ℤ, eq_ℤ, eq_ℤ_iff, is_positive, Bool, true, false, not, ◌&&◌, List, [], ◌∷◌, some, ltb,
  ◌+◌, ◌≡◌, refl, arith, All,
}
use appcenter_agent_linux.Dedup.{
  TaskDeduper, ProcessedTask, lookup, prune, refuses, is_recent, try_start, finish, mark, seed,
  seed_items, seed_item, snapshot, is_younger,
}
use appcenter_agent_linux.Dedup.Entries.{
  IsMap, delete-IsMap, lookup-keep, lookup-insert, lookup-delete,
}
use appcenter_agent_linux.Dedup.Prune.{
  IsValid, seed_items-IsValid, apply-IsValid, apply, Op, starts, finishes, seeds, snapshots,
}
use appcenter_agent_linux.Dedup.Start.{try_start_decides}

-- An operation at a time by which the run of `id` that began at `t` has not expired, and that is
-- not its `Finish`.
abbrev pub leaves_running : ℤ → ℕ → ℕ → Op × ℕ → Bool
leaves_running id t ttl (finishes k b, now) = not (eq_ℤ k id) && ltb now (t + ttl)
leaves_running id t ttl (starts k, now) = ltb now (t + ttl)
leaves_running id t ttl (seeds items, now) = ltb now (t + ttl)
leaves_running id t ttl (snapshots, now) = ltb now (t + ttl)

unfoldable pub apply_all : TaskDeduper → List (Op × ℕ) → TaskDeduper
apply_all d [] = d
apply_all d ((op, now) ∷ ops) = apply_all (apply d op now) ops

seed_items-inflight :
    (d : TaskDeduper) (items : List ProcessedTask) (now : ℕ)
    → ((seed_items d items now).inflight ≡ d.inflight) × ((seed_items d items now).ttl ≡ d.ttl)
unfolding seed_items seed_item
seed_items-inflight d [] now = (refl, refl)
seed_items-inflight d (it ∷ items) now =
    ground (arith, seed_items-inflight (seed_item d it now) items now)

module _ (id : ℤ) (t now : ℕ) where
  prune-inflight :
      (d : TaskDeduper)
      → IsMap d.inflight
      → lookup id d.inflight ≡ some t
      → ltb now (t + d.ttl) ≡ true
      → lookup id (prune d now).inflight ≡ some t
  unfolding prune
  prune-inflight d v h young = ground (arith, lookup-keep (is_younger now d.ttl) id d.inflight v)

  apply-inflight :
      (d : TaskDeduper) (op : Op)
      → IsValid d
      → is_positive id ≡ true
      → lookup id d.inflight ≡ some t
      → leaves_running id t d.ttl (op, now) ≡ true
      → (lookup id (apply d op now).inflight ≡ some t) × ((apply d op now).ttl ≡ d.ttl)
  unfolding apply try_start refuses finish mark seed snapshot prune
  apply-inflight d (starts k) v p h young =
      let inside = prune-inflight d v.inflight_map h young in
      ground (arith, eq_ℤ_iff k id, inside, lookup-insert k now id (prune d now).inflight)
  apply-inflight d (finishes k true) v p h young = ground (
    arith,
    prune-inflight (mark d k true now) (delete-IsMap k d.inflight v.inflight_map),
    lookup-delete k id d.inflight,
  )
  apply-inflight d (finishes k false) v p h young = ground (
    arith,
    prune-inflight (mark d k false now) (delete-IsMap k d.inflight v.inflight_map),
    lookup-delete k id d.inflight,
  )
  apply-inflight d (seeds items) v p h young =
      let same = seed_items-inflight d items now in
      ground (
        arith,
        same,
        prune-inflight (seed_items d items now) (seed_items-IsValid d items now v).inflight_map,
      )
  apply-inflight d snapshots v p h young = ground (arith, prune-inflight d v.inflight_map)

-- Between a start of `id` at `t` and its `Finish`, and before `ttl` has passed, no sequence of
-- operations lets the task start a second time.
pub no_second_start :
    (d : TaskDeduper) (id : ℤ) (t now : ℕ) (ops : List (Op × ℕ))
    → IsValid d
    → is_positive id ≡ true
    → lookup id d.inflight ≡ some t
    → All (λ o. leaves_running id t d.ttl o ≡ true) ops
    → now < t + d.ttl
    → (try_start (apply_all d ops) id now).1 ≡ false
unfolding apply_all is_recent
no_second_start d id t now [] v p h _ young = ground (arith, try_start_decides d id now v)
no_second_start d id t now ((op, at) ∷ ops) v p h (first, rest) young =
    let (kept, same) = apply-inflight id t at d op v p h first in
    no_second_start (apply d op at) id t now ops (apply-IsValid d op at v) p kept (rw same rest)
      (rw same young)
