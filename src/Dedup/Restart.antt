-- ===== src/Dedup/Restart.antt =====
-- cmd/service/main.go: `Snapshot`, a restart, and `Seed` with what was saved.
use appcenter_agent_linux.Base.{
  ℕ, ◌⊎◌, ◌<◌, ◌≤◌, ℤ, pos, pos_part, eq_ℤ, eq_ℤ_iff, is_positive, Bool, true, false, ◌||◌, List,
  [], ◌∷◌, none, some, ◌+◌, ◌*◌, ◌/◌, ◌≡◌, refl, ap, ◌∙◌, arith, All, take, length, inl, inr, suc,
  zero,
}
use appcenter_agent_linux.Dedup.{
  TaskDeduper, ProcessedTask, Times, lookup, prune, is_recent, try_start, seed, seed_items,
  seed_item, snapshot, new_task_deduper, is_younger, second, sort_newest, insert_newest,
  processed_list, processed_tasks_max_entries,
}
use appcenter_agent_linux.Dedup.Entries.{IsMap, lookup-keep, lookup-insert}
use appcenter_agent_linux.Dedup.Prune.{IsValid, new-IsValid, prune-IsValid, seed_items-IsValid}
use appcenter_agent_linux.Dedup.Start.{try_start_decides}

-- An entry for `id` among the saved tasks.
abbrev has : ℤ → List ProcessedTask → Bool
has id [] = false
has id (x ∷ xs) = eq_ℤ x.task_id id || has id xs

-- Every saved task with this id has the Unix time `s`.
abbrev Agrees : ℤ → ℕ → List ProcessedTask → Type 0
Agrees id s = All λ x. (eq_ℤ x.task_id id ≡ false) ⊎ (x.executed_at_unix ≡ pos s)

is_positive-pos : (s : ℕ) → 0 < s → is_positive (pos s) ≡ true
is_positive-pos zero h = elim h [ ]
is_positive-pos (suc s) h = refl

ttl-seed_item : (d : TaskDeduper) (x : ProcessedTask) (boot : ℕ) → (seed_item d x boot).ttl ≡ d.ttl
unfolding seed_item
ttl-seed_item d x boot = ground arith

module _ (id : ℤ) where
  has-insert :
      (x : ProcessedTask) (xs : List ProcessedTask)
      → has id (insert_newest x xs) ≡ (eq_ℤ x.task_id id || has id xs)
  unfolding insert_newest
  has-insert x [] = refl
  has-insert x (y ∷ ys) = ground (arith, has-insert x ys)

  has-sort : (xs : List ProcessedTask) → has id (sort_newest xs) ≡ has id xs
  unfolding sort_newest
  has-sort [] = refl
  has-sort (x ∷ xs) = ground (arith, has-insert x (sort_newest xs), has-sort xs)

  has-processed : (t : ℕ) (m : Times) → lookup id m ≡ some t → has id (processed_list m) ≡ true
  unfolding lookup
  has-processed t [] h = cc
  has-processed t ((k, u) ∷ m) h = ground (arith, has-processed t m)

  module _ (s : ℕ) where
    Agrees-insert :
        (x : ProcessedTask) (xs : List ProcessedTask)
        → (eq_ℤ x.task_id id ≡ false) ⊎ (x.executed_at_unix ≡ pos s)
        → Agrees id s xs
        → Agrees id s (insert_newest x xs)
    unfolding insert_newest
    Agrees-insert x [] h a = (h, tt)
    Agrees-insert x (y ∷ ys) h (b, a) = ground (arith, Agrees-insert x ys h a)

    Agrees-sort : (xs : List ProcessedTask) → Agrees id s xs → Agrees id s (sort_newest xs)
    unfolding sort_newest
    Agrees-sort [] a = tt
    Agrees-sort (x ∷ xs) (h, a) = Agrees-insert x (sort_newest xs) h (Agrees-sort xs a)

    lookup-seed_item :
        (d : TaskDeduper) (x : ProcessedTask) (boot : ℕ)
        → is_positive id ≡ true
        → 0 < s
        → boot < s * second + d.ttl
        → (eq_ℤ x.task_id id ≡ false) ⊎ (x.executed_at_unix ≡ pos s)
        → (lookup id d.done_time ≡ some (s * second)) ⊎ (eq_ℤ x.task_id id ≡ true)
        → lookup id (seed_item d x boot).done_time ≡ some (s * second)
    unfolding seed_item
    lookup-seed_item d x boot p q young a known = ground (
      arith,
      eq_ℤ_iff x.task_id id,
      is_positive-pos s q,
      lookup-insert x.task_id (pos_part x.executed_at_unix * second) id d.done_time,
    )

    has-cases :
        (d : TaskDeduper) (x : ProcessedTask) (xs : List ProcessedTask)
        → (lookup id d.done_time ≡ some (s * second)) ⊎ (has id (x ∷ xs) ≡ true)
        → ((lookup id d.done_time ≡ some (s * second)) ⊎ (eq_ℤ x.task_id id ≡ true))
          ⊎ (has id xs ≡ true)
    has-cases d x xs known = ground arith

    seed-has :
        (d : TaskDeduper) (xs : List ProcessedTask) (boot : ℕ)
        → is_positive id ≡ true
        → 0 < s
        → boot < s * second + d.ttl
        → Agrees id s xs
        → (lookup id d.done_time ≡ some (s * second)) ⊎ (has id xs ≡ true)
        → lookup id (seed_items d xs boot).done_time ≡ some (s * second)
    unfolding seed_items
    seed-has d [] boot p q young a (inl e) = e
    seed-has d [] boot p q young a (inr h) = cc
    seed-has d (x ∷ xs) boot p q young (here, a) known =
        seed-has (seed_item d x boot) xs boot p q (rw (ttl-seed_item d x boot) young) a
          (elim (has-cases d x xs known) [
            | inl now ↦ inl (lookup-seed_item d x boot p q young here now)
            | inr later ↦ inr later
          ])

Agrees-absent : (id : ℤ) (s : ℕ) (m : Times) → lookup id m ≡ none → Agrees id s (processed_list m)
unfolding lookup
Agrees-absent id s [] h = tt
Agrees-absent id s ((k, u) ∷ m) h = ground (arith, Agrees-absent id s m)

Agrees-processed :
    (id : ℤ) (t : ℕ) (m : Times)
    → IsMap m
    → lookup id m ≡ some t
    → Agrees id (t / second) (processed_list m)
unfolding lookup
Agrees-processed id t [] v h = tt
Agrees-processed id t ((k, u) ∷ m) (new, v) h =
    ground (arith, eq_ℤ_iff k id, Agrees-processed id t m v, Agrees-absent k (t / second) m new)

take-all : (n : ℕ) (xs : List ProcessedTask) → length xs ≤ n → take n xs ≡ xs
take-all zero [] h = refl
take-all zero (x ∷ xs) h = absurd (omega arith)
take-all (suc n) [] h = refl
take-all (suc n) (x ∷ xs) h = rw (take-all n xs (omega arith))

length-insert :
    (x : ProcessedTask) (xs : List ProcessedTask) → length (insert_newest x xs) ≡ suc (length xs)
unfolding insert_newest
length-insert x [] = refl
length-insert x (y ∷ ys) = ground (arith, length-insert x ys)

length-sort : (m : Times) → length (sort_newest (processed_list m)) ≡ length m
unfolding sort_newest
length-sort [] = refl
length-sort ((k, t) ∷ m) = length-insert _ _ ∙ ap suc (length-sort m)

module _ (d : TaskDeduper) (id : ℤ) (t now : ℕ) (v : IsValid d) (p : is_positive id ≡ true)
    (done : lookup id d.done_time ≡ some t) (young : now < t + d.ttl)
    (few : length (prune d now).done_time ≤ processed_tasks_max_entries) where
  saved-done : lookup id (prune d now).done_time ≡ some t
  unfolding prune
  saved-done = ground (arith, lookup-keep (is_younger now d.ttl) id d.done_time v.done_map)

  saved-sort : (snapshot d now).1 ≡ sort_newest (processed_list (prune d now).done_time)
  unfolding snapshot
  saved-sort = take-all processed_tasks_max_entries _ (rw (length-sort (prune d now).done_time) few)

  seeded :
      (e : TaskDeduper) (boot : ℕ)
      → 0 < t / second
      → boot < t / second * second + e.ttl
      → lookup id (seed_items e (snapshot d now).1 boot).done_time ≡ some (t / second * second)
  seeded e boot q near =
      let m = (prune d now).done_time in
      rw saved-sort (
        seed-has id (t / second) e _ boot p q near
          (Agrees-sort id (t / second) (processed_list m)
            (Agrees-processed id t m (prune-IsValid d now v).done_map saved-done))
          (inr (has-sort id (processed_list m) ∙ has-processed id t m saved-done)))

pruned_refuses :
    (e : TaskDeduper) (id : ℤ) (u boot later : ℕ)
    → IsValid e
    → is_positive id ≡ true
    → lookup id e.done_time ≡ some u
    → boot ≤ later
    → later < u + e.ttl
    → (try_start (prune e boot) id later).1 ≡ false
unfolding prune is_recent
pruned_refuses e id u boot later v p done order near = ground (
  arith,
  try_start_decides (prune e boot) id later (prune-IsValid e boot v),
  lookup-keep (is_younger boot e.ttl) id e.done_time v.done_map,
)

ttl-seed_items :
    (d : TaskDeduper) (xs : List ProcessedTask) (boot : ℕ) → (seed_items d xs boot).ttl ≡ d.ttl
unfolding seed_items
ttl-seed_items d [] boot = refl
ttl-seed_items d (x ∷ xs) boot =
    ttl-seed_items (seed_item d x boot) xs boot ∙ ttl-seed_item d x boot

-- A task that was done at `t` and saved by a `Snapshot` of at most 500 tasks is refused, by a new
-- deduplicator that was seeded with that snapshot at `boot`, until its time to live has passed
-- since the whole second of `t`.
pub restart_refuses :
    (d : TaskDeduper) (id : ℤ) (t now boot later ttl : ℕ)
    → IsValid d
    → is_positive id ≡ true
    → lookup id d.done_time ≡ some t
    → now < t + d.ttl
    → length (prune d now).done_time ≤ processed_tasks_max_entries
    → second ≤ t
    → boot ≤ later
    → later < t / second * second + (new_task_deduper ttl).ttl
    → (try_start (seed (new_task_deduper ttl) (snapshot d now).1 boot) id later).1 ≡ false
unfolding seed
restart_refuses d id t now boot later ttl v p done young few old order near =
    let new = new_task_deduper ttl in
    let items = (snapshot d now).1 in
    pruned_refuses (seed_items new items boot) id (t / second * second) boot later
      (seed_items-IsValid new items boot (new-IsValid ttl)) p
      (seeded d id t now v p done young few new boot (omega arith) (omega arith)) order
      (rw (ttl-seed_items new items boot) near)
