-- ===== src/Dedup/Snapshot.antt =====
-- What `Snapshot` saves.
use mathlib.Core.List.{Perm}
use mathlib.Core.List.Perm
use appcenter_agent_linux.Base.{
  ℕ, ◌≤◌, pos_part, List, [], ◌∷◌, ltb, ◌≡◌, refl, arith, take, length, length-take-le, Bool-cases,
  inl, inr,
}
use appcenter_agent_linux.Dedup.{
  TaskDeduper, ProcessedTask, prune, snapshot, sort_newest, insert_newest, processed_list,
  processed_tasks_max_entries,
}

abbrev stamp : ProcessedTask → ℕ
stamp x = pos_part x.executed_at_unix

-- Every entry is at most as new as the one before it, and the first as `bound`.
abbrev pub IsFalling : ℕ → List ProcessedTask → Type 0
IsFalling bound [] = Unit
IsFalling bound (x ∷ xs) = (stamp x ≤ bound) × IsFalling (stamp x) xs

abbrev pub IsNewestFirst : List ProcessedTask → Type 0
IsNewestFirst [] = Unit
IsNewestFirst (x ∷ xs) = IsFalling (stamp x) xs

IsFalling-insert :
    (bound : ℕ) (x : ProcessedTask) (xs : List ProcessedTask)
    → stamp x ≤ bound
    → IsFalling bound xs
    → IsFalling bound (insert_newest x xs)
unfolding insert_newest
IsFalling-insert bound x [] h f = (h, tt)
IsFalling-insert bound x (y ∷ ys) h (b, f) = ground (arith, IsFalling-insert (stamp y) x ys)

insert-IsNewestFirst :
    (x : ProcessedTask) (xs : List ProcessedTask)
    → IsNewestFirst xs
    → IsNewestFirst (insert_newest x xs)
unfolding insert_newest
insert-IsNewestFirst x [] f = tt
insert-IsNewestFirst x (y ∷ ys) f = ground (arith, IsFalling-insert (stamp y) x ys)

insert-perm : (x : ProcessedTask) (xs : List ProcessedTask) → Perm (insert_newest x xs) (x ∷ xs)
unfolding insert_newest
insert-perm x [] = Perm.refl (x ∷ [])
insert-perm x (y ∷ ys) = elim (Bool-cases (ltb (stamp x) (stamp y))) [
  | inl e ↦ rw e (Perm.trans (Perm.cons y (insert-perm x ys)) (Perm.swap x y ys))
  | inr e ↦ rw e (Perm.refl (x ∷ y ∷ ys))
]

sort-perm : (xs : List ProcessedTask) → Perm (sort_newest xs) xs
unfolding sort_newest
sort-perm [] = Perm.refl []
sort-perm (x ∷ xs) = Perm.trans (insert-perm x (sort_newest xs)) (Perm.cons x (sort-perm xs))

sort-IsNewestFirst : (xs : List ProcessedTask) → IsNewestFirst (sort_newest xs)
unfolding sort_newest
sort-IsNewestFirst [] = tt
sort-IsNewestFirst (x ∷ xs) = insert-IsNewestFirst x (sort_newest xs) (sort-IsNewestFirst xs)

-- The saved tasks are the newest of those not yet expired, newest first, and 500 at most: the first
-- 500 of a list that holds exactly the entries left by pruning, ordered by falling time.
pub snapshot-newest :
    (d : TaskDeduper) (now : ℕ)
    → (sorted : List ProcessedTask) × Perm sorted (processed_list (prune d now).done_time)
      × IsNewestFirst sorted
      × ((snapshot d now).1 ≡ take processed_tasks_max_entries sorted)
      × (length (snapshot d now).1 ≤ processed_tasks_max_entries)
unfolding snapshot
snapshot-newest d now =
    let all = processed_list (prune d now).done_time in
    (
      sort_newest all,
      sort-perm all,
      sort-IsNewestFirst all,
      refl,
      length-take-le processed_tasks_max_entries (sort_newest all),
    )
