-- ===== src/Dedup/Entries.antt =====
-- The laws of the maps of `taskDeduper`.
use appcenter_agent_linux.Base.{
  ℕ, ℤ, eq_ℤ, eq_ℤ_iff, eq_ℤ_refl, Bool, [], ◌∷◌, if◌then◌else◌, Option, none, some, keep, ◌≡◌,
  refl, arith,
}
use appcenter_agent_linux.Dedup.{Times, lookup, delete, insert}

-- No id has two entries.
abbrev pub IsMap : Times → Type 0
IsMap [] = Unit
IsMap ((k, t) ∷ m) = (lookup k m ≡ none) × IsMap m

pub lookup-delete :
    (k j : ℤ) (m : Times) → lookup j (delete k m) ≡ (if eq_ℤ k j then none else lookup j m)
unfolding lookup delete
lookup-delete k j [] = ground arith
lookup-delete k j ((i, t) ∷ m) =
    ground (arith, eq_ℤ_iff k j, eq_ℤ_iff i k, eq_ℤ_iff i j, lookup-delete k j m)

pub lookup-insert :
    (k : ℤ) (t : ℕ) (j : ℤ) (m : Times)
    → lookup j (insert k t m) ≡ (if eq_ℤ k j then some t else lookup j m)
unfolding lookup insert
lookup-insert k t j m = ground (arith, lookup-delete k j m)

-- What is left of an entry under a test.
abbrev pub filtered : (ℤ × ℕ → Bool) → ℤ → Option ℕ → Option ℕ
filtered p j none = none
filtered p j (some t) = if p (j, t) then some t else none

pub lookup-keep-none :
    (p : ℤ × ℕ → Bool) (j : ℤ) (m : Times) → lookup j m ≡ none → lookup j (keep p m) ≡ none
unfolding lookup
lookup-keep-none p j [] h = refl
lookup-keep-none p j ((k, t) ∷ m) h = ground (arith, lookup-keep-none p j m)

pub lookup-keep :
    (p : ℤ × ℕ → Bool) (j : ℤ) (m : Times)
    → IsMap m
    → lookup j (keep p m) ≡ filtered p j (lookup j m)
unfolding lookup
lookup-keep p j [] h = refl
lookup-keep p j ((k, t) ∷ m) (new, h) =
    ground (arith, eq_ℤ_iff k j, lookup-keep p j m h, lookup-keep-none p k m new)

pub delete-IsMap : (k : ℤ) (m : Times) → IsMap m → IsMap (delete k m)
unfolding delete
delete-IsMap k [] h = tt
delete-IsMap k ((j, t) ∷ m) (new, h) = ground (arith, delete-IsMap k m h, lookup-delete k j m)

pub insert-IsMap : (k : ℤ) (t : ℕ) (m : Times) → IsMap m → IsMap (insert k t m)
unfolding insert
insert-IsMap k t m h = (ground (arith, lookup-delete k k m, eq_ℤ_refl k), delete-IsMap k m h)

pub keep-IsMap : (p : ℤ × ℕ → Bool) (m : Times) → IsMap m → IsMap (keep p m)
keep-IsMap p [] h = tt
keep-IsMap p ((j, t) ∷ m) (new, h) = ground (arith, keep-IsMap p m h, lookup-keep-none p j m new)
