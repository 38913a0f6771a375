-- ===== src/Text/Laws.antt =====
-- The lemmas on texts that the components share.
use appcenter_agent_linux.Base.{ℕ, ◌≡◌, refl, true, [], ◌∷◌, arith, Bool-cases, inl, inr}
use appcenter_agent_linux.Text.{Text, same, is_space, trim_left, trim_right, put_front, trim_space}

pub same-eq : (s t : Text) → same s t ≡ true → s ≡ t
unfolding same
same-eq [] [] h = refl
same-eq [] (d ∷ t) h = cc
same-eq (c ∷ s) [] h = cc
same-eq (c ∷ s) (d ∷ t) h = ground (arith, same-eq s t)

pub same_refl : (s : Text) → same s s ≡ true
unfolding same
same_refl [] = refl
same_refl (c ∷ s) = ground (arith, same_refl s)

trim_left_idem : (s : Text) → trim_left (trim_left s) ≡ trim_left s
unfolding trim_left
trim_left_idem [] = refl
trim_left_idem (c ∷ s) = ground (arith, trim_left_idem s)

put_front_kept : (c d : ℕ) (s : Text) → put_front c (put_front d s) ≡ put_front c (put_front d s)
put_front_kept c d s = refl

trim_right-put_front :
    (c : ℕ) (t : Text) → trim_right t ≡ t → trim_right (put_front c t) ≡ put_front c t
unfolding trim_right
trim_right-put_front c [] h = ground arith
trim_right-put_front c (d ∷ t) h = rw h

trim_right_idem : (s : Text) → trim_right (trim_right s) ≡ trim_right s
unfolding trim_right
trim_right_idem [] = refl
trim_right_idem (c ∷ s) = trim_right-put_front c (trim_right s) (trim_right_idem s)

trim_right_tail : (c : ℕ) (s : Text) → trim_right (c ∷ s) ≡ c ∷ s → trim_right s ≡ s
unfolding trim_right
trim_right_tail c [] h = refl
trim_right_tail c (d ∷ s) h = ground arith

trim_right-trim_left : (s : Text) → trim_right s ≡ s → trim_right (trim_left s) ≡ trim_left s
unfolding trim_left
trim_right-trim_left [] h = h
trim_right-trim_left (c ∷ s) h = elim (Bool-cases (is_space c)) [
  | inl e ↦ rw e (trim_right-trim_left s (trim_right_tail c s h))
  | inr e ↦ rw e h
]

-- Trimming a second time changes nothing.
pub trim_space_idem : (s : Text) → trim_space (trim_space s) ≡ trim_space s
unfolding trim_space
trim_space_idem s =
    rw (trim_right-trim_left (trim_right s) (trim_right_idem s)) (trim_left_idem (trim_right s))
