-- ===== src/Text/Order.antt =====
-- Go's order of strings. UTF-8 keeps the order of code points, so the bytes need not be spelt out.
use appcenter_agent_linux.Base.{◌≡◌, refl, Bool, true, false, ◌&&◌, ◌||◌, [], ◌∷◌, ltb, ◌==◌, arith}
use appcenter_agent_linux.Text.{Text, same}

-- s < t
unfoldable pub text_lt : Text → Text → Bool
text_lt [] [] = false
text_lt [] (d ∷ t) = true
text_lt (c ∷ s) [] = false
text_lt (c ∷ s) (d ∷ t) = ltb c d || c == d && text_lt s t

pub text_lt_irrefl : (s : Text) → text_lt s s ≡ false
unfolding text_lt
text_lt_irrefl [] = refl
text_lt_irrefl (c ∷ s) = ground (arith, text_lt_irrefl s)

pub text_lt_trans : (s t u : Text) → text_lt s t ≡ true → text_lt t u ≡ true → text_lt s u ≡ true
unfolding text_lt
text_lt_trans [] t [] h k = text_lt-none t k
  where
    text_lt-none : (x : Text) → text_lt x [] ≡ true → false ≡ true
    text_lt-none [] e = e
    text_lt-none (c ∷ x) e = e
text_lt_trans [] t (e ∷ u) h k = refl
text_lt_trans (c ∷ s) [] u h k = ground arith
text_lt_trans (c ∷ s) (d ∷ t) [] h k = ground arith
text_lt_trans (c ∷ s) (d ∷ t) (e ∷ u) h k = ground (arith, text_lt_trans s t u)

pub text_lt_asym : (s t : Text) → text_lt s t ≡ true → text_lt t s ≡ false
unfolding text_lt
text_lt_asym [] [] h = refl
text_lt_asym [] (d ∷ t) h = refl
text_lt_asym (c ∷ s) [] h = ground arith
text_lt_asym (c ∷ s) (d ∷ t) h = ground (arith, text_lt_asym s t)

-- Two texts neither of which is less are the same.
pub text_lt_connex : (s t : Text) → text_lt s t ≡ false → text_lt t s ≡ false → same s t ≡ true
unfolding text_lt same
text_lt_connex [] [] h k = refl
text_lt_connex [] (d ∷ t) h k = ground arith
text_lt_connex (c ∷ s) [] h k = ground arith
text_lt_connex (c ∷ s) (d ∷ t) h k = ground (arith, text_lt_connex s t)

-- What is not above `z` is below all that `z` is below.
pub text_lt_weak : (z y x : Text) → text_lt z x ≡ true → text_lt z y ≡ false → text_lt y x ≡ true
unfolding text_lt
text_lt_weak [] [] x h k = h
text_lt_weak [] (d ∷ y) x h k = ground arith
text_lt_weak (c ∷ z) y [] h k = ground arith
text_lt_weak (c ∷ z) [] (e ∷ x) h k = refl
text_lt_weak (c ∷ z) (d ∷ y) (e ∷ x) h k = ground (arith, text_lt_weak z y x)
