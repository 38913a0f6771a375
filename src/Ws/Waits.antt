-- ===== src/Ws/Waits.antt =====
-- internal/wsconn/client.go: the waits between two connections.
use appcenter_agent_linux.Base.{
  ℕ, ◌+◌, ◌*◌, ◌≤◌, ◌<◌, ◌≡◌, refl, ap, Bool, true, false, List, [], ◌∷◌, ◌++◌, All, min, ◌⊎◌, inl,
  inr, arith,
}
use native.Mathlib.Nat.{mul-le-mul_left}
use appcenter_agent_linux.Ws.{Backoff, float_steps, jitter, round, waits, run}

-- A backoff before its jitter
abbrev IsBase : Backoff → ℕ → Type 0
IsBase c b =
    (min c.reconnect_min c.reconnect_max ≤ b) × ((b ≤ c.reconnect_min) ⊎ (b ≤ c.reconnect_max))

-- A wait of at least three quarters of the smaller bound, cut to an integer, and at most five
-- quarters of the larger
abbrev pub IsBetween : Backoff → ℕ → Type 0
IsBetween c t =
    (3 * min c.reconnect_min c.reconnect_max < 4 * (t + 1))
    × ((4 * t ≤ 5 * c.reconnect_min) ⊎ (4 * t ≤ 5 * c.reconnect_max))

-- A draw of rand.Float64 is less than one.
abbrev pub IsDraw : Bool × ℕ → Type 0
IsDraw x = x.1 < float_steps

jitter-bounds :
    (b k : ℕ) → k < float_steps → (3 * b < 4 * (jitter b k + 1)) × (4 * jitter b k ≤ 5 * b)
unfolding jitter
jitter-bounds b k h =
    let p : b * k ≤ b * float_steps = mul-le-mul_left b (omega arith) in
    (omega (arith, p), omega (arith, p))

jitter-IsBetween : (c : Backoff) (b k : ℕ) → k < float_steps → IsBase c b → IsBetween c (jitter b k)
jitter-IsBetween c b k h (l, inl u) =
    let (p, q) = jitter-bounds b k h in (omega (arith, p, l), inl (omega (arith, q, u)))
jitter-IsBetween c b k h (l, inr u) =
    let (p, q) = jitter-bounds b k h in (omega (arith, p, l), inr (omega (arith, q, u)))

waits-IsBetween :
    (c : Backoff) (rs : List (Bool × ℕ)) (backoff : ℕ)
    → All IsDraw rs
    → IsBase c backoff
    → All (IsBetween c) (waits c rs backoff)
unfolding waits round
waits-IsBetween c [] b d h = tt
waits-IsBetween c ((true, k) ∷ rest) b d h = (
  jitter-IsBetween c b k d.0 h,
  waits-IsBetween c rest (min (b * 2) c.reconnect_max) d.1 (ground arith),
)
waits-IsBetween c ((false, k) ∷ rest) b d h =
    let start : IsBase c c.reconnect_min = (omega arith, inl (omega arith)) in
    (
      jitter-IsBetween c c.reconnect_min k d.0 start,
      waits-IsBetween c rest c.reconnect_min d.1 start,
    )

-- Whatever connections fail and whatever is drawn, every wait between two is at least three
-- quarters of the smaller of the configured bounds, cut to a nanosecond, and at most five quarters
-- of the larger.
pub run-IsBetween :
    (c : Backoff) (rs : List (Bool × ℕ)) → All IsDraw rs → All (IsBetween c) (run c rs)
unfolding run
run-IsBetween c rs d = waits-IsBetween c rs c.reconnect_min d (omega arith, inl (omega arith))

waits-reset :
    (c : Backoff) (before after : List (Bool × ℕ)) (k b : ℕ)
    → waits c (before ++ (false, k) ∷ after) b
      ≡ waits c (before ++ (false, k) ∷ []) b ++ waits c after c.reconnect_min
unfolding waits round
waits-reset c [] after k b = refl
waits-reset c ((true, j) ∷ before) after k b =
    ap (λ t. jitter b j ∷ t) (waits-reset c before after k (min (b * 2) c.reconnect_max))
waits-reset c ((false, j) ∷ before) after k b =
    ap (λ t. jitter c.reconnect_min j ∷ t) (waits-reset c before after k c.reconnect_min)

-- A connection that served resets the waits: what follows it is what a new client does.
pub run-reset :
    (c : Backoff) (before after : List (Bool × ℕ)) (k : ℕ)
    → run c (before ++ (false, k) ∷ after) ≡ run c (before ++ (false, k) ∷ []) ++ run c after
unfolding run
run-reset c before after k = waits-reset c before after k c.reconnect_min
