-- ===== src/Api/Retry.antt =====
-- cmd/service/main.go: `callRemoteWithRetry`, and how often a call is made.
use appcenter_agent_linux.Base.{
  ℕ, ◌⊎◌, inl, inr, Bool-cases, zero, suc, ◌≤◌, Bool, true, false, if◌then◌else◌, ◌≡◌, refl, arith,
}
use appcenter_agent_linux.Api.{is_retryable, Result, ok, err}

-- The attempt failed and may be repeated.
unfoldable pub wants_retry {ℓ} : {A : Type ℓ} → Result A → Bool
wants_retry (ok a) = false
wants_retry (err e) = is_retryable e

-- One attempt and at most `more` further ones; the state `N` counts and records the requests. The
-- waits between attempts change nothing and are left out.
unfoldable pub attempts {ℓ} : {A : Type ℓ} {N : Type 0} → (N → Result A × N) → ℕ → N → Result A × N
unfolding wants_retry
attempts call zero n = call n
attempts call (suc more) n =
    let (r, n') = call n in
    let rest = attempts call more n' in if wants_retry r then rest else (r, n')

-- callRemoteWithRetry with maxAttempts = 3
unfoldable pub call_remote_with_retry {ℓ} :
    {A : Type ℓ} {N : Type 0} → (N → Result A × N) → N → Result A × N
unfolding attempts
call_remote_with_retry call n = attempts call 2 n

-- The state before the attempt with number `k`, counted from 0.
unfoldable pub state_before {ℓ} : {A : Type ℓ} {N : Type 0} → (N → Result A × N) → ℕ → N → N
state_before call zero n = n
state_before call (suc k) n = state_before call k (call n).1

-- The first `k` attempts failed and might be repeated.
abbrev pub Retried {ℓ} : {A : Type ℓ} {N : Type 0} → (N → Result A × N) → ℕ → N → Type 0
Retried call zero n = Unit
Retried call (suc k) n = (wants_retry (call n).0 ≡ true) × Retried call k (call n).1

attempts_exact {ℓ} :
    {A : Type ℓ} {N : Type 0} (call : N → Result A × N) (more : ℕ) (n : N)
    → (k : ℕ) × (k ≤ more)
      × Retried call k n
      × (attempts call more n ≡ call (state_before call k n))
      × ((k ≡ more) ⊎ (wants_retry (call (state_before call k n)).0 ≡ false))
unfolding attempts state_before
attempts_exact call zero n = (0, omega arith, tt, refl, inl refl)
attempts_exact call (suc more) n = elim (Bool-cases (wants_retry (call n).0)) [
  | inl e ↦
      let (k, few, before, same, last) = attempts_exact call more (call n).1 in
      (suc k, omega arith, (e, before), rw e same, ground arith)
  | inr e ↦ (0, omega arith, tt, rw e, inr e)
]

-- A callback is made one to three times: again only after an attempt that failed and may be
-- repeated, and its result is that of the last attempt, which is the third or did not want another.
pub call_remote_with_retry_exact {ℓ} :
    {A : Type ℓ} {N : Type 0} (call : N → Result A × N) (n : N)
    → (k : ℕ) × (k ≤ 2)
      × Retried call k n
      × (call_remote_with_retry call n ≡ call (state_before call k n))
      × ((k ≡ 2) ⊎ (wants_retry (call (state_before call k n)).0 ≡ false))
unfolding call_remote_with_retry
call_remote_with_retry_exact call n = attempts_exact call 2 n
