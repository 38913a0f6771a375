-- ===== src/Remote/Requests.antt =====
-- Which requests the callbacks of remote support put on the wire.
use appcenter_agent_linux.Base.{
  ℕ, zero, suc, ◌≤◌, ◌++◌, ℤ, is_positive, Bool, true, false, not, ◌||◌, [], ◌∷◌, ◌≡◌, refl, ap,
  ◌∙◌, ◌⊎◌, inl, inr, replicate, append-nil, append_assoc,
}
use appcenter_agent_linux.Text.{Text, codes, trim_space, is_empty}
use appcenter_agent_linux.Api.{
  Result, RemoteCall, approve_call, ready_call, ended_call, remote_approve_request,
  remote_ready_request,
}
use appcenter_agent_linux.Api.Retry.{
  call_remote_with_retry, call_remote_with_retry_exact, state_before,
}
use appcenter_agent_linux.Remote.{
  Net, Env, record_call, send_remote_approve, send_plain, send_remote_ready, send_remote_ended,
}

-- Every attempt records the same request.
abbrev Records {ℓ} : {A : Type ℓ} → RemoteCall → (Net → Result A × Net) → Type 0
Records c call = (n : Net) → (call n).1.sent ≡ n.sent ++ c ∷ []

sent-state_before {ℓ} :
    {A : Type ℓ} (c : RemoteCall) (call : Net → Result A × Net) (k : ℕ) (n : Net)
    → Records c call
    → (state_before call k n).sent ≡ n.sent ++ replicate k c
unfolding state_before
sent-state_before c call zero n h = rw append-nil
sent-state_before c call (suc k) n h =
    sent-state_before c call k (call n).1 h ∙ rw h (append_assoc n.sent (c ∷ []) (replicate k c))

replicate-snoc : (k : ℕ) (c : RemoteCall) → replicate k c ++ c ∷ [] ≡ c ∷ replicate k c
replicate-snoc zero c = refl
replicate-snoc (suc k) c = ap (◌∷◌ c) (replicate-snoc k c)

-- One to three copies of the request `c` were sent.
abbrev pub SentOneToThree : RemoteCall → Net → Net → Type 0
SentOneToThree c n n' = (k : ℕ) × (k ≤ 2) × (n'.sent ≡ n.sent ++ c ∷ replicate k c)

retry-sent {ℓ} :
    {A : Type ℓ} (c : RemoteCall) (call : Net → Result A × Net) (n : Net)
    → Records c call
    → SentOneToThree c n (call_remote_with_retry call n).1
retry-sent c call n h =
    let (k, few, before, same, last) = call_remote_with_retry_exact call n in
    (
      k,
      few,
      ap (λ r. r.1.sent) same
          ∙ h (state_before call k n)
          ∙ ap (λ s. s ++ c ∷ []) (sent-state_before c call k n h)
          ∙ append_assoc n.sent (replicate k c) (c ∷ [])
          ∙ ap (◌++◌ n.sent) (replicate-snoc k c),
    )

-- A callback is not sent at all for an id that is not positive or before the agent is registered;
-- otherwise its one request is sent one to three times.
abbrev pub Sends : Text → ℤ → RemoteCall → Net → Net → Type 0
Sends secret id c n n' =
    (((not (is_positive id) || is_empty (trim_space secret)) ≡ true) × (n' ≡ n))
    ⊎ (((not (is_positive id) || is_empty (trim_space secret)) ≡ false) × SentOneToThree c n n')

send_plain-Sends :
    (env : Env) (secret : Text) (id : ℤ) (c : RemoteCall) (n : Net)
    → Sends secret id c n (send_plain env secret id c n).1
unfolding send_plain
send_plain-Sends env secret id c n = go (is_positive id) (is_empty (trim_space secret)) refl refl
  where
    go :
        (p e : Bool)
        → is_positive id ≡ p
        → is_empty (trim_space secret) ≡ e
        → Sends secret id c n (send_plain env secret id c n).1
    go false e hp he = inl (rw hp, rw hp)
    go true true hp he = inl (rw (hp, he), rw (hp, he))
    go true false hp he = inr (
      rw (hp, he),
      rw (hp, he) (retry-sent c (λ m. (env.reply m.step c, record_call c m)) n (λ m. refl)),
    )

send_remote_approve-Sends :
    (env : Env) (secret : Text) (id : ℤ) (approved : Bool) (count : ℤ) (n : Net)
    → Sends secret id
        (approve_call id (remote_approve_request approved count))
        n
        (send_remote_approve env secret id approved count n).1
unfolding send_remote_approve
send_remote_approve-Sends env secret id approved count n =
    go (is_positive id) (is_empty (trim_space secret)) refl refl
  where
    c : RemoteCall
    c = approve_call id (remote_approve_request approved count)

    go :
        (p e : Bool)
        → is_positive id ≡ p
        → is_empty (trim_space secret) ≡ e
        → Sends secret id
            (approve_call id (remote_approve_request approved count))
            n
            (send_remote_approve env secret id approved count n).1
    go false e hp he = inl (rw hp, rw hp)
    go true true hp he = inl (rw (hp, he), rw (hp, he))
    go true false hp he = inr (
      rw (hp, he),
      rw (hp, he)
          (retry-sent (approve_call id (remote_approve_request approved count)) _ n (λ m. refl)),
    )

-- The approve, ready and ended requests of a session are not sent for an id that is not positive or
-- without a secret key, and else one to three times.
pub callbacks-Sends :
    (env : Env) (secret : Text) (id : ℤ) (approved : Bool) (count port : ℤ) (reason : Text)
    (n : Net)
    → Sends secret id
        (approve_call id (remote_approve_request approved count))
        n
        (send_remote_approve env secret id approved count n).1
      × Sends secret id
          (ready_call id (remote_ready_request port))
          n
          (send_remote_ready env secret id port n).1
      × Sends secret id
          (ended_call id (record { ended_by = codes "agent"; reason = reason }))
          n
          (send_remote_ended env secret id reason n).1
unfolding send_remote_ready send_remote_ended
callbacks-Sends env secret id approved count port reason n = (
  send_remote_approve-Sends env secret id approved count n,
  send_plain-Sends env secret id (ready_call id (remote_ready_request port)) n,
  send_plain-Sends env secret id
      (ended_call id (record { ended_by = codes "agent"; reason = reason })) n,
)
