-- ===== src/Heartbeat/Kinds.antt =====
-- cmd/service/main.go: what each event of the agent may do with a remote support session.
use appcenter_agent_linux.Base.{
  ◌||◌, Bool, true, false, List, [], ◌∷◌, Option, none, some, ◌≡◌, refl, arith,
}
use appcenter_agent_linux.Remote.Server.{RemoteSupportRequest}
use appcenter_agent_linux.Session.{State}
use appcenter_agent_linux.Remote.Protocol.{
  Kind, opens, accepts, refuses, loses, ends, clears, Moves,
}
use appcenter_agent_linux.Remote.Refines.{nothing, action_kinds}
use appcenter_agent_linux.Ipc.Handler.{action_of}
use appcenter_agent_linux.Heartbeat.Loop.{
  Event, heartbeat, server_hello, server_command, rs_request, rs_end, config_patch,
  broadcast_self_update, inventory_sync_required, announcement_push, announcement_shown, hash_sent,
  hash_refreshed, worker_round, prompt_closed, vnc_exited, local_request,
}

-- What the server's policy may do with the session: a request that waits too long is refused, and an
-- open session is ended.
unfoldable pub policy_kinds : Kind → Bool
policy_kinds refuses = true
policy_kinds ends = true
policy_kinds _ = false

-- What a request of the server may do, where it has one
unfoldable pub request_kinds : Option RemoteSupportRequest → Kind → Bool
request_kinds none k = false
request_kinds (some req) opens = true
request_kinds (some req) accepts = true
request_kinds (some req) refuses = true
request_kinds (some req) ends = true
request_kinds (some req) _ = false

-- What a heartbeat may do, with the request that its answer may have
unfoldable pub beat_kinds : Kind → Bool
beat_kinds clears = false
beat_kinds _ = true

unfoldable pub only_ends : Kind → Bool
only_ends ends = true
only_ends _ = false

unfoldable pub prompt_kinds : Kind → Bool
prompt_kinds accepts = true
prompt_kinds refuses = true
prompt_kinds _ = false

-- What each event may do with the session
unfoldable pub kinds : Event → Kind → Bool
unfolding policy_kinds request_kinds beat_kinds only_ends prompt_kinds action_kinds
kinds (heartbeat x) = beat_kinds
kinds (server_hello x m) = λ k. request_kinds m.request k || policy_kinds k
kinds (rs_request req) = request_kinds req
kinds (rs_end id) = only_ends
kinds (config_patch x c) = policy_kinds
kinds (prompt_closed id r) = prompt_kinds
kinds (local_request desk req) = action_kinds (action_of req)
kinds (server_command cmds) = nothing
kinds (broadcast_self_update x platform mode offer) = nothing
kinds inventory_sync_required = nothing
kinds (announcement_push p) = nothing
kinds (announcement_shown id sends) = nothing
kinds (hash_sent x force) = nothing
kinds (hash_refreshed x force) = nothing
kinds worker_round = nothing
kinds (vnc_exited pid exit) = nothing

-- The session goes through these events, in each by moves of its kinds only.
pub data Trace : List Event → State → State → Type 0 where
  nil : {s : State} → Trace [] s s
  cons :
      {e : Event} {es : List Event} {s t u : State}
      → Moves (kinds e) s t
      → Trace es t u
      → Trace (e ∷ es) s u

pub or-left : (a b : Bool) → a ≡ true → (a || b) ≡ true
or-left a b h = ground arith

pub or-right : (a b : Bool) → b ≡ true → (a || b) ≡ true
or-right a b h = ground arith

pub request-beat :
    (req : Option RemoteSupportRequest) (k : Kind)
    → request_kinds req k ≡ true
    → beat_kinds k ≡ true
unfolding request_kinds beat_kinds
request-beat req opens h = refl
request-beat req accepts h = refl
request-beat req refuses h = refl
request-beat req loses h = refl
request-beat req ends h = refl
request-beat none clears h = ground arith
request-beat (some req) clears h = ground arith
