-- ===== src/Heartbeat/Policy.antt =====
-- cmd/service/main.go: what the server's switch does to remote support, by a heartbeat and by a
-- configuration patch.
use appcenter_agent_linux.Base.{
  ℤ, Bool, true, false, ◌&&◌, ◌||◌, Option, none, some, ◌≡◌, refl, ◌⊎◌, inl, inr, ◌∙◌, ap, arith,
  if_both, ltb,
}
use appcenter_agent_linux.Api.{ok}
use appcenter_agent_linux.Session.{is_open, end, reset_connection}
use appcenter_agent_linux.Remote
use appcenter_agent_linux.Remote.{Agent, stop_vnc, persist}
use appcenter_agent_linux.Remote.Server.{
  RemoteSupportRequest, enforce_remote_support_policy, handle_rs_request, handle_rs_end, terminate,
  request_allowed, end_by_server, end_session, report_ended,
}
use appcenter_agent_linux.SelfUpdate.{Offer}
use appcenter_agent_linux.ServerConfig.{Settings, apply_server_config}
use appcenter_agent_linux.Inventory.Sync.{Inventory}
use appcenter_agent_linux.Heartbeat.{
  Host, Env, Around, HeartbeatResponse, apply_config, self_update, check_self_update, synced,
  sync_if_due, remote_messages, take_response, answered,
}
use appcenter_agent_linux.Heartbeat.Config.{
  HeartbeatConfig, heartbeat_config_to_map, heartbeat_config-applied,
}

-- Remote support is off, by the configuration or by the server, and no session is open.
record IsOff (a : Agent) : Type 0 where
  off : (a.enabled && a.server_enabled) ≡ false
  closed : is_open a.session.state ≡ false

module _ (env : Remote.Env) where
  enforce-IsOff :
      (a : Agent)
      → (a.enabled && a.server_enabled) ≡ false
      → IsOff (enforce_remote_support_policy env a).0
        × ((enforce_remote_support_policy env a).1 ≡ false)
  unfolding enforce_remote_support_policy terminate stop_vnc end_session report_ended persist end
      reset_connection
  enforce-IsOff a h = ground arith

  ignored-IsOff :
      (req : RemoteSupportRequest) (r : Agent × Bool)
      → IsOff r.0 × (r.1 ≡ false)
      → IsOff (request_allowed env req r)
  unfolding request_allowed
  ignored-IsOff req (a, false) p = p.0
  ignored-IsOff req (a, true) p = ground arith

  request-IsOff :
      (req : Option RemoteSupportRequest) (a : Agent)
      → IsOff a
      → IsOff (handle_rs_request env req a)
  unfolding handle_rs_request
  request-IsOff none a o = o
  request-IsOff (some req) a o =
      ignored-IsOff req (enforce_remote_support_policy env a) (enforce-IsOff a o.off)

  end-IsOff : (id : Option ℤ) (a : Agent) → IsOff a → IsOff (handle_rs_end env id a)
  unfolding handle_rs_end end_by_server stop_vnc end_session report_ended persist end
      reset_connection
  end-IsOff none a o = o
  end-IsOff (some id) a o = ground arith

  messages-IsOff :
      (req : Option RemoteSupportRequest) (id : Option ℤ) (a : Agent)
      → (a.enabled && a.server_enabled) ≡ false
      → IsOff (remote_messages env req id a)
  unfolding remote_messages
  messages-IsOff req id a h = end-IsOff id _ (request-IsOff req _ (enforce-IsOff a h).0)

synced-remote : (x : Around) (r : Bool × Inventory) (h : Host) → (synced x r h).remote ≡ h.remote
unfolding synced
synced-remote x (true, inv) h = refl
synced-remote x (false, inv) h = refl

pub sync_if_due-remote : (x : Around) (h : Host) → (sync_if_due x h).remote ≡ h.remote
unfolding sync_if_due
sync_if_due-remote x h =
    if_both (λ (k : Host). k.remote ≡ h.remote)
      (h.settings.inventory_is_due || ltb h.next_inventory_sync x.inventory_checked_at)
      (synced-remote x _ h) refl

check_self_update-remote :
    (x : Around) (offer : Offer) (h : Host) → (check_self_update x offer h).1.remote ≡ h.remote
unfolding check_self_update self_update
check_self_update-remote x offer h =
    if_both (λ (r : Bool × Host). r.1.remote ≡ h.remote)
      (ltb h.next_self_update_check x.update_checked_at) refl refl

switched_off :
    (c : HeartbeatConfig) (h : Host)
    → c.remote_support_enabled ≡ false
    → (apply_config (heartbeat_config_to_map c) h).remote.server_enabled ≡ false
unfolding apply_config apply_server_config
switched_off c h e =
    ap (λ (s : Settings). s.remote_support_server_enabled) (heartbeat_config-applied c h.settings)
    ∙ e

taken :
    (env : Env) (x : Around) (resp : HeartbeatResponse) (r : Bool × Host)
    → r.1.remote.server_enabled ≡ false
    → (r.0 ≡ true) ⊎ (is_open (take_response env x resp r).remote.session.state ≡ false)
unfolding take_response
taken env x resp (true, h) e = inl refl
taken env x resp (false, h) e =
    let o =
      messages-IsOff env.remote resp.remote_support_request resp.remote_support_end h.remote
        (ground arith) in
    inr (ap (λ (a : Agent). is_open a.session.state) (sync_if_due-remote x _) ∙ o.closed)

-- After a heartbeat whose answer disables remote support, no session is open, unless the heartbeat
-- ended with a self-update that was applied.
pub answer_closes_session :
    (env : Env) (x : Around) (resp : HeartbeatResponse) (h : Host)
    → resp.config.remote_support_enabled ≡ false
    → ((check_self_update x resp.config.offer
          (apply_config (heartbeat_config_to_map resp.config) h)).0
        ≡ true)
      ⊎ (is_open (answered env x (ok resp) h).remote.session.state ≡ false)
unfolding answered
answer_closes_session env x resp h e =
    let h1 = apply_config (heartbeat_config_to_map resp.config) h in
    taken env x resp (check_self_update x resp.config.offer h1) (
      ap (λ (a : Agent). a.server_enabled) (check_self_update-remote x resp.config.offer h1)
      ∙ switched_off resp.config h e)
