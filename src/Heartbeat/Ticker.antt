-- ===== src/Heartbeat/Ticker.antt =====
-- cmd/service/main.go: the loop at the end of `main`, which waits for a stop, a kick of the inventory,
-- the ticker or a trigger. The host information of a status is left out of it.
use appcenter_agent_linux.Base.{
  ℕ, ℤ, ◌+◌, ◌++◌, Bool, true, false, not, List, [], ◌∷◌, if◌then◌else◌, Option, none, some, ltb,
}
use appcenter_agent_linux.Text.{Text}
use appcenter_agent_linux.Dedup.{second}
use appcenter_agent_linux.Session.{State}
use appcenter_agent_linux.ServerConfig.{reset_ticker, duration, add}
use appcenter_agent_linux.Inventory.Sync
use appcenter_agent_linux.Inventory.Sync.{send_ws_inventory_hash, refresh_ws_inventory_hash}
use appcenter_agent_linux.Heartbeat.{Host, Env, Around, minutes, current_status, send_heartbeat}

-- The events agent.status and agent.rs.status of one round. `at` is the time that is noted for it, and
-- `interval` the one that was in force.
pub record WsStatus : Type 0 where
  pub at : ℕ
  pub interval : ℤ
  pub current_status : Text
  pub inventory_hash : Text
  pub state : State
  pub session_id : ℤ
  pub helper_running : Bool
  pub helper_pid : ℕ

-- nextWSInventoryScanAt and lastWSStatusAt, none for the zero time, and the statuses sent, newest
-- first
pub record Pulse : Type 0 where
  pub next_ws_inventory_scan_at : Option ℕ
  pub last_ws_status_at : Option ℕ
  pub statuses : List WsStatus

abbrev pub new_pulse : Pulse
new_pulse = record { next_ws_inventory_scan_at = none; last_ws_status_at = none; statuses = [] }

-- What a round of the ticker meets. The clock is read at `now`, at `status_at`, and again `status_delay`
-- later.
pub record Round : Type 0 where
  pub ws_active : Bool
  pub has_client : Bool
  pub now : ℕ
  pub status_at : ℕ
  pub status_delay : ℕ
  pub active_installs : ℕ
  pub scan : Sync.Env
  pub after_status : Sync.Env
  pub around : Around

abbrev pub ws_inventory_scan_interval : ℕ
ws_inventory_scan_interval = minutes 2

-- nextWSInventoryScanAt.IsZero() || now.After(nextWSInventoryScanAt)
unfoldable pub scan_is_due : ℕ → Option ℕ → Bool
scan_is_due now none = true
scan_is_due now (some t) = ltb t now

-- time.Since(lastWSStatusAt) >= wsStatusInterval
unfoldable pub status_is_due : ℕ → ℤ → Option ℕ → Bool
unfolding add
status_is_due now interval none = true
status_is_due now interval (some t) = not (ltb now (add t interval))

-- wsStatusInterval
abbrev pub ws_status_interval : Host → ℤ
ws_status_interval h = duration second h.settings.ws_status_interval_sec

-- The scan of the inventory, or its hash alone
unfoldable pub scan_or_send : Round → Host × Pulse → Host × Pulse
unfolding scan_is_due refresh_ws_inventory_hash send_ws_inventory_hash
scan_or_send x (h, p) =
    if scan_is_due x.now p.next_ws_inventory_scan_at
    then (
      record h { inventory = refresh_ws_inventory_hash x.scan false h.inventory },
      record p { next_ws_inventory_scan_at = some (x.now + ws_inventory_scan_interval) },
    )
    else (record h { inventory = send_ws_inventory_hash x.scan false h.inventory }, p)

unfoldable pub ws_status : Round → Host → WsStatus
unfolding current_status
ws_status x h = record {
  at = x.status_at + x.status_delay;
  interval = ws_status_interval h;
  current_status = current_status x.active_installs h.installer;
  inventory_hash = h.inventory.state_hash;
  state = h.remote.session.state;
  session_id = h.remote.session.session_id;
  helper_running = h.remote.vnc.status.running;
  helper_pid = h.remote.vnc.status.pid;
}

-- The statuses over the WebSocket, with the hash that follows them
unfoldable pub send_status : Round → Host × Pulse → Host × Pulse
unfolding ws_status send_ws_inventory_hash
send_status x (h, p) = (
  record h { inventory = send_ws_inventory_hash x.after_status false h.inventory },
  record p {
    last_ws_status_at = some (x.status_at + x.status_delay);
    statuses = ws_status x h ∷ p.statuses;
  },
)

unfoldable pub status_if_due : Round → Host × Pulse → Host × Pulse
unfolding status_is_due send_status
status_if_due x (h, p) =
    if not x.has_client
    then (h, p)
    else if status_is_due x.status_at (ws_status_interval h) p.last_ws_status_at
    then send_status x (h, p)
    else (h, p)

-- case <-ticker.C
unfoldable pub on_tick : Env → Round → Host × Pulse → Host × Pulse
unfolding status_if_due scan_or_send send_heartbeat
on_tick env x (h, p) =
    if x.ws_active
    then status_if_due x (scan_or_send x (h, p))
    else (send_heartbeat env x.around h, p)

-- What the loop wakes up for: the end of its context or a restart, a kick with wsActive, the ticker, a
-- trigger
pub data Wake : Type 0 where
  stops : Wake
  kicks : Bool → Sync.Env → Wake
  ticks : Round → Wake
  triggers : Around → Wake

-- case <-triggerCh
unfoldable pub on_trigger : Env → Around → Host → Host
unfolding send_heartbeat
on_trigger env x h =
    let k = send_heartbeat env x h in
    record k {
      effects = k.effects ++ reset_ticker (duration second k.settings.heartbeat_interval_sec) ∷ [];
    }

-- The loop, over what it wakes up for
unfoldable pub main_loop : Env → List Wake → Host × Pulse → Host × Pulse
unfolding on_tick on_trigger refresh_ws_inventory_hash
main_loop env [] r = r
main_loop env (stops ∷ ws) r = r
main_loop env (kicks active x ∷ ws) (h, p) =
    let k =
      (if active
        then record h { inventory = refresh_ws_inventory_hash x true h.inventory }
        else h) in
    main_loop env ws (k, p)
main_loop env (ticks x ∷ ws) r = main_loop env ws (on_tick env x r)
main_loop env (triggers x ∷ ws) (h, p) = main_loop env ws (on_trigger env x h, p)
