-- ===== src/Heartbeat/Spaced.antt =====
-- cmd/service/main.go: how far apart the statuses over the WebSocket are.
use appcenter_agent_linux.Base.{
  ℕ, true, false, not, List, [], ◌∷◌, Option, none, some, ltb, ◌≡◌, refl, subst, arith, if_both,
  if_split,
}
use appcenter_agent_linux.ServerConfig.{add}
use appcenter_agent_linux.Heartbeat.{Host, Env}
use appcenter_agent_linux.Heartbeat.Ticker.{
  WsStatus, Pulse, new_pulse, Round, Wake, stops, kicks, ticks, triggers, ws_status,
  ws_status_interval, status_is_due, scan_is_due, scan_or_send, send_status, status_if_due, on_tick,
  main_loop,
}

-- Each status is noted at least its interval after the one before.
unfoldable pub IsSpaced : List WsStatus → Type 0
IsSpaced [] = Unit
IsSpaced (a ∷ []) = Unit
IsSpaced (a ∷ b ∷ l) = (ltb a.at (add b.at a.interval) ≡ false) × IsSpaced (b ∷ l)

-- The time of the newest status
unfoldable newest : List WsStatus → Option ℕ
newest [] = none
newest (a ∷ l) = some a.at

-- The noted time is that of the newest status, and the statuses are spaced.
record IsPaced (p : Pulse) : Type 0 where
  noted : p.last_ws_status_at ≡ newest p.statuses
  spaced : IsSpaced p.statuses

send-IsSpaced :
    (x : Round) (h : Host) (l : List WsStatus)
    → status_is_due x.status_at (ws_status_interval h) (newest l) ≡ true
    → IsSpaced l
    → IsSpaced (ws_status x h ∷ l)
unfolding IsSpaced newest status_is_due ws_status
send-IsSpaced x h [] e v = tt
send-IsSpaced x h (b ∷ l) e v = (ground arith, v)

scan-statuses : (x : Round) (h : Host) (p : Pulse) → IsPaced p → IsPaced (scan_or_send x (h, p)).1
unfolding scan_or_send
scan-statuses x h p v =
    if_both (λ (r : Host × Pulse). IsPaced r.1) (scan_is_due x.now p.next_ws_inventory_scan_at)
      (record { noted = v.noted; spaced = v.spaced }) v

send-IsPaced :
    (x : Round) (h : Host) (p : Pulse)
    → status_is_due x.status_at (ws_status_interval h) p.last_ws_status_at ≡ true
    → IsPaced p
    → IsPaced (send_status x (h, p)).1
unfolding send_status newest ws_status
send-IsPaced x h p e v = record {
  noted = refl;
  spaced =
      send-IsSpaced x h p.statuses
        (subst (λ (t : Option ℕ). status_is_due x.status_at (ws_status_interval h) t ≡ true) v.noted
          e)
        v.spaced;
}

status-IsPaced : (x : Round) (r : Host × Pulse) → IsPaced r.1 → IsPaced (status_if_due x r).1
unfolding status_if_due
status-IsPaced x (h, p) v =
    if_both (λ (r : Host × Pulse). IsPaced r.1) (not x.has_client) v
      (if_split (λ (r : Host × Pulse). IsPaced r.1)
        (status_is_due x.status_at (ws_status_interval h) p.last_ws_status_at)
        (λ e. send-IsPaced x h p e v) (λ e. v))

tick-IsPaced :
    (env : Env) (x : Round) (r : Host × Pulse) → IsPaced r.1 → IsPaced (on_tick env x r).1
unfolding on_tick
tick-IsPaced env x (h, p) v =
    if_both (λ (r : Host × Pulse). IsPaced r.1) x.ws_active
      (status-IsPaced x (scan_or_send x (h, p)) (scan-statuses x h p v)) v

loop-IsPaced :
    (env : Env) (ws : List Wake) (r : Host × Pulse) → IsPaced r.1 → IsPaced (main_loop env ws r).1
unfolding main_loop
loop-IsPaced env [] r v = v
loop-IsPaced env (stops ∷ ws) r v = v
loop-IsPaced env (kicks active x ∷ ws) (h, p) v = loop-IsPaced env ws (_, p) v
loop-IsPaced env (ticks x ∷ ws) r v = loop-IsPaced env ws (on_tick env x r) (tick-IsPaced env x r v)
loop-IsPaced env (triggers x ∷ ws) (h, p) v = loop-IsPaced env ws (_, p) v

-- From the start of the main loop on, whatever it wakes up for, each status over the WebSocket is
-- noted at least the status interval then in force after the one before.
pub main_loop-IsSpaced :
    (env : Env) (ws : List Wake) (h : Host) → IsSpaced (main_loop env ws (h, new_pulse)).1.statuses
unfolding IsSpaced newest
main_loop-IsSpaced env ws h =
    (loop-IsPaced env ws (h, new_pulse) (record { noted = refl; spaced = tt })).spaced
