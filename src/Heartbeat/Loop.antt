-- ===== src/Heartbeat/Loop.antt =====
-- cmd/service/main.go: the goroutines of the agent as one sequence of events. A round of the main
-- loop, a callback, a worker's round, a request over the local socket, the end of a prompt, of a
-- notification or of x11vnc, and a refresh of the inventory hash is one event each.
use appcenter_agent_linux.Base.{ℕ, ℤ, Bool, List, [], ◌∷◌, Option}
use appcenter_agent_linux.Text.{Text}
use appcenter_agent_linux.Api.{Error}
use appcenter_agent_linux.Remote.{advance}
use appcenter_agent_linux.Remote.Server.{RemoteSupportRequest, PromptResult}
use appcenter_agent_linux.Remote.Events
use appcenter_agent_linux.Tasks.Command.{Command}
use appcenter_agent_linux.Tasks.Queue.{work}
use appcenter_agent_linux.SelfUpdate.{Offer}
use appcenter_agent_linux.ServerConfig.{Values}
use appcenter_agent_linux.Inventory.Sync
use appcenter_agent_linux.Inventory.Sync.{send_ws_inventory_hash, refresh_ws_inventory_hash}
use appcenter_agent_linux.Announcement.{Push, finish_announcement}
use appcenter_agent_linux.Ipc.{Request}
use appcenter_agent_linux.Ipc.Handler.{Desk}
use appcenter_agent_linux.Heartbeat.{Host, Env, Around, send_heartbeat}
use appcenter_agent_linux.Heartbeat.Callbacks.{
  Hello, on_server_hello, on_server_command, on_rs_request, on_rs_end, on_config_patch,
  on_broadcast_self_update, on_inventory_sync_required, on_announcement_push,
}

pub data Event : Type 0 where
  heartbeat : Around → Event
  server_hello : Around → Hello → Event
  server_command : List Command → Event
  rs_request : Option RemoteSupportRequest → Event
  rs_end : Option ℤ → Event
  config_patch : Around → Option (Values × Option Offer) → Event
  broadcast_self_update : Around → Text → Text → Option Offer → Event
  inventory_sync_required : Event
  announcement_push : Push → Event
  announcement_shown : ℤ → Bool → Event
  hash_sent : Sync.Env → Bool → Event
  hash_refreshed : Sync.Env → Bool → Event
  worker_round : Event
  prompt_closed : ℤ → PromptResult → Event
  vnc_exited : ℕ → Option Error → Event
  local_request : Desk → Request → Event

-- One event of remote support alone
unfoldable pub remote_event : Env → Events.Event → Host → Host
unfolding Events.apply_event
remote_event env e h = record h { remote = Events.apply_event env.remote e h.remote }

unfoldable pub step : Env → Event → Host → Host
unfolding send_heartbeat on_server_hello on_server_command on_rs_request on_rs_end on_config_patch
    on_broadcast_self_update on_inventory_sync_required on_announcement_push finish_announcement
    send_ws_inventory_hash refresh_ws_inventory_hash work remote_event
step env (heartbeat x) h = send_heartbeat env x h
step env (server_hello x m) h = on_server_hello env x m h
step env (server_command commands) h = on_server_command env commands h
step env (rs_request req) h = on_rs_request env req h
step env (rs_end id) h = on_rs_end env id h
step env (config_patch x m) h = on_config_patch env x m h
step env (broadcast_self_update x platform mode offer) h =
    on_broadcast_self_update x platform mode offer h
step env inventory_sync_required h = on_inventory_sync_required h
step env (announcement_push p) h = on_announcement_push p h
step env (announcement_shown id sends) h = record h { board = finish_announcement id sends h.board }
step env (hash_sent x force) h = record h { inventory = send_ws_inventory_hash x force h.inventory }
step env (hash_refreshed x force) h = record h {
  inventory = refresh_ws_inventory_hash x force h.inventory;
}
step env worker_round h = record h { installer = work env.tasks env.limits h.installer }
step env (prompt_closed id r) h = remote_event env (Events.Event.prompts id r) h
step env (vnc_exited pid exit) h = remote_event env (Events.Event.exits pid exit) h
step env (local_request desk req) h = remote_event env (Events.Event.calls desk req) h

-- Time passes before each event.
abbrev pub tick : Host → Host
tick h = record h { remote = record (h.remote) { net = advance h.remote.net } }

unfoldable pub run : Env → List Event → Host → Host
unfolding step
run env [] h = h
run env (e ∷ es) h = run env es (step env e (tick h))
