-- ===== src/Heartbeat.antt =====
-- cmd/service/main.go: `sendHeartbeat` over the whole state of the agent. What it meets outside is
-- `Around`, one for each heartbeat. The host information in a heartbeat is left out of its request.
pub mod Config
pub mod Callbacks
pub mod Loop
pub mod Global
pub mod Steps
pub mod Policy
pub mod Reports
pub mod Kinds
pub mod Refines
pub mod Ticker
pub mod Spaced
use appcenter_agent_linux.Base.{
  ℕ, ◌+◌, ◌*◌, ◌++◌, ℤ, is_positive, Bool, true, false, not, ◌&&◌, ◌||◌, List, [], ◌∷◌,
  if◌then◌else◌, Option, none, some, ltb, length,
}
use appcenter_agent_linux.Text.{Text, codes, trim_space, is_empty, same}
use appcenter_agent_linux.Api.{Error, Result, ok, err}
use appcenter_agent_linux.Dedup.{second}
use appcenter_agent_linux.Session.{State, state_text, is_active}
use appcenter_agent_linux.Remote
use appcenter_agent_linux.Remote.{Agent}
use appcenter_agent_linux.Remote.Server.{
  RemoteSupportRequest, enforce_remote_support_policy, handle_rs_request, handle_rs_end,
  check_daemon,
}
use appcenter_agent_linux.Tasks
use appcenter_agent_linux.Tasks.Command.{Command}
use appcenter_agent_linux.Tasks.Queue.{Installer, Limits, process_commands}
use appcenter_agent_linux.SelfUpdate
use appcenter_agent_linux.SelfUpdate.{Files, Offer, maybe_apply_self_update}
use appcenter_agent_linux.ServerConfig.{
  Settings, Effect, Values, apply_server_config, duration, add, minute,
}
use appcenter_agent_linux.Services.{ServiceItem}
use appcenter_agent_linux.Inventory.Sync
use appcenter_agent_linux.Inventory.Sync.{Inventory, sync_inventory}
use appcenter_agent_linux.Announcement.{Board, Push, process_pending_announcements}
use appcenter_agent_linux.Heartbeat.Config.{HeartbeatConfig, heartbeat_config_to_map}

-- internal/api/client.go: `RemoteSupportHeartbeat`
pub record RemoteSupportHeartbeat : Type 0 where
  pub state : State
  pub session_id : ℤ
  pub helper_running : Bool
  pub helper_pid : ℕ
  pub guacd_host : Text
  pub guacd_reverse_port : ℤ
  pub local_vnc_port : ℤ
  pub server_vnc_password_set : Bool
  pub connection_ready : Bool

-- internal/api/client.go: `HeartbeatRequest`, less the host information
pub record HeartbeatRequest : Type 0 where
  pub agent_version : Text
  pub current_status : Text
  pub inventory_hash : Text
  pub services_hash : Text
  pub services : List ServiceItem
  pub remote_support : RemoteSupportHeartbeat

-- internal/api/client.go: `HeartbeatResponse`
pub record HeartbeatResponse : Type 0 where
  pub config : HeartbeatConfig
  pub commands : List Command
  pub pending_announcements : List Push
  pub remote_support_request : Option RemoteSupportRequest
  pub remote_support_end : Option ℤ

-- lastServicesHash and nextServiceSnapshot
pub record ServiceWatch : Type 0 where
  pub last_services_hash : Text
  pub next_service_snapshot : ℕ

-- The variables of `main`. Times are in nanoseconds; `heartbeats` are the requests sent and `effects`
-- what the settings brought about, newest last.
pub record Host : Type 0 where
  pub remote : Agent
  pub installer : Installer
  pub settings : Settings
  pub inventory : Inventory
  pub board : Board
  pub services : ServiceWatch
  pub version : Text
  pub files : Files
  pub next_self_update_check : ℕ
  pub next_inventory_sync : ℕ
  pub heartbeats : List HeartbeatRequest
  pub effects : List Effect

-- What the parts of the agent meet outside, by the number of their own outside events before
pub record Env : Type 0 where
  pub remote : Remote.Env
  pub tasks : Tasks.Env
  pub limits : Limits

-- What a heartbeat meets outside besides; the times are those of the reads of the clock.
pub record Around : Type 0 where
  pub update : SelfUpdate.Env
  pub inventory : Sync.Env
  pub register : Result Text
  pub answer : HeartbeatRequest → Result HeartbeatResponse
  pub active_installs : ℕ
  pub collected_services : Result (List ServiceItem)
  pub services_hash : List ServiceItem → Text
  pub services_checked_at : ℕ
  pub services_collected_at : ℕ
  pub update_checked_at : ℕ
  pub update_planned_at : ℕ
  pub inventory_checked_at : ℕ

-- currentStatus
unfoldable pub current_status : ℕ → Installer → Text
current_status active installer =
    if ltb 0 active || ltb 0 (length installer.queue) then codes "Busy" else codes "Idle"

abbrev pub minutes : ℕ → ℕ
minutes n = n * minute

-- What a heartbeat reports of the services: the hash and the list
abbrev pub ServiceReport : Type 0
ServiceReport = Text × List ServiceItem

-- The service report after Collect
unfoldable pub collected_report :
    Around → Settings → Result (List ServiceItem) → ServiceWatch → ServiceReport × ServiceWatch
unfolding same add duration
collected_report x s (err e) w = (([], []), w)
collected_report x s (ok items) w =
    let h = x.services_hash items in
    let services =
      (if s.service_sync_required || not (same h w.last_services_hash) then items else []) in
    (
      (h, services),
      record {
        last_services_hash = h;
        next_service_snapshot =
            add x.services_collected_at (duration minute s.inventory_interval_min);
      },
    )

-- Whether a heartbeat collects the services
unfoldable pub collects_services : Around → Settings → ServiceWatch → Bool
collects_services x s w =
    s.service_sync_required
    || (is_empty w.last_services_hash || ltb w.next_service_snapshot x.services_checked_at)

unfoldable pub service_report : Around → Settings → ServiceWatch → ServiceReport × ServiceWatch
unfolding collects_services collected_report
service_report x s w =
    if not s.service_monitoring_enabled
    then (([], []), w)
    else if collects_services x s w
    then collected_report x s x.collected_services w
    else ((w.last_services_hash, []), w)

-- The remote support part of a heartbeat. A session state is never one with blanks around it.
unfoldable pub remote_support_heartbeat : Agent → RemoteSupportHeartbeat
remote_support_heartbeat a = record {
  state = a.session.state;
  session_id = a.session.session_id;
  helper_running = a.vnc.status.running;
  helper_pid = a.vnc.status.pid;
  guacd_host = trim_space a.session.guacd_host;
  guacd_reverse_port = a.session.guacd_reverse_port;
  local_vnc_port = a.session.local_vnc_port;
  server_vnc_password_set = a.session.server_vnc_password_set;
  connection_ready =
      is_active a.session.state && (a.vnc.status.running && is_positive a.session.local_vnc_port);
}

unfoldable pub heartbeat_request : Around → ServiceReport → Host → HeartbeatRequest
unfolding current_status remote_support_heartbeat
heartbeat_request x report h = record {
  agent_version = h.version;
  current_status = current_status x.active_installs h.installer;
  inventory_hash = h.inventory.state_hash;
  services_hash = report.0;
  services = report.1;
  remote_support = remote_support_heartbeat h.remote;
}

-- applyServerConfig, with the variable that remote support reads
unfoldable pub apply_config : Values → Host → Host
unfolding apply_server_config
apply_config m h =
    let (s, effects) = apply_server_config m h.settings in
    record h {
      settings = s;
      remote = record (h.remote) { server_enabled = s.remote_support_server_enabled };
      effects = h.effects ++ effects;
    }

-- maybeApplySelfUpdate on the agent's version and files
unfoldable pub self_update : Around → Offer → Text → Host → Bool × Host
unfolding maybe_apply_self_update
self_update x offer mode h =
    let (applied, (version, files)) =
      maybe_apply_self_update x.update offer mode h.version h.files in
    (applied, record h { version = version; files = files })

-- The self-update check, where it is due
unfoldable pub check_self_update : Around → Offer → Host → Bool × Host
unfolding self_update add duration
check_self_update x offer h =
    let next = add x.update_planned_at (duration minute h.settings.self_update_interval_min) in
    if ltb h.next_self_update_check x.update_checked_at
    then self_update x offer (codes "normal") (record h { next_self_update_check = next })
    else (false, h)

-- The inventory part after syncInventory
unfoldable pub synced : Around → Bool × Inventory → Host → Host
unfolding add duration
synced x (true, inv) h = record h {
  inventory = inv;
  settings = record (h.settings) { inventory_is_due = false; inventory_force_sync = false };
  next_inventory_sync =
      add x.inventory_checked_at (duration minute h.settings.inventory_interval_min);
}
synced x (false, inv) h = record h {
  inventory = inv;
  settings = record (h.settings) { inventory_is_due = false };
  next_inventory_sync = x.inventory_checked_at + minutes 2;
}

unfoldable pub sync_if_due : Around → Host → Host
unfolding synced sync_inventory
sync_if_due x h =
    if h.settings.inventory_is_due || ltb h.next_inventory_sync x.inventory_checked_at
    then synced x (sync_inventory x.inventory h.settings.inventory_force_sync h.inventory) h
    else h

-- enforceRemoteSupportPolicy, handleRSRequest and handleRSEnd
unfoldable pub remote_messages : Remote.Env → Option RemoteSupportRequest → Option ℤ → Agent → Agent
unfolding enforce_remote_support_policy handle_rs_request handle_rs_end
remote_messages env req id a =
    handle_rs_end env id (handle_rs_request env req (enforce_remote_support_policy env a).0)

-- What follows the self-update check of a heartbeat
unfoldable pub take_response : Env → Around → HeartbeatResponse → Bool × Host → Host
unfolding remote_messages process_pending_announcements sync_if_due process_commands
take_response env x resp (true, h) = h
take_response env x resp (false, h) =
    let h1 = record h {
      remote =
          remote_messages env.remote resp.remote_support_request resp.remote_support_end h.remote;
      board = process_pending_announcements resp.pending_announcements h.board;
    } in
    let h2 = sync_if_due x h1 in
    record h2 { installer = process_commands env.tasks env.limits resp.commands h2.installer }

-- sendHeartbeat after the answer of the server
unfoldable pub answered : Env → Around → Result HeartbeatResponse → Host → Host
unfolding take_response check_self_update apply_config
answered env x (err e) h = h
answered env x (ok resp) h =
    take_response env x resp
      (check_self_update x resp.config.offer (apply_config (heartbeat_config_to_map resp.config) h))

-- sendHeartbeat of a registered agent
unfoldable pub beat : Env → Around → Host → Host
unfolding check_daemon service_report heartbeat_request answered
beat env x h =
    let (report, watch) = service_report x h.settings h.services in
    let h1 = record h { remote = check_daemon env.remote h.remote } in
    let req = heartbeat_request x report h1 in
    answered env x (x.answer req)
      (record h1 { services = watch; heartbeats = h.heartbeats ++ req ∷ [] })

unfoldable pub registered : Env → Around → Result Text → Host → Host
unfolding beat
registered env x (err e) h = h
registered env x (ok secret) h =
    beat env x (record h { remote = record (h.remote) { secret_key = secret } })

-- sendHeartbeat
unfoldable pub send_heartbeat : Env → Around → Host → Host
unfolding registered beat
send_heartbeat env x h =
    if is_empty h.remote.secret_key then registered env x x.register h else beat env x h
