-- ===== src/Tests/Whole.antt =====
-- The whole agent at concrete inputs: its start, a heartbeat, and requests over the local socket.
use appcenter_agent_linux.Base.{
  ℕ, Option, ◌≡◌, refl, ◌⊎◌, none, pos, true, false, [], ◌∷◌, List, ◌*◌,
}
use appcenter_agent_linux.Text.{codes}
use appcenter_agent_linux.Api.{Error, ok, err, message}
use appcenter_agent_linux.Session.{is_open}
use appcenter_agent_linux.Dedup.{second}
use appcenter_agent_linux.Ipc.{Request, failure}
use appcenter_agent_linux.Ipc.Handler.{Desk, handler}
use appcenter_agent_linux.Ipc.Saved.{state_file, handler_saves}
use appcenter_agent_linux.Announcement.{Push, Board, text}
use appcenter_agent_linux.Announcement.Tracked
use appcenter_agent_linux.Announcement.Tracked.{IsTracked, run-IsTracked}
use appcenter_agent_linux.Services.{ServiceItem}
use appcenter_agent_linux.ServerConfig.{new_settings}
use appcenter_agent_linux.Inventory.Sync
use appcenter_agent_linux.Heartbeat.{
  Env, Around, HeartbeatResponse, ServiceWatch, apply_config, check_self_update, answered,
  service_report,
}
use appcenter_agent_linux.Heartbeat.Config.{
  HeartbeatConfig, heartbeat_config_to_map, heartbeat_config-applied, positive_over,
}
use appcenter_agent_linux.Heartbeat.Policy.{answer_closes_session}
use appcenter_agent_linux.Heartbeat.Reports.{Reported, service_report-Reported}
use appcenter_agent_linux.Heartbeat.Global.{IsGood}
use appcenter_agent_linux.Heartbeat.Loop.{
  Event, heartbeat, local_request, worker_round, announcement_push, run,
}
use appcenter_agent_linux.Startup.{AgentState, Boot, missing, identified, initial_host}
use appcenter_agent_linux.Startup.Ready.{agent_stays-IsGood}
use appcenter_agent_linux.Tests.Remote as R
use appcenter_agent_linux.Tests.Tasks as T
use appcenter_agent_linux.Tests.Agent as A

abbrev pub env : Env
env = record { remote = R.env; tasks = T.env; limits = T.limits }

abbrev ssh : ServiceItem
ssh = record {
  name = codes "ssh.service";
  display_name = codes "ssh";
  status = codes "running";
  startup_type = codes "auto";
  description = [];
}

-- A configuration that disables remote support
abbrev config : HeartbeatConfig
config = record {
  heartbeat_interval_sec = pos 30;
  inventory_sync_required = true;
  services_sync_required = false;
  service_monitoring_enabled = true;
  inventory_scan_interval_min = pos 10;
  remote_support_enabled = false;
  websocket_enabled = false;
  offer = A.offer;
  runtime_update_interval_min = pos 0;
  runtime_update_jitter_sec = pos 0;
}

abbrev response : HeartbeatResponse
response = record {
  config = config;
  commands = T.command ∷ [];
  pending_announcements = [];
  remote_support_request = none;
  remote_support_end = none;
}

abbrev pub stock : Sync.Env
stock = record {
  sha = λ t. codes "ab";
  collected = ok [];
  submit = λ r. none;
  now = 100;
  has_client = true;
  sends_event = λ h. true;
}

abbrev pub around : Around
around = record {
  update = A.works;
  inventory = stock;
  register = ok (codes "key");
  answer = λ r. ok response;
  active_installs = 0;
  collected_services = ok (ssh ∷ []);
  services_hash = λ l. codes "cd";
  services_checked_at = 100;
  services_collected_at = 101;
  update_checked_at = 100;
  update_planned_at = 101;
  inventory_checked_at = 102;
}

abbrev pub state : AgentState
state = record {
  uuid = codes "u-1";
  secret_key = codes "key";
  inventory_hash = [];
  processed_tasks = record { task_id = pos 3; executed_at_unix = pos 900 } ∷ [];
  remote_support_session = R.waiting;
}

abbrev pub boot : Boot
boot = record {
  unmarshal = λ s. err (message (codes "unused"));
  file = missing;
  mkdir_error = none;
  write_error = none;
  config_uuid = [];
  config_secret_key = [];
  new_uuid = codes "u-2";
  remote_support_enabled = true;
  remote_support_port = pos 20010;
  approval_timeout_sec = 120;
  display = codes ":0";
  vnc_env = record {
    x11vnc_path = codes "/usr/bin/x11vnc";
    installed = true;
    display = codes ":0";
  };
  websocket_enabled = false;
  heartbeat_interval_sec = pos 60;
  version = codes "1.0";
  files = A.files;
  register = λ u. ok (codes "key");
  now = 1000 * second;
}

abbrev desk : Desk
desk = record {
  uuid = codes "u-1";
  store = λ n u s. ok [];
  install = λ n u s id. ok (codes "queued");
  probe = λ n. record { x11vnc_path = []; installed = false; display = [] };
}

abbrev approve_request : Request
approve_request = record {
  action = codes " Remote_Support_Approve ";
  app_id = pos 0;
  session_id = pos 7;
  admin_name = [];
  reason = [];
  monitor_count = pos 1;
}

abbrev news : Push
news = record {
  announcement_id = text (codes " 12 ");
  title = codes "News";
  message = [];
  priority = [];
}

abbrev day : List Event
day =
    heartbeat around
    ∷ local_request desk approve_request
    ∷ announcement_push news
    ∷ worker_round
    ∷ heartbeat around
    ∷ []

agent_stays-IsGood_example :
    IsGood env (run env day (initial_host env boot (identified boot state)))
agent_stays-IsGood_example = agent_stays-IsGood env boot state day refl

answer_closes_session_example :
    ((check_self_update around A.offer
        (apply_config (heartbeat_config_to_map config) (initial_host env boot state))).0
      ≡ true)
    ⊎ (is_open
          (answered env around (ok response) (initial_host env boot state)).remote.session.state
        ≡ false)
answer_closes_session_example =
    answer_closes_session env around response (initial_host env boot state) refl

-- Every save of the state file succeeds.
abbrev no_errors : ℕ → Option Error
no_errors n = none

handler_saves_example :
    ((handler R.env desk approve_request R.agent).1.status ≡ failure)
    ⊎ (((handler R.env desk approve_request R.agent).0.saved
          ≡ (handler R.env desk approve_request R.agent).0.session)
        × (state_file no_errors R.waiting (handler R.env desk approve_request R.agent).0.saves
            ≡ (handler R.env desk approve_request R.agent).0.session))
unfolding state_file
handler_saves_example =
    handler_saves no_errors R.waiting R.env desk approve_request R.agent (λ n. refl) refl refl

abbrev watch : ServiceWatch
watch = record { last_services_hash = codes "ab"; next_service_snapshot = 50 }

service_report-Reported_example :
    Reported around
      (new_settings (heartbeat_config_to_map config) A.settings)
      watch
      (service_report around (new_settings (heartbeat_config_to_map config) A.settings) watch)
service_report-Reported_example =
    service_report-Reported around (new_settings (heartbeat_config_to_map config) A.settings) watch

heartbeat_config-applied_example :
    new_settings (heartbeat_config_to_map config) A.settings ≡ record {
      inventory_interval_min = positive_over (pos 10) A.settings.inventory_interval_min;
      service_monitoring_enabled = true;
      service_sync_required = false;
      self_update_interval_min = positive_over (pos 0) A.settings.self_update_interval_min;
      inventory_is_due = true;
      inventory_force_sync = true;
      remote_support_server_enabled = false;
      websocket_enabled = false;
      heartbeat_interval_sec = positive_over (pos 30) A.settings.heartbeat_interval_sec;
      ws_status_interval_sec = A.settings.ws_status_interval_sec;
    }
heartbeat_config-applied_example = heartbeat_config-applied config A.settings

abbrev board : Board
board = record { tracker = []; showing = []; acks = [] }

run-IsTracked_example : IsTracked (
    Tracked.run
      (Tracked.Event.pushes news
        ∷ Tracked.Event.pushes news
        ∷ Tracked.Event.finishes (pos 12) true
        ∷ [])
      board)
run-IsTracked_example =
    run-IsTracked
      (Tracked.Event.pushes news
        ∷ Tracked.Event.pushes news
        ∷ Tracked.Event.finishes (pos 12) true
        ∷ [])
      board (record { distinct = tt; shown = tt })
