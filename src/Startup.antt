-- ===== src/Startup.antt =====
-- internal/state/state.go, and the start of `main` in cmd/service/main.go: the state file and the
-- agent that is made of it. The file system, encoding/json and the random UUID are parameters.
pub mod Ready
use appcenter_agent_linux.Base.{
  ℕ, ◌*◌, ◌++◌, ℤ, is_positive, pos_part, Bool, true, false, List, [], ◌∷◌, if◌then◌else◌, Option,
  none, some,
}
use appcenter_agent_linux.Text.{Text, codes, is_empty}
use appcenter_agent_linux.Api.{Error, message, error_text, Result, ok, err}
use appcenter_agent_linux.Session.{SessionStatus, other, new_session, restore}
use appcenter_agent_linux.Vnc
use appcenter_agent_linux.Vnc.{new_manager}
use appcenter_agent_linux.Remote.{Agent}
use appcenter_agent_linux.Remote.Server.{expire_restored}
use appcenter_agent_linux.Dedup.{ProcessedTask, new_task_deduper, seed, second}
use appcenter_agent_linux.Tasks.Queue.{Installer, persist_task_deduper}
use appcenter_agent_linux.SelfUpdate.{Files}
use appcenter_agent_linux.ServerConfig.{Settings}
use appcenter_agent_linux.Heartbeat.{Host, Env}

pub record AgentState : Type 0 where
  pub uuid : Text
  pub secret_key : Text
  pub inventory_hash : Text
  pub processed_tasks : List ProcessedTask
  pub remote_support_session : SessionStatus

-- What os.ReadFile gives: no such file, another error, or the content
pub data StateFile : Type 0 where
  missing : StateFile
  unreadable : Error → StateFile
  content : Text → StateFile

-- AgentState{}
unfoldable pub empty_state : AgentState
unfolding new_session
empty_state = record {
  uuid = [];
  secret_key = [];
  inventory_hash = [];
  processed_tasks = [];
  remote_support_session = record new_session { state = other [] };
}

-- Load, with json.Unmarshal
unfoldable pub load : (Text → Result AgentState) → StateFile → Result AgentState
unfolding empty_state
load unmarshal missing = ok empty_state
load unmarshal (unreadable e) = err (message (codes "read state: " ++ error_text e))
load unmarshal (content s) = elim (unmarshal s) [
  | err e ↦ err (message (codes "parse state: " ++ error_text e))
  | ok st ↦ ok st
]

-- What Save meets: the errors of the directory and of the file. The encoding does not fail.
unfoldable pub save : Option Error → Option Error → Option Error
save (some e) write_error = some (message (codes "mkdir state dir: " ++ error_text e))
save none (some e) = some (message (codes "write state: " ++ error_text e))
save none none = none

-- The configuration that the start reads, and what it meets
pub record Boot : Type 0 where
  pub unmarshal : Text → Result AgentState
  pub file : StateFile
  pub mkdir_error : Option Error
  pub write_error : Option Error
  pub config_uuid : Text
  pub config_secret_key : Text
  pub new_uuid : Text
  pub remote_support_enabled : Bool
  pub remote_support_port : ℤ
  pub approval_timeout_sec : ℕ
  pub display : Text
  pub vnc_env : Vnc.EnvInfo
  pub websocket_enabled : Bool
  pub heartbeat_interval_sec : ℤ
  pub version : Text
  pub files : Files
  pub register : Text → Result Text
  -- time.Now(), in nanoseconds
  pub now : ℕ

abbrev pub or_else : Text → Text → Text
or_else s d = if is_empty s then d else s

-- The UUID and the secret, where the state file has none
unfoldable pub identified : Boot → AgentState → AgentState
identified boot st = record st {
  uuid = or_else (or_else st.uuid boot.config_uuid) boot.new_uuid;
  secret_key = or_else st.secret_key boot.config_secret_key;
}

-- The variables of remote support, with the session that was restored
unfoldable pub initial_remote : Env → Boot → AgentState → Agent
unfolding restore new_manager expire_restored
initial_remote env boot st = expire_restored env.remote (record {
  enabled = boot.remote_support_enabled;
  server_enabled = false;
  config_port = boot.remote_support_port;
  approval_timeout_sec = boot.approval_timeout_sec;
  secret_key = st.secret_key;
  session = restore st.remote_support_session;
  vnc = new_manager boot.vnc_env boot.display boot.remote_support_port;
  saved = st.remote_support_session;
  saves = [];
  prompts = [];
  net = record { step = 0; sent = [] };
})

-- The first registration, whose failure is only logged
unfoldable pub first_register : Result Text → Agent → Agent
first_register (err e) a = a
first_register (ok secret) a = record a { secret_key = secret }

-- The deduplicator with the tasks of the state file, and an empty queue
unfoldable pub initial_installer : Env → Boot → AgentState → Installer
unfolding new_task_deduper seed persist_task_deduper
initial_installer env boot st = persist_task_deduper env.tasks (record {
  guard = seed (new_task_deduper (30 * 60 * second)) st.processed_tasks boot.now;
  queue = [];
  world = record { step = 0; reports = []; installs = []; removed = [] };
  saved = [];
})

unfoldable pub initial_settings : Boot → Settings
initial_settings boot = record {
  inventory_interval_min = 30;
  service_monitoring_enabled = false;
  service_sync_required = false;
  self_update_interval_min = 60;
  inventory_is_due = true;
  inventory_force_sync = false;
  remote_support_server_enabled = false;
  websocket_enabled = boot.websocket_enabled;
  heartbeat_interval_sec =
      if is_positive boot.heartbeat_interval_sec then pos_part boot.heartbeat_interval_sec else 60;
  ws_status_interval_sec = 5 * 60;
}

-- The agent before its first event
unfoldable pub initial_host : Env → Boot → AgentState → Host
unfolding initial_remote first_register initial_installer initial_settings
initial_host env boot st = record {
  remote = first_register (boot.register st.uuid) (initial_remote env boot st);
  installer = initial_installer env boot st;
  settings = initial_settings boot;
  inventory = record {
    state_hash = st.inventory_hash;
    last_sent = [];
    last_sent_at = 0;
    submits = [];
    sends = [];
  };
  board = record { tracker = []; showing = []; acks = [] };
  services = record { last_services_hash = []; next_service_snapshot = 0 };
  version = boot.version;
  files = boot.files;
  next_self_update_check = boot.now;
  next_inventory_sync = 0;
  heartbeats = [];
  effects = [];
}

-- After Load, and the Save whose error ends the program too
unfoldable pub loaded : Env → Boot → Result AgentState → Result (Text × Host)
unfolding identified save initial_host
loaded env boot (err e) = err e
loaded env boot (ok st) =
    let st' = identified boot st in
    elim (save boot.mkdir_error boot.write_error) [
      | some e ↦ err e
      | none ↦ ok (st'.uuid, initial_host env boot st')
    ]

-- The start of `main`: the UUID and the agent, or the error with which it panics
unfoldable pub start : Env → Boot → Result (Text × Host)
unfolding loaded load
start env boot = loaded env boot (load boot.unmarshal boot.file)
