-- ===== src/Config.antt =====
-- internal/config/config.go. The nested structs of `Config` are one record, whose fields carry the
-- section's name. The YAML library and the file system are not part of the program: `unmarshal` and
-- `marshal` are parameters, and a file is what reading it gives.
pub mod Defaults
pub mod Update
use appcenter_agent_linux.Base.{
  ◌++◌, ℤ, pos, is_positive, Bool, true, false, List, [], ◌∷◌, if◌then◌else◌, Option, none, some, ℕ,
  ◌||◌,
}
use appcenter_agent_linux.Text.{Text, codes, is_empty}
use appcenter_agent_linux.Api.{Error, message, error_text, Result, ok, err}

pub record Config : Type 0 where
  pub server_url : Text
  pub agent_uuid : Text
  pub agent_secret_key : Text
  pub agent_version : Text
  pub heartbeat_interval_sec : ℤ
  pub download_temp_dir : Text
  pub download_max_size_bytes : ℤ
  pub install_timeout_sec : ℤ
  pub install_queue_capacity : ℤ
  pub install_worker_count : ℤ
  pub logging_file : Text
  pub paths_state_file : Text
  pub ipc_socket_path : Text
  pub websocket_enabled : Bool
  pub websocket_url : Text
  pub websocket_reconnect_min_sec : ℤ
  pub websocket_reconnect_max_sec : ℤ
  pub remote_support_enabled : Bool
  pub remote_support_approval_timeout_sec : ℤ
  pub remote_support_display : Text
  pub remote_support_port : ℤ

-- The default of a text that is empty
unfoldable pub text_or : Text → Text → Text
text_or default t = if is_empty t then default else t

-- The default of a number that is not positive
unfoldable pub int_or : ℕ → ℤ → ℤ
int_or default x = if is_positive x then x else pos default

-- The defaults of `Load`
unfoldable pub with_defaults : Config → Config
unfolding text_or int_or
with_defaults c = record c {
  agent_version = text_or (codes "0.1.55-live") c.agent_version;
  heartbeat_interval_sec = int_or 60 c.heartbeat_interval_sec;
  download_temp_dir = text_or (codes "/var/lib/appcenter-agent/downloads") c.download_temp_dir;
  install_timeout_sec = int_or 1800 c.install_timeout_sec;
  install_queue_capacity = int_or 32 c.install_queue_capacity;
  install_worker_count = int_or 1 c.install_worker_count;
  logging_file = text_or (codes "/var/log/appcenter-agent/agent.log") c.logging_file;
  paths_state_file = text_or (codes "/var/lib/appcenter-agent/state.json") c.paths_state_file;
  ipc_socket_path = text_or (codes "/var/run/appcenter-agent/ipc.sock") c.ipc_socket_path;
  websocket_reconnect_min_sec = int_or 2 c.websocket_reconnect_min_sec;
  websocket_reconnect_max_sec = int_or 60 c.websocket_reconnect_max_sec;
  remote_support_approval_timeout_sec = int_or 30 c.remote_support_approval_timeout_sec;
  remote_support_display = text_or (codes ":0") c.remote_support_display;
  remote_support_port = int_or 20010 c.remote_support_port;
}

-- ResolvePath, with the value of APPCENTER_CONFIG, which is empty when it is not set
unfoldable pub resolve_path : Text → Text → Text
resolve_path explicit environment =
    if is_empty explicit
    then (if is_empty environment then codes "/etc/appcenter-agent/config.yaml" else environment)
    else explicit

-- fmt.Errorf("...: %w", err)
abbrev pub wrap : Text → Error → Error
wrap prefix e = message (prefix ++ codes ": " ++ error_text e)

-- What `Load` does with the parsed file
unfoldable pub check_config : Config → Result Config
unfolding with_defaults
check_config c =
    if is_empty c.server_url
    then err (message (codes "server.url is required"))
    else ok (with_defaults c)

-- Load's second half: the parsing of the file's content
unfoldable pub parse_config : Result Config → Result Config
unfolding check_config
parse_config (err e) = err (wrap (codes "parse config") e)
parse_config (ok c) = check_config c

-- Load, with what reading the file gives
unfoldable pub load : (Text → Result Config) → Result Text → Result Config
unfolding parse_config
load unmarshal (err e) = err (wrap (codes "read config") e)
load unmarshal (ok content) = parse_config (unmarshal content)

-- What os.WriteFile does: a failure gives an error and leaves what it leaves.
pub data Write : Type 0 where
  wrote : Write
  broke : Error → Result Text → Write

-- Save of a configuration into a file: the error, and the file
unfoldable pub save :
    (Config → Result Text) → Config → Write → Result Text → Option Error × Result Text
save marshal c result file = elim (marshal c) [
  | err e ↦ (some (wrap (codes "marshal config") e), file)
  | ok content ↦ elim result [
    | wrote ↦ (none, ok content)
    | broke e left ↦ (some (wrap (codes "write config") e), left)
  ]
]

-- The wrapping of `Save`'s error by UpdateAgentVersion
abbrev pub wrap_save : Option Error × Result Text → Option Error × Result Text
wrap_save (none, file) = (none, file)
wrap_save (some e, file) = (some (wrap (codes "write config") e), file)

-- UpdateAgentVersion after `Load`
unfoldable pub save_version :
    (Config → Result Text) → Text → Result Config → Write → Result Text → Option Error × Result Text
unfolding save
save_version marshal version (err e) result file = (some (wrap (codes "read config") e), file)
save_version marshal version (ok c) result file =
    wrap_save (save marshal (record c { agent_version = version }) result file)

-- UpdateAgentVersion: the error, and the file
unfoldable pub update_agent_version :
    (Text → Result Config)
    → (Config → Result Text)
    → Text
    → Text
    → Write
    → Result Text
    → Option Error × Result Text
unfolding save_version load
update_agent_version unmarshal marshal path version result file =
    if is_empty path || is_empty version
    then (some (message (codes "path and version are required")), file)
    else save_version marshal version (load unmarshal file) result file
