-- ===== src/Tests/Agent.antt =====
-- The configuration, the self-update, the WebSocket client, the server's settings and the installer at
-- concrete inputs.
use appcenter_agent_linux.Base.{
  ℕ, ◌-◌, ◌^◌, ◌++◌, Bool, List, ◌≡◌, refl, ◌==◌, pos, negsuc, true, false, [], ◌∷◌, All,
  if◌then◌else◌, none, some, arith,
}
use appcenter_agent_linux.Text.{Text, codes, same, trim_space, to_lower, trim_prefix}
use appcenter_agent_linux.Api.{is_ok, message, Result, ok, err}
use appcenter_agent_linux.Config.{Config, load, wrote, update_agent_version}
use appcenter_agent_linux.Config.Defaults.{IsUsable, load-IsUsable}
use appcenter_agent_linux.Config.Update.{update_then_load}
use appcenter_agent_linux.SelfUpdate
use appcenter_agent_linux.SelfUpdate.{Files, Offer, is_forced, maybe_apply_self_update}
use appcenter_agent_linux.SelfUpdate.Swap.{Swapped, maybe_apply_self_update-Swapped, update_once}
use appcenter_agent_linux.Tasks.Command.{sanitize_version_token}
use appcenter_agent_linux.SelfUpdate.Version.{update_config, config_still_loads}
use appcenter_agent_linux.Ws.{new_backoff, run, Network, Message, connect_and_serve, auth_error}
use appcenter_agent_linux.Ws.Waits.{IsBetween, run-IsBetween}
use appcenter_agent_linux.Ws.Handshake.{
  IsHandshake, has_connected, connected_after_auth, connect_and_serve-IsHandshake,
}
use appcenter_agent_linux.ServerConfig.{duration, minute, Values, number, boolean, Settings}
use appcenter_agent_linux.ServerConfig.Laws.{IsPaced, apply_all, apply_all-IsPaced}
use appcenter_agent_linux.Installer
use appcenter_agent_linux.Installer.{exited, install}
use appcenter_agent_linux.Installer.Outcome.{IsHonest, install-IsHonest}

-- A parsed file with a server and a version only
abbrev parsed : Text → Config
parsed version = record {
  server_url = codes "https://srv";
  agent_uuid = [];
  agent_secret_key = [];
  agent_version = version;
  heartbeat_interval_sec = negsuc 4;
  download_temp_dir = [];
  download_max_size_bytes = pos 0;
  install_timeout_sec = pos 0;
  install_queue_capacity = pos 0;
  install_worker_count = pos 0;
  logging_file = [];
  paths_state_file = [];
  ipc_socket_path = [];
  websocket_enabled = true;
  websocket_url = [];
  websocket_reconnect_min_sec = pos 0;
  websocket_reconnect_max_sec = pos 0;
  remote_support_enabled = true;
  remote_support_approval_timeout_sec = pos 0;
  remote_support_display = [];
  remote_support_port = pos 0;
}

abbrev loaded : Text → Config
loaded version = record (parsed version) {
  heartbeat_interval_sec = pos 60;
  download_temp_dir = codes "/var/lib/appcenter-agent/downloads";
  install_timeout_sec = pos 1800;
  install_queue_capacity = pos 32;
  install_worker_count = pos 1;
  logging_file = codes "/var/log/appcenter-agent/agent.log";
  paths_state_file = codes "/var/lib/appcenter-agent/state.json";
  ipc_socket_path = codes "/var/run/appcenter-agent/ipc.sock";
  websocket_reconnect_min_sec = pos 2;
  websocket_reconnect_max_sec = pos 60;
  remote_support_approval_timeout_sec = pos 30;
  remote_support_display = codes ":0";
  remote_support_port = pos 20010;
}

-- A file that starts with `=` has every setting; another has only the version.
abbrev unmarshal : Text → Result Config
unmarshal [] = err (message (codes "EOF"))
unmarshal (c ∷ t) = if c == b'=' then ok (loaded t) else ok (parsed (c ∷ t))

abbrev marshal : Config → Result Text
marshal c = ok (b'=' ∷ c.agent_version)

parsed-loads : load unmarshal (ok (codes "1.0")) ≡ ok (loaded (codes "1.0"))
unfolding load
parsed-loads = refl

load-IsUsable_example : IsUsable (loaded (codes "1.0"))
load-IsUsable_example =
    load-IsUsable unmarshal (ok (codes "1.0")) (loaded (codes "1.0")) parsed-loads

update_then_load_example :
    (update_agent_version unmarshal marshal
        (codes "/etc/a.yaml")
        (codes "1.1")
        wrote
        (ok (codes "1.0"))
      ≡ (none, ok (codes "=1.1")))
    × (load unmarshal (ok (codes "=1.1")) ≡ ok (loaded (codes "1.1")))
update_then_load_example =
    update_then_load unmarshal marshal (codes "/etc/a.yaml") (codes "1.1") (ok (codes "1.0"))
      (loaded (codes "1.0")) (codes "=1.1") refl refl parsed-loads refl refl

-- Every call of the update succeeds, except for the rename of the package in `broken`.
abbrev pub works : SelfUpdate.Env
works = record {
  download = λ url name. ok (codes "new", 3);
  sha256 = λ content. ok (codes "ab");
  executable_error = none;
  chmod_error = none;
  backup_error = none;
  activate_error = none;
  restore_error = none;
  removes_package = true;
  removes_old_backup = true;
  removes_backup = true;
}

abbrev broken : SelfUpdate.Env
broken = record works { activate_error = some (message (codes "EXDEV")) }

abbrev pub files : Files
files = record { downloaded = none; executable = some (codes "old"); backup = none }

abbrev pub offer : Offer
offer = record {
  latest_agent_version = codes " 2.0";
  agent_download_url = codes "/agent";
  agent_hash = codes "AB";
}

maybe_apply_self_update-Swapped_example :
    let r = maybe_apply_self_update broken offer [] (codes "1.0") files in
    Swapped broken
      (trim_space offer.agent_hash)
      (trim_space offer.agent_download_url)
      (codes "agent_self_update_"
        ++ sanitize_version_token (trim_space offer.latest_agent_version)
        ++ codes ".bin")
      (some (codes "old"))
      (r.0, r.1.1)
maybe_apply_self_update-Swapped_example =
    maybe_apply_self_update-Swapped broken offer [] (codes "1.0") files

restored : (maybe_apply_self_update broken offer [] (codes "1.0") files).1 ≡ (codes "1.0", files)
unfolding maybe_apply_self_update trim_space same to_lower trim_prefix
restored = refl

applied : (maybe_apply_self_update works offer [] (codes "1.0") files).0 ≡ true
unfolding maybe_apply_self_update trim_space same to_lower trim_prefix
applied = refl

not_forced : is_forced [] ≡ false
unfolding is_forced same trim_space to_lower
not_forced = refl

update_once_example :
    let r = (maybe_apply_self_update works offer [] (codes "1.0") files).1 in
    maybe_apply_self_update works offer [] r.0 r.1 ≡ (false, r)
update_once_example = update_once works works offer [] (codes "1.0") files not_forced applied

-- Three connections that fail and one that serves, with their draws
abbrev results : List (Bool × ℕ)
results = (true, 0) ∷ (true, 2 ^ 52) ∷ (true, 2 ^ 53 - 1) ∷ (false, 2 ^ 51) ∷ []

run-IsBetween_example :
    All (IsBetween (new_backoff (pos 1) (pos 5))) (run (new_backoff (pos 1) (pos 5)) results)
run-IsBetween_example =
    run-IsBetween (new_backoff (pos 1) (pos 5)) results
      (omega arith, (omega arith, (omega arith, (omega arith, tt))))

-- The waits are of one, two, four and one seconds before their jitter.
waits_of_results :
    run (new_backoff (pos 1) (pos 5)) results ≡ 750000000 ∷ 2000000000 ∷ 4999999999 ∷ 875000000 ∷ []
unfolding run new_backoff
waits_of_results = refl

abbrev network : Network
network = record {
  dial = none;
  send_auth = none;
  read_auth = ok (record { kind = codes "server.auth.ok"; ok_field = false; error_field = [] });
  send_hello = none;
  read_hello = ok (record { kind = codes "server.hello"; ok_field = false; error_field = [] });
  message_loop = some (message (codes "EOF"));
  is_done = false;
}

network_connects : has_connected (connect_and_serve network).1 ≡ true
unfolding connect_and_serve same
network_connects = refl

connected_after_auth_example : (m : Message) × ((network.read_auth ≡ ok m) × (auth_error m ≡ none))
connected_after_auth_example = connected_after_auth network network_connects

connect_and_serve-IsHandshake_example : IsHandshake (connect_and_serve network)
connect_and_serve-IsHandshake_example = connect_and_serve-IsHandshake network

abbrev pub settings : Settings
settings = record {
  inventory_interval_min = 30;
  service_monitoring_enabled = false;
  service_sync_required = false;
  self_update_interval_min = 60;
  inventory_is_due = false;
  inventory_force_sync = false;
  remote_support_server_enabled = false;
  websocket_enabled = false;
  heartbeat_interval_sec = 60;
  ws_status_interval_sec = 300;
}

abbrev values : Values
values =
    (codes "heartbeat_interval_sec", number (negsuc 2))
    ∷ (codes "websocket_enabled", boolean true)
    ∷ (codes "inventory_scan_interval_min", number (pos 10))
    ∷ []

apply_all-IsPaced_example : IsPaced (apply_all (values ∷ values ∷ []) settings)
unfolding duration
apply_all-IsPaced_example =
    apply_all-IsPaced (values ∷ values ∷ []) settings
      ((refl, (refl, (refl, tt))), ((refl, (refl, (refl, tt))), tt))
      (record {
        inventory_paced = refl;
        self_update_paced = refl;
        heartbeat_paced = refl;
        ws_status_paced = refl;
      })

-- An interval of 2 ^ 53 minutes wraps around to nothing.
wrapped_interval : duration minute (2 ^ 53) ≡ pos 0
unfolding duration
wrapped_interval = refl

-- tar works and the archive's script fails with code 3.
abbrev system : Installer.Env
system = record {
  exec = λ n exe args. exited (codes "out") (if n == 0 then pos 0 else pos 3);
  mkdir_error = none;
  has_script = true;
  failure_text = λ exe args code. codes "command failed";
}

install-IsHonest_example : IsHonest (install system (codes "/tmp/a.tar.gz") (codes "-q -y"))
install-IsHonest_example = install-IsHonest system (codes "/tmp/a.tar.gz") (codes "-q -y")

content_loads : is_ok (load unmarshal (ok (codes "1.0"))) ≡ true
unfolding load
content_loads = refl

config_still_loads_example :
    is_ok (
      load unmarshal (
        update_config unmarshal marshal
          (codes "/etc/a.yaml")
          (codes "1.1")
          wrote
          wrote
          (ok (codes "1.0"))))
    ≡ true
config_still_loads_example =
    config_still_loads unmarshal marshal (codes "/etc/a.yaml") (codes "1.1") (codes "1.0")
      content_loads
