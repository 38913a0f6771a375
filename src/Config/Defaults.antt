-- ===== src/Config/Defaults.antt =====
-- internal/config/config.go: what `Load` guarantees of its result.
use appcenter_agent_linux.Base.{
  ◌≡◌, refl, ap, ◌∙◌, sym, subst, ℤ, pos, is_positive, true, false, [], ◌∷◌, ℕ, arith,
}
use appcenter_agent_linux.Text.{Text, codes, is_empty}
use appcenter_agent_linux.Api.{Result, ok, err}
use appcenter_agent_linux.Config.{
  Config, text_or, int_or, with_defaults, check_config, parse_config, load,
}

-- That the agent can run with a configuration: no required text is empty, and every interval,
-- timeout, capacity and port is positive.
pub record IsUsable (c : Config) : Type 0 where
  pub good_server_url : is_empty c.server_url ≡ false
  pub good_agent_version : is_empty c.agent_version ≡ false
  pub good_heartbeat_interval_sec : is_positive c.heartbeat_interval_sec ≡ true
  pub good_download_temp_dir : is_empty c.download_temp_dir ≡ false
  pub good_install_timeout_sec : is_positive c.install_timeout_sec ≡ true
  pub good_install_queue_capacity : is_positive c.install_queue_capacity ≡ true
  pub good_install_worker_count : is_positive c.install_worker_count ≡ true
  pub good_logging_file : is_empty c.logging_file ≡ false
  pub good_paths_state_file : is_empty c.paths_state_file ≡ false
  pub good_ipc_socket_path : is_empty c.ipc_socket_path ≡ false
  pub good_websocket_reconnect_min_sec : is_positive c.websocket_reconnect_min_sec ≡ true
  pub good_websocket_reconnect_max_sec : is_positive c.websocket_reconnect_max_sec ≡ true
  pub good_remote_support_approval_timeout_sec :
      is_positive c.remote_support_approval_timeout_sec ≡ true
  pub good_remote_support_display : is_empty c.remote_support_display ≡ false
  pub good_remote_support_port : is_positive c.remote_support_port ≡ true

text_or-filled : (d t : Text) → is_empty d ≡ false → is_empty (text_or d t) ≡ false
unfolding text_or
text_or-filled d [] h = h
text_or-filled d (x ∷ t) h = refl

int_or-is_positive : (d : ℕ) (x : ℤ) → is_positive (pos d) ≡ true → is_positive (int_or d x) ≡ true
unfolding int_or
int_or-is_positive d x h = ground arith

text_or_idem : (d t : Text) → text_or d (text_or d t) ≡ text_or d t
unfolding text_or
text_or_idem [] [] = refl
text_or_idem (c ∷ d) [] = refl
text_or_idem d (x ∷ t) = refl

int_or_idem : (d : ℕ) (x : ℤ) → int_or d (int_or d x) ≡ int_or d x
unfolding int_or
int_or_idem d x = ground arith

with_defaults-IsUsable : (c : Config) → is_empty c.server_url ≡ false → IsUsable (with_defaults c)
unfolding with_defaults
with_defaults-IsUsable c h = record {
  good_server_url = h;
  good_agent_version = text_or-filled (codes "0.1.55-live") c.agent_version refl;
  good_heartbeat_interval_sec = int_or-is_positive 60 c.heartbeat_interval_sec refl;
  good_download_temp_dir =
      text_or-filled (codes "/var/lib/appcenter-agent/downloads") c.download_temp_dir refl;
  good_install_timeout_sec = int_or-is_positive 1800 c.install_timeout_sec refl;
  good_install_queue_capacity = int_or-is_positive 32 c.install_queue_capacity refl;
  good_install_worker_count = int_or-is_positive 1 c.install_worker_count refl;
  good_logging_file =
      text_or-filled (codes "/var/log/appcenter-agent/agent.log") c.logging_file refl;
  good_paths_state_file =
      text_or-filled (codes "/var/lib/appcenter-agent/state.json") c.paths_state_file refl;
  good_ipc_socket_path =
      text_or-filled (codes "/var/run/appcenter-agent/ipc.sock") c.ipc_socket_path refl;
  good_websocket_reconnect_min_sec = int_or-is_positive 2 c.websocket_reconnect_min_sec refl;
  good_websocket_reconnect_max_sec = int_or-is_positive 60 c.websocket_reconnect_max_sec refl;
  good_remote_support_approval_timeout_sec =
      int_or-is_positive 30 c.remote_support_approval_timeout_sec refl;
  good_remote_support_display = text_or-filled (codes ":0") c.remote_support_display refl;
  good_remote_support_port = int_or-is_positive 20010 c.remote_support_port refl;
}

with_defaults_idem : (c : Config) → with_defaults (with_defaults c) ≡ with_defaults c
unfolding with_defaults
with_defaults_idem c = simp (text_or_idem, int_or_idem)

-- A parsed configuration that is accepted has a server, and is the parsed one with the defaults.
check_config_lem :
    (c d : Config) → check_config c ≡ ok d → (is_empty c.server_url ≡ false) × (d ≡ with_defaults c)
unfolding check_config
check_config_lem c d h = ground arith

parse_config_lem :
    (r : Result Config) (d : Config)
    → parse_config r ≡ ok d
    → (c : Config) × (check_config c ≡ ok d)
unfolding parse_config
parse_config_lem (err e) d h = ground arith
parse_config_lem (ok c) d h = (c, h)

pub load-checked :
    (unmarshal : Text → Result Config) (file : Result Text) (d : Config)
    → load unmarshal file ≡ ok d
    → (c : Config) × (check_config c ≡ ok d)
unfolding load
load-checked unmarshal (err e) d h = ground arith
load-checked unmarshal (ok content) d h = parse_config_lem (unmarshal content) d h

-- A configuration that Load returns can be used: no required text is empty, and every interval,
-- timeout, capacity and port is positive.
pub load-IsUsable :
    (unmarshal : Text → Result Config) (file : Result Text) (d : Config)
    → load unmarshal file ≡ ok d
    → IsUsable d
load-IsUsable unmarshal file d h =
    let k = load-checked unmarshal file d h in
    let e = check_config_lem k.0 d k.1 in subst IsUsable (sym e.1) (with_defaults-IsUsable k.0 e.0)

-- What Load accepts it accepts again unchanged.
pub check_config_again : (c d : Config) → check_config c ≡ ok d → with_defaults d ≡ d
check_config_again c d h =
    let e = (check_config_lem c d h).1 in ap with_defaults e ∙ with_defaults_idem c ∙ sym e
