-- ===== src/ServerConfig.antt =====
-- cmd/service/main.go: `applyServerConfig`, which takes the server's settings over while the agent
-- runs. A JSON value is a number (already cut to an integer, as `intFromAny` does), a Boolean, or
-- something else. The settings hold the numbers that the server sends; the code keeps an interval as a
-- `time.Duration`, which is `duration` of the number.
pub mod Laws
use appcenter_agent_linux.Base.{
  ℕ, suc, ◌+◌, ◌-◌, ◌*◌, ◌%◌, ◌^◌, ltb, ◌++◌, ℤ, pos, negsuc, is_positive, pos_part, Bool, true,
  false, not, ◌&&◌, ◌||◌, List, [], ◌∷◌, if◌then◌else◌, Option, none, some, ◌==◌,
}
use appcenter_agent_linux.Text.{Text, codes, same}
use appcenter_agent_linux.Dedup.{second}

pub data Value : Type 0 where
  number : ℤ → Value
  boolean : Bool → Value
  other : Value

abbrev pub Values : Type 0
Values = List (Text × Value)

-- time.Duration(n) * unit, which wraps around at 64 bits
unfoldable pub duration : ℕ → ℕ → ℤ
duration unit n =
    let r = n * unit % 2 ^ 64 in if ltb r (2 ^ 63) then pos r else negsuc (2 ^ 64 - 1 - r)

-- t.Add(d); a time before that of the clock's zero is zero.
unfoldable pub add : ℕ → ℤ → ℕ
add t (pos n) = t + n
add t (negsuc n) = t - suc n

abbrev pub minute : ℕ
minute = 60 * second

-- The variables of `main` and the fields of its configuration that the handler sets. A
-- `next_inventory_sync` that is the zero time is `inventory_is_due`.
pub record Settings : Type 0 where
  pub inventory_interval_min : ℕ
  pub service_monitoring_enabled : Bool
  pub service_sync_required : Bool
  pub self_update_interval_min : ℕ
  pub inventory_is_due : Bool
  pub inventory_force_sync : Bool
  pub remote_support_server_enabled : Bool
  pub websocket_enabled : Bool
  pub heartbeat_interval_sec : ℕ
  pub ws_status_interval_sec : ℕ

-- What the handler does besides setting them
pub data Effect : Type 0 where
  save_config : Bool → Effect
  start_ws_client : Effect
  reset_ticker : ℤ → Effect

-- serverConfig[key]
unfoldable pub value : Text → Values → Option Value
value key [] = none
value key ((k, v) ∷ m) = let later = value key m in if same k key then some v else later

-- intFromAny
unfoldable pub int_from_any : Value → Option ℤ
int_from_any (number n) = some n
int_from_any (boolean b) = none
int_from_any other = none

-- `if iv, ok := intFromAny(v); ok && iv > 0 { old = iv }`
unfoldable pub positive_or : ℕ → Option ℤ → ℕ
positive_or old none = old
positive_or old (some n) = if is_positive n then pos_part n else old

unfoldable pub number_setting : Option Value → ℕ → ℕ
unfolding positive_or int_from_any
number_setting none old = old
number_setting (some v) old = positive_or old (int_from_any v)

-- `if b, ok := v.(bool); ok { old = b }`
unfoldable pub bool_setting : Option Value → Bool → Bool
bool_setting none old = old
bool_setting (some (number n)) old = old
bool_setting (some (boolean b)) old = b
bool_setting (some other) old = old

-- `b, ok := v.(bool); ok && b`
unfoldable pub asks : Option Value → Bool
unfolding bool_setting
asks v = bool_setting v false

abbrev pub same_bool : Bool → Bool → Bool
same_bool true b = b
same_bool false b = not b

-- The settings after a server's configuration
unfoldable pub new_settings : Values → Settings → Settings
unfolding value number_setting bool_setting asks
new_settings m s = record {
  inventory_interval_min =
      number_setting (value (codes "inventory_scan_interval_min") m) s.inventory_interval_min;
  service_monitoring_enabled =
      bool_setting (value (codes "service_monitoring_enabled") m) s.service_monitoring_enabled;
  service_sync_required =
      bool_setting (value (codes "services_sync_required") m) s.service_sync_required;
  self_update_interval_min =
      number_setting (value (codes "runtime_update_interval_min") m) s.self_update_interval_min;
  inventory_is_due = asks (value (codes "inventory_sync_required") m) || s.inventory_is_due;
  inventory_force_sync = asks (value (codes "inventory_sync_required") m) || s.inventory_force_sync;
  remote_support_server_enabled =
      bool_setting (value (codes "remote_support_enabled") m) s.remote_support_server_enabled;
  websocket_enabled = bool_setting (value (codes "websocket_enabled") m) s.websocket_enabled;
  heartbeat_interval_sec =
      number_setting (value (codes "heartbeat_interval_sec") m) s.heartbeat_interval_sec;
  ws_status_interval_sec =
      number_setting (value (codes "ws_status_interval_sec") m) s.ws_status_interval_sec;
}

-- What is done for the change from `s` to `s'`
unfoldable pub effects : Values → Settings → Settings → List Effect
unfolding asks value duration
effects m s s' =
    (if same_bool s.websocket_enabled s'.websocket_enabled
      then []
      else save_config s'.websocket_enabled ∷ [])
    ++ (if asks (value (codes "websocket_enabled") m) then start_ws_client ∷ [] else [])
    ++ (if s.heartbeat_interval_sec == s'.heartbeat_interval_sec
        then []
        else reset_ticker (duration second s'.heartbeat_interval_sec) ∷ [])

-- applyServerConfig
unfoldable pub apply_server_config : Values → Settings → Settings × List Effect
unfolding new_settings effects
apply_server_config m s = let s' = new_settings m s in (s', effects m s s')
