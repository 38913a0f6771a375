-- ===== src/Heartbeat/Config.antt =====
-- internal/api/client.go: `HeartbeatConfig`; cmd/service/main.go: `heartbeatConfigToMap`, by way of
-- the JSON names of its fields. A text becomes a value that is neither a number nor a Boolean.
-- A number is taken to be at most 2^53 in size, where its way through float64 does not change it.
use appcenter_agent_linux.Base.{
  ℕ, ℤ, pos, eq_ℤ, is_positive, pos_part, Bool, false, ◌||◌, [], ◌∷◌, if◌then◌else◌, Option, ◌≡◌,
  refl, ap, ◌∙◌, arith, negsuc, zero, suc,
}
use appcenter_agent_linux.Text.{Text, codes, is_empty, same}
use appcenter_agent_linux.ServerConfig.{
  Value, number, boolean, Values, Settings, value, number_setting, bool_setting, asks, positive_or,
  int_from_any, new_settings,
}
use appcenter_agent_linux.ServerConfig
use appcenter_agent_linux.SelfUpdate.{Offer}

pub record HeartbeatConfig : Type 0 where
  pub heartbeat_interval_sec : ℤ
  pub inventory_sync_required : Bool
  pub services_sync_required : Bool
  pub service_monitoring_enabled : Bool
  pub inventory_scan_interval_min : ℤ
  pub remote_support_enabled : Bool
  pub websocket_enabled : Bool
  pub offer : Offer
  pub runtime_update_interval_min : ℤ
  pub runtime_update_jitter_sec : ℤ

-- The fields with `omitempty`
abbrev pub unless_zero : Text → ℤ → Values → Values
unless_zero key n m = if eq_ℤ n (pos 0) then m else (key, number n) ∷ m

abbrev pub unless_empty : Text → Text → Values → Values
unless_empty key s m = if is_empty s then m else (key, ServerConfig.Value.other) ∷ m

abbrev pub update_values : HeartbeatConfig → Values
update_values c = unless_empty (codes "latest_agent_version") c.offer.latest_agent_version (
    unless_empty (codes "agent_download_url") c.offer.agent_download_url (
      unless_empty (codes "agent_hash") c.offer.agent_hash (
        unless_zero (codes "runtime_update_interval_min") c.runtime_update_interval_min
          (unless_zero (codes "runtime_update_jitter_sec") c.runtime_update_jitter_sec []))))

-- heartbeatConfigToMap
unfoldable pub heartbeat_config_to_map : HeartbeatConfig → Values
heartbeat_config_to_map c =
    (codes "heartbeat_interval_sec", number c.heartbeat_interval_sec)
    ∷ (codes "inventory_sync_required", boolean c.inventory_sync_required)
    ∷ (codes "services_sync_required", boolean c.services_sync_required)
    ∷ (codes "service_monitoring_enabled", boolean c.service_monitoring_enabled)
    ∷ (codes "inventory_scan_interval_min", number c.inventory_scan_interval_min)
    ∷ (codes "remote_support_enabled", boolean c.remote_support_enabled)
    ∷ (codes "websocket_enabled", boolean c.websocket_enabled)
    ∷ update_values c

-- An interval that is not positive changes nothing.
abbrev pub positive_over : ℤ → ℕ → ℕ
positive_over n old = if is_positive n then pos_part n else old

skip_text :
    (key k s : Text) (m : Values)
    → same k key ≡ false
    → value key (unless_empty k s m) ≡ value key m
unfolding value
skip_text key k [] m h = refl
skip_text key k (c ∷ s) m h = ground arith

skip_zero :
    (key k : Text) (n : ℤ) (m : Values)
    → same k key ≡ false
    → value key (unless_zero k n m) ≡ value key m
unfolding value
skip_zero key k n m h = ground arith

-- The value behind the texts of the update
behind_texts :
    (key : Text) (c : HeartbeatConfig) (m : Values)
    → same (codes "latest_agent_version") key ≡ false
    → same (codes "agent_download_url") key ≡ false
    → same (codes "agent_hash") key ≡ false
    → value key (
        unless_empty (codes "latest_agent_version") c.offer.latest_agent_version (
          unless_empty
            (codes "agent_download_url")
            c.offer.agent_download_url
            (unless_empty (codes "agent_hash") c.offer.agent_hash m)))
      ≡ value key m
behind_texts key c m p q r =
    skip_text key (codes "latest_agent_version") c.offer.latest_agent_version _ p
    ∙ skip_text key (codes "agent_download_url") c.offer.agent_download_url _ q
    ∙ skip_text key (codes "agent_hash") c.offer.agent_hash m r

update_interval :
    (n j : ℤ) (old : ℕ)
    → number_setting
        (value (codes "runtime_update_interval_min") (
          unless_zero
            (codes "runtime_update_interval_min")
            n
            (unless_zero (codes "runtime_update_jitter_sec") j [])))
        old
      ≡ positive_over n old
unfolding value same number_setting positive_or int_from_any
update_interval (pos zero) (pos zero) old = refl
update_interval (pos zero) (pos (suc j)) old = ground arith
update_interval (pos zero) (negsuc j) old = refl
update_interval (pos (suc n)) j old = ground arith
update_interval (negsuc n) j old = refl

status_interval :
    (n j : ℤ) (old : ℕ)
    → number_setting
        (value (codes "ws_status_interval_sec") (
          unless_zero
            (codes "runtime_update_interval_min")
            n
            (unless_zero (codes "runtime_update_jitter_sec") j [])))
        old
      ≡ old
unfolding same number_setting value
status_interval n j old =
    ap (λ (o : Option Value). number_setting o old)
      (skip_zero (codes "ws_status_interval_sec") (codes "runtime_update_interval_min") n _ refl
        ∙ skip_zero (codes "ws_status_interval_sec") (codes "runtime_update_jitter_sec") j [] refl)
    ∙ no_value
  where
    no_value : number_setting (value (codes "ws_status_interval_sec") []) old ≡ old
    no_value = refl

-- The configuration of a heartbeat comes through the map of JSON values into the settings: every
-- switch is the server's, an interval is the server's where it is positive and the old one
-- otherwise, a required synchronisation makes the inventory due and forced, and the interval of the
-- WebSocket status stays.
pub heartbeat_config-applied :
    (c : HeartbeatConfig) (s : Settings)
    → new_settings (heartbeat_config_to_map c) s ≡ record {
      inventory_interval_min = positive_over c.inventory_scan_interval_min s.inventory_interval_min;
      service_monitoring_enabled = c.service_monitoring_enabled;
      service_sync_required = c.services_sync_required;
      self_update_interval_min =
          positive_over c.runtime_update_interval_min s.self_update_interval_min;
      inventory_is_due = c.inventory_sync_required || s.inventory_is_due;
      inventory_force_sync = c.inventory_sync_required || s.inventory_force_sync;
      remote_support_server_enabled = c.remote_support_enabled;
      websocket_enabled = c.websocket_enabled;
      heartbeat_interval_sec = positive_over c.heartbeat_interval_sec s.heartbeat_interval_sec;
      ws_status_interval_sec = s.ws_status_interval_sec;
    }
unfolding heartbeat_config_to_map new_settings value same number_setting bool_setting asks
    positive_or int_from_any
heartbeat_config-applied c s =
    let update = λ (o : Option Value). number_setting o s.self_update_interval_min in
    let status = λ (o : Option Value). number_setting o s.ws_status_interval_sec in
    let p =
      ap update (behind_texts (codes "runtime_update_interval_min") c _ refl refl refl)
      ∙ update_interval c.runtime_update_interval_min c.runtime_update_jitter_sec
          s.self_update_interval_min in
    let q =
      ap status (behind_texts (codes "ws_status_interval_sec") c _ refl refl refl)
      ∙ status_interval c.runtime_update_interval_min c.runtime_update_jitter_sec
          s.ws_status_interval_sec in
    λ k. record (new_settings (heartbeat_config_to_map c) s) {
      self_update_interval_min = p k;
      ws_status_interval_sec = q k;
    }
