-- ===== src/ServerConfig/Laws.antt =====
-- cmd/service/main.go: what `applyServerConfig` guarantees.
use appcenter_agent_linux.Base.{
  ℕ, zero, suc, ◌≡◌, refl, ap, ◌∙◌, ℤ, pos, negsuc, Bool, true, false, ◌||◌, List, [], ◌∷◌,
  if◌then◌else◌, Option, none, some, arith, is_positive, leb, All, if_both,
}
use appcenter_agent_linux.Text.{Text, codes, same}
use appcenter_agent_linux.Dedup.{second}
use appcenter_agent_linux.ServerConfig.{
  duration, minute, Value, number, boolean, other, Values, Settings, start_ws_client, value,
  positive_or, int_from_any, number_setting, bool_setting, asks, same_bool, new_settings, effects,
  apply_server_config,
}

-- Every interval is a positive duration, so that no loop of the agent spins and the ticker takes it.
pub record IsPaced (s : Settings) : Type 0 where
  pub inventory_paced : is_positive (duration minute s.inventory_interval_min) ≡ true
  pub self_update_paced : is_positive (duration minute s.self_update_interval_min) ≡ true
  pub heartbeat_paced : is_positive (duration second s.heartbeat_interval_sec) ≡ true
  pub ws_status_paced : is_positive (duration second s.ws_status_interval_sec) ≡ true

-- The most minutes that a duration can have: 292 years
abbrev pub max_minutes : ℕ
max_minutes = 153722867

abbrev pub fits : Value → Bool
fits (number (pos n)) = leb n max_minutes
fits _ = true

-- No number of the configuration is larger than that.
abbrev pub IsModest : Values → Type 0
IsModest m = All (λ kv. fits kv.1 ≡ true) m

abbrev OptFits : Option Value → Type 0
OptFits none = Unit
OptFits (some v) = fits v ≡ true

value-fits : (key : Text) (m : Values) → IsModest m → OptFits (value key m)
unfolding value
value-fits key [] h = tt
value-fits key ((k, v) ∷ m) h = if_both OptFits (same k key) h.0 (value-fits key m h.1)

-- The duration of a number that is positive and not too large
minute-positive :
    (n : ℕ) → leb (suc n) max_minutes ≡ true → is_positive (duration minute (suc n)) ≡ true
unfolding duration
minute-positive n h = ground arith

second-positive :
    (n : ℕ) → leb (suc n) max_minutes ≡ true → is_positive (duration second (suc n)) ≡ true
unfolding duration
second-positive n h = ground arith

module _ (unit : ℕ)
    (positive : (n : ℕ)
      → leb (suc n) max_minutes ≡ true
      → is_positive (duration unit (suc n)) ≡ true) where
  abbrev Paced : ℕ → Type 0
  Paced n = is_positive (duration unit n) ≡ true

  number-Paced :
      (v : Value) (old : ℕ) → fits v ≡ true → Paced old → Paced (number_setting (some v) old)
  unfolding number_setting positive_or int_from_any
  number-Paced (number (pos zero)) old f h = h
  number-Paced (number (pos (suc n))) old f h = positive n f
  number-Paced (number (negsuc n)) old f h = h
  number-Paced (boolean b) old f h = h
  number-Paced other old f h = h

  setting-Paced :
      (v : Option Value) (old : ℕ) → OptFits v → Paced old → Paced (number_setting v old)
  unfolding number_setting
  setting-Paced none old f h = h
  setting-Paced (some v) old f h = number-Paced v old f h

-- The settings after several configurations of the server, the first one first
unfoldable pub apply_all : List Values → Settings → Settings
unfolding apply_server_config
apply_all [] s = s
apply_all (m ∷ ms) s = apply_all ms (apply_server_config m s).0

new_settings-IsPaced :
    (m : Values) (s : Settings) → IsModest m → IsPaced s → IsPaced (new_settings m s)
unfolding new_settings
new_settings-IsPaced m s f h =
    let at = λ (key : Text). value-fits key m f in
    record {
      inventory_paced =
          setting-Paced minute minute-positive _ s.inventory_interval_min
            (at (codes "inventory_scan_interval_min")) h.inventory_paced;
      self_update_paced =
          setting-Paced minute minute-positive _ s.self_update_interval_min
            (at (codes "runtime_update_interval_min")) h.self_update_paced;
      heartbeat_paced =
          setting-Paced second second-positive _ s.heartbeat_interval_sec
            (at (codes "heartbeat_interval_sec")) h.heartbeat_paced;
      ws_status_paced =
          setting-Paced second second-positive _ s.ws_status_interval_sec
            (at (codes "ws_status_interval_sec")) h.ws_status_paced;
    }

-- No sequence of server configurations with numbers of at most 153722867, positive or not and of
-- the right type or not, makes the duration of an interval zero or negative when all are positive
-- before.
pub apply_all-IsPaced :
    (ms : List Values) (s : Settings) → All IsModest ms → IsPaced s → IsPaced (apply_all ms s)
unfolding apply_all apply_server_config
apply_all-IsPaced [] s f h = h
apply_all-IsPaced (m ∷ ms) s f h =
    apply_all-IsPaced ms (new_settings m s) f.1 (new_settings-IsPaced m s f.0 h)

positive_or_idem : (o : Option ℤ) (old : ℕ) → positive_or (positive_or old o) o ≡ positive_or old o
unfolding positive_or
positive_or_idem none old = refl
positive_or_idem (some (pos zero)) old = refl
positive_or_idem (some (pos (suc n))) old = refl
positive_or_idem (some (negsuc n)) old = refl

number_setting_idem :
    (v : Option Value) (old : ℕ) → number_setting v (number_setting v old) ≡ number_setting v old
unfolding number_setting
number_setting_idem none old = refl
number_setting_idem (some v) old = positive_or_idem (int_from_any v) old

bool_setting_idem :
    (v : Option Value) (old : Bool) → bool_setting v (bool_setting v old) ≡ bool_setting v old
unfolding bool_setting
bool_setting_idem none old = refl
bool_setting_idem (some (number n)) old = refl
bool_setting_idem (some (boolean b)) old = refl
bool_setting_idem (some other) old = refl

or_idem : (a b : Bool) → (a || (a || b)) ≡ (a || b)
or_idem true b = refl
or_idem false b = refl

new_settings_idem :
    (m : Values) (s : Settings) → new_settings m (new_settings m s) ≡ new_settings m s
unfolding new_settings
new_settings_idem m s = simp (number_setting_idem, bool_setting_idem, or_idem)

same_bool_refl : (b : Bool) → same_bool b b ≡ true
same_bool_refl true = refl
same_bool_refl false = refl

effects-same :
    (m : Values) (s : Settings)
    → effects m s s
      ≡ (if asks (value (codes "websocket_enabled") m) then start_ws_client ∷ [] else [])
unfolding effects
effects-same m s = ground (arith, same_bool_refl s.websocket_enabled)

-- A configuration that arrives again changes no setting, saves nothing and does not reset the
-- heartbeat; it only asks again for the WebSocket client, when it enables it.
pub apply_server_config_again :
    (m : Values) (s : Settings)
    → let s' = (apply_server_config m s).0 in
      apply_server_config m s'
      ≡ (s', if asks (value (codes "websocket_enabled") m) then start_ws_client ∷ [] else [])
unfolding apply_server_config
apply_server_config_again m s =
    let s' = new_settings m s in
    ap (λ t. (t, effects m s' t)) (new_settings_idem m s) ∙ ap (λ l. (s', l)) (effects-same m s')
