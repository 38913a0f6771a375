-- ===== src/SelfUpdate/Version.antt =====
-- cmd/service/main.go: what `maybeApplySelfUpdate` does to the configuration file once the executable
-- is replaced: the new version, the check that the file loads, and the return to the old content.
use appcenter_agent_linux.Base.{◌≡◌, refl, ap, ◌∙◌, ◌||◌, Bool, true, Option, none, some, if_both}
use appcenter_agent_linux.Text.{Text, is_empty}
use appcenter_agent_linux.Api.{Error, Result, ok, err, is_ok, result_split}
use appcenter_agent_linux.Config.{
  Config, load, Write, wrote, broke, save, wrap_save, save_version, update_agent_version,
}

-- os.WriteFile of the original content, when it could be read
unfoldable pub restore_config : Result Text → Write → Result Text → Result Text
restore_config (err e) result file = file
restore_config (ok content) wrote file = ok content
restore_config (ok content) (broke e left) file = left

-- What follows UpdateAgentVersion, by its error
unfoldable pub check_update :
    (Text → Result Config) → Result Text → Write → Option Error × Result Text → Result Text
unfolding load restore_config
check_update unmarshal original restored (some e, file) = file
check_update unmarshal original restored (none, file) = elim (load unmarshal file) [
  | ok c ↦ file
  | err e ↦ restore_config original restored file
]

-- The file after the update of the version, with what its two writes do
unfoldable pub update_config :
    (Text → Result Config)
    → (Config → Result Text)
    → Text
    → Text
    → Write
    → Write
    → Result Text
    → Result Text
unfolding update_agent_version check_update
update_config unmarshal marshal path version written restored file =
    check_update unmarshal file restored
      (update_agent_version unmarshal marshal path version written file)

module _ (unmarshal : Text → Result Config) (marshal : Config → Result Text) where
  -- That a file loads
  abbrev pub loads : Result Text → Bool
  loads file = is_ok (load unmarshal file)

  check_update-ok :
      (content : Text) (file : Result Text)
      → loads (ok content) ≡ true
      → loads (check_update unmarshal (ok content) wrote (none, file)) ≡ true
  unfolding check_update restore_config
  check_update-ok content file h =
      result_split (λ f. loads f ≡ true) (load unmarshal file) (λ c e. ap is_ok e) (λ x e. h)

  -- A failed UpdateAgentVersion whose write would succeed leaves the file as it is.
  abbrev IsKept : Result Text → Option Error × Result Text → Type 0
  IsKept file (none, f) = Unit
  IsKept file (some e, f) = f ≡ file

  save-IsKept :
      (c : Config) (file : Result Text) → IsKept file (wrap_save (save marshal c wrote file))
  unfolding save
  save-IsKept c file =
      result_split (λ r. IsKept file (wrap_save r)) (marshal c) (λ t e. tt) (λ x e. refl)

  save_version-IsKept :
      (version : Text) (r : Result Config) (file : Result Text)
      → IsKept file (save_version marshal version r wrote file)
  unfolding save_version
  save_version-IsKept version (err e) file = refl
  save_version-IsKept version (ok c) file = save-IsKept (record c { agent_version = version }) file

  update-IsKept :
      (path version : Text) (file : Result Text)
      → IsKept file (update_agent_version unmarshal marshal path version wrote file)
  unfolding update_agent_version
  update-IsKept path version file =
      if_both {A = Option Error × Result Text} (IsKept file) (is_empty path || is_empty version)
        refl (save_version-IsKept version (load unmarshal file) file)

  check_update-loads :
      (content : Text) (r : Option Error × Result Text)
      → IsKept (ok content) r
      → loads (ok content) ≡ true
      → loads (check_update unmarshal (ok content) wrote r) ≡ true
  unfolding check_update
  check_update-loads content (some e, file) k h = ap loads k ∙ h
  check_update-loads content (none, file) k h = check_update-ok content file h

  -- When the configuration file loads before a self-update and its writes succeed, it loads after
  -- it, with whatever the YAML library makes of the new version: a file that would not load is
  -- replaced by the old content.
  pub config_still_loads :
      (path version content : Text)
      → loads (ok content) ≡ true
      → loads (update_config unmarshal marshal path version wrote wrote (ok content)) ≡ true
  unfolding update_config
  config_still_loads path version content h =
      check_update-loads content
        (update_agent_version unmarshal marshal path version wrote (ok content))
        (update-IsKept path version (ok content)) h
