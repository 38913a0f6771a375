-- ===== src/Config/Update.antt =====
-- internal/config/config.go: saving a configuration, changing the version, and loading it again.
use appcenter_agent_linux.Base.{◌≡◌, refl, ap, ◌∙◌, false, [], ◌∷◌, none, arith}
use appcenter_agent_linux.Text.{Text, codes, is_empty}
use appcenter_agent_linux.Api.{Result, ok}
use appcenter_agent_linux.Config.{
  Config, text_or, with_defaults, check_config, parse_config, load, wrote, save, wrap_save,
  save_version, update_agent_version,
}
use appcenter_agent_linux.Config.Defaults.{load-checked, load-IsUsable, check_config_again}

-- A usable configuration is accepted as it is, given that its defaults are set.
accepted_as_is :
    (d : Config) → is_empty d.server_url ≡ false → with_defaults d ≡ d → check_config d ≡ ok d
unfolding check_config
accepted_as_is d h e = ground (arith, e)

text_or-full : (d t : Text) → is_empty t ≡ false → text_or d t ≡ t
unfolding text_or
text_or-full d [] h = ground arith
text_or-full d (c ∷ t) h = refl

abbrev with_version : Text → Config → Config
with_version version c = record c { agent_version = version }

-- A changed version keeps the defaults set.
defaults_set :
    (d : Config) (version : Text)
    → is_empty version ≡ false
    → with_defaults d ≡ d
    → with_defaults (record d { agent_version = version }) ≡ record d { agent_version = version }
unfolding with_defaults
defaults_set d version v e =
    ap (λ t. with_version t (with_defaults d)) (text_or-full (codes "0.1.55-live") version v)
    ∙ ap (with_version version) e

module _ (unmarshal : Text → Result Config) (marshal : Config → Result Text) where
  load_written :
      (c : Config) (t : Text)
      → unmarshal t ≡ ok c
      → check_config c ≡ ok c
      → load unmarshal (ok t) ≡ ok c
  unfolding load parse_config
  load_written c t u k = ap parse_config u ∙ k

  saved :
      (c : Config) (t : Text) (file : Result Text)
      → marshal c ≡ ok t
      → save marshal c wrote file ≡ (none, ok t)
  unfolding save
  saved c t file m = ground (arith, m)

  save_version-saved :
      (version : Text) (d : Config) (t : Text) (file : Result Text)
      → marshal (record d { agent_version = version }) ≡ ok t
      → save_version marshal version (ok d) wrote file ≡ (none, ok t)
  unfolding save_version
  save_version-saved version d t file m =
      ap wrap_save (saved (record d { agent_version = version }) t file m)

  -- When a configuration file loads and can be written, path and version are not empty, and the
  -- YAML library prints the changed configuration to a text that it parses back, UpdateAgentVersion
  -- succeeds, and the file then loads to the same configuration with the new version.
  pub update_then_load :
      (path version : Text) (file : Result Text) (d : Config) (t : Text)
      → is_empty path ≡ false
      → is_empty version ≡ false
      → load unmarshal file ≡ ok d
      → marshal (record d { agent_version = version }) ≡ ok t
      → unmarshal t ≡ ok (record d { agent_version = version })
      → (update_agent_version unmarshal marshal path version wrote file ≡ (none, ok t))
        × (load unmarshal (ok t) ≡ ok (record d { agent_version = version }))
  unfolding update_agent_version
  update_then_load path version file d t p v l m u =
      let new : Config = record d { agent_version = version } in
      let k = load-checked unmarshal file d l in
      let e = defaults_set d version v (check_config_again k.0 d k.1) in
      let good = (load-IsUsable unmarshal file d l).good_server_url in
      (
        ground (
          arith,
          p,
          v,
          ap (λ r. save_version marshal version r wrote file) l,
          save_version-saved version d t file m,
        ),
        load_written new t u (accepted_as_is new good e),
      )
